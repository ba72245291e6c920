-- ===== src/Server/Auth/Limited.antt =====
-- src/server/auth.rs with the limiter of src/server/traffic.rs: a source that keeps failing.
use rs_llmctl.Base.{
  ℕ, ◌+◌, ◌-◌, ◌<◌, ◌≤◌, min, String, true, false, Option, none, some, ◌≡◌, refl, sym, ap, ◌∙◌, inl,
  inr, List, [], ◌∷◌, map, length, arith, leb, if◌then◌else◌, u32_max, Bool-cases,
}
use rs_llmctl.Base.Map.{get, Distinct}
use rs_llmctl.Traffic.AuthFailures.{
  AuthFailureLimiter, AuthFailureWindow, window_ms, is_limited, record_failure,
}
use rs_llmctl.Traffic.AuthFailures.Window.{
  is_limited-current, get-is_limited, get-is_limited-live, Distinct-is_limited,
  Distinct-record_failure,
}
use rs_llmctl.Traffic.AuthFailures.Limits.{WithinWindow, record_failure-window, first_failure}
use rs_llmctl.Server.Auth.{
  SecurityConfig, Authenticated, ok, err, too_many_failures, auth_failure_key, authenticate,
  authenticate_request, record_result,
}

-- one request: its times and its header
pub record Attempt : Type 0 where
  pub at : ℕ
  pub now : ℕ
  pub header : Option String

abbrev pub times : List Attempt → List ℕ
times as' = map (λ (a : Attempt). a.at) as'

abbrev pub IsErr : Authenticated → Type 0
IsErr (ok principal) = ⊥
IsErr (err reason) = Unit

module _ (sha256_hex : String → String) (cfg : SecurityConfig) (source_key : String) where
  abbrev pub limit : ℕ
  limit = cfg.auth_failure_limit_per_minute

  abbrev pub failure_key : String
  failure_key = auth_failure_key sha256_hex source_key

  abbrev pub request : Attempt → AuthFailureLimiter → AuthFailureLimiter × Authenticated
  request a l = authenticate_request sha256_hex cfg a.header source_key a.at a.now l

  -- the requests of the source, one after the other
  unfoldable pub requests : List Attempt → AuthFailureLimiter → AuthFailureLimiter
  requests [] l = l
  requests (a ∷ as') l = requests as' (request a l).0

  -- No header authenticates.
  abbrev pub AllFail : List Attempt → Type 0
  AllFail [] = Unit
  AllFail (a ∷ as') = IsErr (authenticate sha256_hex cfg a.header a.now) × AllFail as'

  abbrev window : ℕ → ℕ → AuthFailureWindow
  window start n = record { started = start; count = n }

  request-limited :
      (a : Attempt) (l : AuthFailureLimiter)
      → (is_limited failure_key limit a.at l).1 ≡ true
      → request a l ≡ ((is_limited failure_key limit a.at l).0, err too_many_failures)
  unfolding authenticate_request
  request-limited a l e = rw e

  request-free :
      (a : Attempt) (l : AuthFailureLimiter)
      → (is_limited failure_key limit a.at l).1 ≡ false
      → request a l
        ≡ record_result sha256_hex failure_key limit a.at
            (authenticate sha256_hex cfg a.header a.now)
            (is_limited failure_key limit a.at l).0
  unfolding authenticate_request
  request-free a l e = rw e

  recorded :
      (at : ℕ) (answer : Authenticated) (l : AuthFailureLimiter)
      → IsErr answer
      → (record_result sha256_hex failure_key limit at answer l).0
        ≡ record_failure failure_key limit at l
  recorded at (err reason) l h = refl
  recorded at (ok principal) l h = absurd h

  answered :
      (at : ℕ) (answer : Authenticated) (l : AuthFailureLimiter)
      → (record_result sha256_hex failure_key limit at answer l).1 ≡ answer
  answered at (err reason) l = refl
  answered at (ok principal) l = refl

  module _ (pos : 0 < limit) (fits : limit ≤ u32_max) where
    is_limited-live :
        (a : Attempt) (start n : ℕ) (l : AuthFailureLimiter)
        → a.at - start < window_ms
        → get failure_key l.failures ≡ some (window start n)
        → (is_limited failure_key limit a.at l).1 ≡ leb limit n
    is_limited-live a start n l live e =
        is_limited-current failure_key limit a.at l pos ∙ rw e (ground arith)

    -- A failing request adds one to a live window, up to the limit.
    request-window :
        (a : Attempt) (start n : ℕ) (l : AuthFailureLimiter)
        → Distinct l.failures
        → 0 < n
        → n ≤ limit
        → a.at - start < window_ms
        → IsErr (authenticate sha256_hex cfg a.header a.now)
        → get failure_key l.failures ≡ some (window start n)
        → get failure_key (request a l).0.failures ≡ some (window start (min limit (n + 1)))
    request-window a start n l d some_failure low live fails e =
        let kept = get-is_limited-live failure_key limit a.at l (window start n) e live in
        let reads = is_limited-live a start n l live e in
        elim (Bool-cases (is_limited failure_key limit a.at l).1) [
          | inl limited ↦
              rw (request-limited a l limited)
                (kept ∙ ap (λ k. some (window start k)) (ground (arith, reads, limited)))
          | inr free ↦
              rw
                (
                  request-free a l free,
                  recorded a.at _ (is_limited failure_key limit a.at l).0 fails,
                )
                (record_failure-window failure_key limit a.at start n _
                    (Distinct-is_limited failure_key limit a.at l d) pos some_failure live kept
                  ∙ ap (λ k. some (window start k)) (ground (arith, reads, free)))
        ]

    Distinct-request :
        (a : Attempt) (l : AuthFailureLimiter)
        → Distinct l.failures
        → IsErr (authenticate sha256_hex cfg a.header a.now)
        → Distinct (request a l).0.failures
    Distinct-request a l d fails =
        let d' = Distinct-is_limited failure_key limit a.at l d in
        elim (Bool-cases (is_limited failure_key limit a.at l).1) [
          | inl limited ↦ rw (request-limited a l limited) d'
          | inr free ↦
              rw
                (
                  request-free a l free,
                  recorded a.at _ (is_limited failure_key limit a.at l).0 fails,
                )
                (Distinct-record_failure failure_key limit a.at _ d')
        ]

    requests-window :
        (as' : List Attempt) (start n : ℕ) (l : AuthFailureLimiter)
        → Distinct l.failures
        → 0 < n
        → n ≤ limit
        → WithinWindow start (times as')
        → AllFail as'
        → get failure_key l.failures ≡ some (window start n)
        → get failure_key (requests as' l).failures
          ≡ some (window start (min limit (n + length as')))
    unfolding requests
    requests-window [] start n l d p q w f e = e ∙ ap (λ k. some (window start k)) (omega arith)
    requests-window (a ∷ as') start n l d p q w f e =
        requests-window as' start (min limit (n + 1)) (request a l).0 (Distinct-request a l d f.0)
          (omega arith) (omega arith) w.1 f.1 (request-window a start n l d p q w.0 f.0 e)
        ∙ ap (λ k. some (window start k)) (omega arith)

    first_request :
        (a : Attempt) (l : AuthFailureLimiter)
        → Distinct l.failures
        → get failure_key l.failures ≡ none
        → IsErr (authenticate sha256_hex cfg a.header a.now)
        → get failure_key (request a l).0.failures ≡ some (window a.at 1)
    first_request a l d e fails =
        let free : (is_limited failure_key limit a.at l).1 ≡ false =
          is_limited-current failure_key limit a.at l pos ∙ rw e (ground arith) in
        rw (request-free a l free, recorded a.at _ (is_limited failure_key limit a.at l).0 fails)
          (first_failure failure_key limit a.at _ (Distinct-is_limited failure_key limit a.at l d)
            pos (get-is_limited failure_key failure_key limit a.at l e))

    request-answer :
        (a : Attempt) (start n : ℕ) (l : AuthFailureLimiter)
        → a.at - start < window_ms
        → get failure_key l.failures ≡ some (window start n)
        → (request a l).1 ≡ (
            if leb limit n
            then err too_many_failures
            else authenticate sha256_hex cfg a.header a.now)
    request-answer a start n l live e =
        let reads = is_limited-live a start n l live e in
        elim (Bool-cases (is_limited failure_key limit a.at l).1) [
          | inl limited ↦ rw (request-limited a l limited, sym reads ∙ limited)
          | inr free ↦ rw (request-free a l free, sym reads ∙ free) (answered a.at _ _)
        ]

  -- A source without a window sends requests that no header of theirs authenticates, the first at
  -- `first.at` and the others within the minute that starts there. A further request in that
  -- minute gets the answer of its own header as long as those requests were fewer than the limit,
  -- and from then on it is refused, whatever its header. The limit is not zero and is a `u32`.
  pub request-after_failures :
      (first last : Attempt) (others : List Attempt) (l : AuthFailureLimiter)
      → 0 < limit
      → limit ≤ u32_max
      → Distinct l.failures
      → get failure_key l.failures ≡ none
      → AllFail (first ∷ others)
      → WithinWindow first.at (times others)
      → last.at - first.at < window_ms
      → (request last (requests (first ∷ others) l)).1 ≡ (
          if leb limit (1 + length others)
          then err too_many_failures
          else authenticate sha256_hex cfg last.header last.now)
  unfolding requests
  request-after_failures first last others l pos fits d e fails within live =
      let opened = first_request pos fits first l d e fails.0 in
      let counted =
        requests-window pos fits others first.at 1 (request first l).0
          (Distinct-request pos fits first l d fails.0) (omega arith) (omega arith) within fails.1
          opened in
      request-answer pos fits last first.at _ _ live counted
      ∙ ap
          (λ b.
            if b then err too_many_failures else authenticate sha256_hex cfg last.header last.now)
          (ground arith)
