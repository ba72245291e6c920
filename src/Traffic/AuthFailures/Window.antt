-- ===== src/Traffic/AuthFailures/Window.antt =====
-- What a source's window reads after each call of `AuthFailureLimiter`.
use rs_llmctl.Base.{
  ℕ, ◌-◌, ◌<◌, ◌≡◌, refl, inl, inr, String, Bool, ◌&&◌, Option, none, some, if◌then◌else◌, arith,
  eq_iff, eq_refl, Option-cases, ltb, leb,
}
use rs_llmctl.Base.Map.{Map, get, Distinct}
use rs_llmctl.Base.Map.Laws.{get-insert, get-retain, kept, Distinct-insert, Distinct-retain}
use rs_llmctl.Traffic.AuthFailures.{
  AuthFailureWindow, AuthFailureLimiter, window_ms, reset_expired, is_limited,
  prune_stale_auth_windows, or_started, counted, record_failure,
}

-- the failures that count at a time
abbrev pub current : ℕ → Option AuthFailureWindow → ℕ
current now none = 0
current now (some w) = if leb window_ms (now - w.started) then 0 else w.count

pub is_limited-current :
    (key : String) (limit now : ℕ) (l : AuthFailureLimiter)
    → 0 < limit
    → (is_limited key limit now l).1 ≡ leb limit (current now (get key l.failures))
unfolding is_limited
is_limited-current key limit now l h = ground arith

pub get-is_limited :
    (key j : String) (limit now : ℕ) (l : AuthFailureLimiter)
    → get j l.failures ≡ none
    → get j (is_limited key limit now l).0.failures ≡ none
unfolding is_limited
get-is_limited key j limit now l h = elim (Option-cases (get key l.failures)) [
  | inl e ↦ ground arith
  | inr (w, e) ↦ ground (arith, eq_iff key j, get-insert key j (reset_expired now w) l.failures)
]

-- A window that has not expired is read and left alone.
pub get-is_limited-live :
    (key : String) (limit now : ℕ) (l : AuthFailureLimiter) (w : AuthFailureWindow)
    → get key l.failures ≡ some w
    → now - w.started < window_ms
    → get key (is_limited key limit now l).0.failures ≡ some w
unfolding is_limited
get-is_limited-live key limit now l w e live =
    ground (arith, get-insert key key (reset_expired now w) l.failures, eq_refl key)

pub Distinct-is_limited :
    (key : String) (limit now : ℕ) (l : AuthFailureLimiter)
    → Distinct l.failures
    → Distinct (is_limited key limit now l).0.failures
unfolding is_limited
Distinct-is_limited key limit now l d = elim (Option-cases (get key l.failures)) [
  | inl e ↦ ground arith
  | inr (w, e) ↦ ground (arith, Distinct-insert key (reset_expired now w) l.failures d)
]

abbrev stale_keep : ℕ → AuthFailureWindow → Bool
stale_keep now w = ltb 0 w.count && ltb (now - w.started) window_ms

current-kept :
    (now : ℕ) (o : Option AuthFailureWindow) → current now (kept (stale_keep now) o) ≡ current now o
current-kept now none = refl
current-kept now (some w) = ground arith

-- Pruning changes no count at its own time.
pub current-prune :
    (now : ℕ) (j : String) (m : Map AuthFailureWindow)
    → Distinct m
    → current now (get j (prune_stale_auth_windows now m)) ≡ current now (get j m)
unfolding prune_stale_auth_windows
current-prune now j m d =
    ground (arith, get-retain (stale_keep now) j m d, current-kept now (get j m))

-- A window that counts something and has not expired is kept.
pub get-prune_live :
    (now : ℕ) (j : String) (m : Map AuthFailureWindow) (w : AuthFailureWindow)
    → Distinct m
    → get j m ≡ some w
    → 0 < w.count
    → now - w.started < window_ms
    → get j (prune_stale_auth_windows now m) ≡ some w
unfolding prune_stale_auth_windows
get-prune_live now j m w d e p q = ground (arith, get-retain (stale_keep now) j m d)

pub get-prune_none :
    (now : ℕ) (j : String) (m : Map AuthFailureWindow)
    → Distinct m
    → get j m ≡ none
    → get j (prune_stale_auth_windows now m) ≡ none
unfolding prune_stale_auth_windows
get-prune_none now j m d e = ground (arith, get-retain (stale_keep now) j m d)

pub Distinct-prune :
    (now : ℕ) (m : Map AuthFailureWindow) → Distinct m → Distinct (prune_stale_auth_windows now m)
unfolding prune_stale_auth_windows
Distinct-prune now m d = ground (arith, Distinct-retain (stale_keep now) m d)

pub Distinct-record_failure :
    (key : String) (limit now : ℕ) (l : AuthFailureLimiter)
    → Distinct l.failures
    → Distinct (record_failure key limit now l).failures
unfolding record_failure
Distinct-record_failure key limit now l d =
    let m = prune_stale_auth_windows now l.failures in
    ground (
      arith,
      Distinct-insert key (counted (reset_expired now (or_started now (get key m)))) m
          (Distinct-prune now l.failures d),
    )

pub get-record_failure :
    (key : String) (limit now : ℕ) (l : AuthFailureLimiter)
    → 0 < limit
    → get key (record_failure key limit now l).failures
      ≡ some (
          counted (
            reset_expired now (or_started now (get key (prune_stale_auth_windows now l.failures)))))
unfolding record_failure
get-record_failure key limit now l pos =
    let m = prune_stale_auth_windows now l.failures in
    ground (
      arith,
      eq_refl key,
      get-insert key key (counted (reset_expired now (or_started now (get key m)))) m,
    )
