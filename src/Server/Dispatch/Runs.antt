-- ===== src/Server/Dispatch/Runs.antt =====
-- src/server/chat_dispatch.rs: the loop over the aliases as a relation, one rule for each way in which
-- an attempt ends.
use rs_llmctl.Base.{
  ℕ, suc, String, Bool, true, false, Option, none, some, ◌≡◌, refl, sym, subst, ap, ◌∙◌, ◌⊎◌, inl,
  inr, List, [], ◌∷◌, ◌++◌, Bool-cases,
}
use mathlib.Core.List.{append-nil, append_assoc}
use rs_llmctl.Base.Json.{Json}
use rs_llmctl.Traffic.Breaker.{CircuitBreakers, allow_request, record_failure, record_success}
use rs_llmctl.Server.Routing.{ResolvedModelRoute}
use rs_llmctl.Server.Bodies.{Rewritten, rewrite_chat_model}
use rs_llmctl.Server.Dispatch.{
  Exchange, Sent, responded, failed, timed_out, DispatchConfig, Dispatched, ok, err,
  DispatchFailure, no_upstream, bad_request, Dispatching, circuit_open, upstream_error,
  upstream_timeout, should_retry_upstream_status, is_success, upstream_for_alias, with_upstream,
  after_send, send_if, attempt_at, attempt, attempt_target, attempt_body, after_attempt,
  dispatch_each, dispatch_chat_request,
}

-- The failure that what came back counts as, if the next alias is to be tried.
abbrev pub Fails : Sent → DispatchFailure → Type 0
Fails (responded status) f = (should_retry_upstream_status status ≡ true) × (f ≡ upstream_error)
Fails (failed true) f = f ≡ upstream_timeout
Fails (failed false) f = f ≡ upstream_error
Fails timed_out f = f ≡ upstream_timeout

-- What the breakers are told of a status that is passed on.
abbrev pub Told : String → ℕ → CircuitBreakers → CircuitBreakers → Type 0
Told base status b b' =
    ((is_success status ≡ true) × (b' ≡ record_success base b))
    ⊎ ((is_success status ≡ false) × (b' ≡ b))

module _ {B : Type 0} (from_slice : B → Option Json) (to_vec : Json → B) (cfg : DispatchConfig)
    (route : ResolvedModelRoute) (original_body : B) where
  -- The upstream of an alias, and the body that is rewritten for it.
  pub record Target (alias base : String) (out : B) : Type 0 where
    pub configured : upstream_for_alias cfg.upstreams alias ≡ some base
    pub written :
        rewrite_chat_model from_slice to_vec original_body (with_upstream route alias)
        ≡ Rewritten.ok out

module _ {B : Type 0} (from_slice : B → Option Json) (to_vec : Json → B) (cfg : DispatchConfig)
    (route : ResolvedModelRoute) (original_body : B) (exchange : ℕ → String → B → Exchange) where
  abbrev pub Written : String → Rewritten B → Type 0
  Written alias r =
      rewrite_chat_model from_slice to_vec original_body (with_upstream route alias) ≡ r

  -- The breaker's answer when the n-th attempt asks it, and the breakers then.
  abbrev pub asks : ℕ → String → B → CircuitBreakers → CircuitBreakers × Bool
  asks n base out b = allow_request base cfg.circuit_breaker_reset (exchange n base out).asked b

  -- From the n-th attempt on, with the failure of the attempt before: the aliases left to try, the
  -- breakers before, what is posted, how it ends, and the breakers after.
  pub data Runs
      : ℕ
        → Option DispatchFailure
        → List String
        → CircuitBreakers
        → List (String × B)
        → Dispatched
        → CircuitBreakers
        → Type 0 where
    exhausted :
        {n : ℕ} {b : CircuitBreakers} (f : DispatchFailure) → Runs n (some f) [] b [] (err f) b
    unconfigured :
        {n : ℕ} {b : CircuitBreakers}
        → Runs n none [] b [] (err (no_upstream route.upstream_alias)) b
    unwritten :
        {n : ℕ} {last : Option DispatchFailure} {alias : String} {aliases : List String}
        {b : CircuitBreakers} (reason : String)
        → Written alias (Rewritten.err reason)
        → Runs n last (alias ∷ aliases) b [] (err (bad_request reason)) b
    unserved :
        {n : ℕ} {last : Option DispatchFailure} {alias : String} {aliases : List String}
        {b : CircuitBreakers} (out : B)
        → Written alias (Rewritten.ok out)
        → upstream_for_alias cfg.upstreams alias ≡ none
        → Runs n last (alias ∷ aliases) b [] (err (no_upstream alias)) b
    refused :
        {n : ℕ} {last : Option DispatchFailure} {alias base : String} {aliases : List String}
        {b b' : CircuitBreakers} {out : B} {posts : List (String × B)} {outcome : Dispatched}
        → Target from_slice to_vec cfg route original_body alias base out
        → (asks n base out b).1 ≡ false
        → Runs (suc n) (some circuit_open) aliases (asks n base out b).0 posts outcome b'
        → Runs n last (alias ∷ aliases) b posts outcome b'
    retried :
        {n : ℕ} {last : Option DispatchFailure} {alias base : String} {aliases : List String}
        {b b' : CircuitBreakers} {out : B} {posts : List (String × B)} {outcome : Dispatched}
        {f : DispatchFailure}
        → Target from_slice to_vec cfg route original_body alias base out
        → (asks n base out b).1 ≡ true
        → Fails (exchange n base out).sent f
        → Runs
            (suc n)
            (some f)
            aliases
            (record_failure base cfg.circuit_breaker_failures
              (exchange n base out).recorded
              (asks n base out b).0)
            posts
            outcome
            b'
        → Runs n last (alias ∷ aliases) b ((base, out) ∷ posts) outcome b'
    passed_on :
        {n : ℕ} {last : Option DispatchFailure} {alias base : String} {aliases : List String}
        {b b' : CircuitBreakers} {out : B} {status : ℕ}
        → Target from_slice to_vec cfg route original_body alias base out
        → (asks n base out b).1 ≡ true
        → (exchange n base out).sent ≡ responded status
        → should_retry_upstream_status status ≡ false
        → Told base status (asks n base out b).0 b'
        → Runs n last (alias ∷ aliases) b ((base, out) ∷ []) (ok status alias) b'

  -- What a dispatch has added to the posts, and how it ran.
  abbrev pub RanFrom :
      ℕ → Option DispatchFailure → List String → Dispatching B → Dispatching B × Dispatched → Type 0
  RanFrom n last aliases st (st', outcome) =
      (posts : List (String × B)) × (st'.posted ≡ st.posted ++ posts)
      × Runs n last aliases st.breakers posts outcome st'.breakers

  abbrev Next : Type 0
  Next = Option DispatchFailure → Dispatching B → Dispatching B × Dispatched

  module _ (n : ℕ) (last : Option DispatchFailure) (aliases : List String) (next : Next)
      (ih : (f : DispatchFailure) (st : Dispatching B)
        → RanFrom (suc n) (some f) aliases st (next (some f) st)) where
    -- Another attempt, and then the rest.
    retried-RanFrom :
        (alias base : String) (out : B) (f : DispatchFailure) (st st₁ : Dispatching B)
        → Target from_slice to_vec cfg route original_body alias base out
        → (asks n base out st.breakers).1 ≡ true
        → Fails (exchange n base out).sent f
        → st₁.breakers
          ≡ record_failure base cfg.circuit_breaker_failures
              (exchange n base out).recorded
              (asks n base out st.breakers).0
        → st₁.posted ≡ st.posted ++ (base, out) ∷ []
        → RanFrom n last (alias ∷ aliases) st (next (some f) st₁)
    retried-RanFrom alias base out f st st₁ t allowed fails told posted =
        let (posts, more, runs) = ih f st₁ in
        (
          (base, out) ∷ posts,
          more ∙ ap (λ l. l ++ posts) posted ∙ append_assoc st.posted ((base, out) ∷ []) posts,
          retried t allowed fails (
              subst
                (λ b.
                  Runs (suc n) (some f) aliases b posts (next (some f) st₁).1
                    (next (some f) st₁).0.breakers)
                told runs),
        )

    after_send-RanFrom :
        (alias base : String) (out : B) (sent : Sent) (st st₁ : Dispatching B)
        → Target from_slice to_vec cfg route original_body alias base out
        → (asks n base out st.breakers).1 ≡ true
        → (exchange n base out).sent ≡ sent
        → st₁.breakers ≡ (asks n base out st.breakers).0
        → st₁.posted ≡ st.posted ++ (base, out) ∷ []
        → RanFrom n last
            (alias ∷ aliases)
            st
            (after_attempt next (after_send cfg base alias (exchange n base out).recorded sent st₁))
    unfolding after_send
    after_send-RanFrom alias base out (responded status) st st₁ t allowed e b p =
        elim (Bool-cases (should_retry_upstream_status status)) [
          | inl r ↦ rw r (
              retried-RanFrom alias base out upstream_error st _ t allowed
                (subst (λ s. Fails s upstream_error) (sym e) (r, refl))
                (ap
                  (record_failure base cfg.circuit_breaker_failures (exchange n base out).recorded)
                  b)
                p)
          | inr final ↦ elim (Bool-cases (is_success status)) [
            | inl good ↦
                rw (final, good)
                  (
                    (base, out) ∷ [],
                    p,
                    passed_on t allowed e final (inl (good, ap (record_success base) b)),
                  )
            | inr bad ↦
                rw (final, bad) ((base, out) ∷ [], p, passed_on t allowed e final (inr (bad, b)))
          ]
        ]
    after_send-RanFrom alias base out (failed true) st st₁ t allowed e b p =
        retried-RanFrom alias base out upstream_timeout st _ t allowed
          (subst (λ s. Fails s upstream_timeout) (sym e) refl)
          (ap (record_failure base cfg.circuit_breaker_failures (exchange n base out).recorded) b) p
    after_send-RanFrom alias base out (failed false) st st₁ t allowed e b p =
        retried-RanFrom alias base out upstream_error st _ t allowed
          (subst (λ s. Fails s upstream_error) (sym e) refl)
          (ap (record_failure base cfg.circuit_breaker_failures (exchange n base out).recorded) b) p
    after_send-RanFrom alias base out timed_out st st₁ t allowed e b p =
        retried-RanFrom alias base out upstream_timeout st _ t allowed
          (subst (λ s. Fails s upstream_timeout) (sym e) refl)
          (ap (record_failure base cfg.circuit_breaker_failures (exchange n base out).recorded) b) p

    attempt_at-RanFrom :
        (alias base : String) (out : B) (st : Dispatching B)
        → Target from_slice to_vec cfg route original_body alias base out
        → RanFrom n last
            (alias ∷ aliases)
            st
            (after_attempt next (attempt_at cfg base alias out (exchange n base out) st))
    unfolding attempt_at send_if
    attempt_at-RanFrom alias base out st t = elim (Bool-cases (asks n base out st.breakers).1) [
      | inl allowed ↦ rw allowed (after_send-RanFrom alias base out _ st _ t allowed refl refl refl)
      | inr denied ↦
          let (posts, more, runs) =
            ih circuit_open (record st { breakers = (asks n base out st.breakers).0 }) in
          rw denied (posts, more, refused t denied runs)
    ]

    attempt-RanFrom :
        (alias : String) (st : Dispatching B)
        → RanFrom n last (alias ∷ aliases) st (
            after_attempt next
              (attempt from_slice to_vec cfg route original_body alias (exchange n) st))
    unfolding attempt
    attempt-RanFrom alias st =
        body_runs (rewrite_chat_model from_slice to_vec original_body (with_upstream route alias))
          refl
      where
        target_runs :
            (out : B) (base? : Option String)
            → Written alias (Rewritten.ok out)
            → upstream_for_alias cfg.upstreams alias ≡ base?
            → RanFrom n last (alias ∷ aliases) st (
                after_attempt next (
                  attempt_target from_slice to_vec cfg route original_body alias out
                    (exchange n)
                    base?
                    st))
        target_runs out none w c = ([], sym (append-nil st.posted), unserved out w c)
        target_runs out (some base) w c =
            attempt_at-RanFrom alias base out st (record { configured = c; written = w })

        body_runs :
            (r : Rewritten B)
            → Written alias r
            → RanFrom n last (alias ∷ aliases) st (
                after_attempt next
                  (attempt_body from_slice to_vec cfg route original_body alias (exchange n) r st))
        body_runs (Rewritten.err reason) w = ([], sym (append-nil st.posted), unwritten reason w)
        body_runs (Rewritten.ok out) w =
            target_runs out (upstream_for_alias cfg.upstreams alias) w refl

  dispatch_each-RanFrom :
      (aliases : List String) (n : ℕ) (last : Option DispatchFailure) (st : Dispatching B)
      → RanFrom n last aliases st
          (dispatch_each from_slice to_vec cfg route original_body aliases exchange n last st)
  unfolding dispatch_each
  dispatch_each-RanFrom [] n none st = ([], sym (append-nil st.posted), unconfigured)
  dispatch_each-RanFrom [] n (some f) st = ([], sym (append-nil st.posted), exhausted f)
  dispatch_each-RanFrom (alias ∷ aliases) n last st =
      attempt-RanFrom n last aliases
        (dispatch_each from_slice to_vec cfg route original_body aliases exchange (suc n))
        (λ f st'. dispatch_each-RanFrom aliases (suc n) (some f) st') alias st

  -- Whatever the upstreams do, a dispatch tries the alias of the route and then its fallbacks, in this
  -- order, by these rules. A body that cannot be rewritten for the alias, or an alias with no upstream,
  -- ends it with that error. If the breaker of the alias's upstream refuses, nothing is posted and the
  -- next alias is tried. If the breaker allows it, the rewritten body is posted once; a status 429 or
  -- 5xx, an error or a timeout is recorded as a failure and the next alias is tried, and any other
  -- status is the answer, with this alias (a success is recorded where the status is 2xx). After the
  -- last alias it ends with the last attempt's failure. What is posted and what the breakers hold at the
  -- end are exactly what these rules say.
  pub dispatch_chat_request-Runs :
      (st : Dispatching B)
      → RanFrom 0 none
          (route.upstream_alias ∷ route.fallback_aliases)
          st
          (dispatch_chat_request from_slice to_vec cfg route original_body exchange st)
  unfolding dispatch_chat_request
  dispatch_chat_request-Runs st =
      dispatch_each-RanFrom (route.upstream_alias ∷ route.fallback_aliases) 0 none st
