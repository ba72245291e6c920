-- ===== src/Server/Dispatch/Stuck.antt =====
-- src/server/chat_dispatch.rs: probes of an open breaker that record nothing.
use rs_llmctl.Base.{
  ℕ, String, Bool, true, false, Option, some, ◌≡◌, refl, ap, ap₂, ◌∙◌, List, [], ◌∷◌, ◌++◌, map,
}
use rs_llmctl.Base.Json.{Json}
use rs_llmctl.Base.Map.{Distinct}
use rs_llmctl.Traffic.Breaker.{CircuitBreakers, allow_request}
use rs_llmctl.Traffic.Breaker.Lookup.{state_of}
use rs_llmctl.Traffic.Breaker.Refines.{allow, step}
use rs_llmctl.Traffic.Breaker.Opens.{
  IsProbing, IsProbing-blocks, IsProbing-allow_request, IsProbing-step,
}
use rs_llmctl.Server.Routing.{ResolvedModelRoute}
use rs_llmctl.Server.Bodies.{Rewritten, rewrite_chat_model}
use rs_llmctl.Server.Dispatch.{
  Exchange, responded, DispatchConfig, DispatchFailure, bad_request, Dispatched, ok, err,
  Dispatching, circuit_open, Step, answered, goes_on, should_retry_upstream_status, is_success,
  upstream_for_alias, with_upstream, after_send, send_if, after_attempt, or_no_upstream, attempt_at,
  attempt, dispatch_each, dispatch_chat_request,
}

module _ {B : Type 0} (cfg : DispatchConfig) (base alias : String) (body : B) (e : Exchange)
    (st : Dispatching B) where
  abbrev asked : CircuitBreakers × Bool
  asked = allow_request base cfg.circuit_breaker_reset e.asked st.breakers

  pub attempt_at-refused :
      asked.1 ≡ false
      → attempt_at cfg base alias body e st
        ≡ (record st { breakers = asked.0 }, goes_on circuit_open)
  unfolding attempt_at send_if
  attempt_at-refused h = rw h

  pub attempt_at-unrecorded :
      (status : ℕ)
      → asked.1 ≡ true
      → e.sent ≡ responded status
      → is_success status ≡ false
      → should_retry_upstream_status status ≡ false
      → attempt_at cfg base alias body e st ≡ (
        record st { breakers = asked.0; posted = st.posted ++ (base, body) ∷ [] },
        answered status alias,
      )
  unfolding attempt_at send_if after_send
  attempt_at-unrecorded status h sent fails final = rw (h, sent, final, fails)

module _ {B : Type 0} (from_slice : B → Option Json) (to_vec : Json → B) (cfg : DispatchConfig)
    (route : ResolvedModelRoute) where
  abbrev pub Network : Type 0
  Network = ℕ → String → B → Exchange

  abbrev pub dispatch : B → Network → Dispatching B → Dispatching B × Dispatched
  dispatch body = dispatch_chat_request from_slice to_vec cfg route body

  -- requests for one route, with their bodies, one after the other
  unfoldable pub dispatch_all : List (B × Network) → Dispatching B → Dispatching B × List Dispatched
  dispatch_all [] st = (st, [])
  dispatch_all ((body, exchange) ∷ requests) st =
      let (st', outcome) = dispatch body exchange st in
      let (st'', outcomes) = dispatch_all requests st' in (st'', outcome ∷ outcomes)

  abbrev pub body_for : B → Rewritten B
  body_for body =
      rewrite_chat_model from_slice to_vec body (with_upstream route route.upstream_alias)

  -- The answer to a request that is not posted: its body cannot be rewritten, or the breaker is open.
  abbrev pub unposted : Rewritten B → Dispatched
  unposted (Rewritten.err reason) = err (bad_request reason)
  unposted (Rewritten.ok out) = err circuit_open

  module _ (base : String) (alone : route.fallback_aliases ≡ [])
      (configured : upstream_for_alias cfg.upstreams route.upstream_alias ≡ some base) where
    one_attempt : B → Network → Dispatching B → Dispatching B × Step
    one_attempt out exchange st =
        attempt_at cfg base route.upstream_alias out (exchange 0 base out) st

    last_one : Option DispatchFailure → Dispatching B → Dispatching B × Dispatched
    last_one failure st = (st, err (or_no_upstream route.upstream_alias failure))

    dispatch-attempt :
        (body out : B) (exchange : Network) (st : Dispatching B)
        → body_for body ≡ Rewritten.ok out
        → dispatch body exchange st ≡ after_attempt last_one (one_attempt out exchange st)
    unfolding dispatch_chat_request dispatch_each attempt one_attempt last_one
    dispatch-attempt body out exchange st written = rw (written, configured, alone)

    dispatch-unwritten :
        (body : B) (reason : String) (exchange : Network) (st : Dispatching B)
        → body_for body ≡ Rewritten.err reason
        → dispatch body exchange st ≡ (st, err (bad_request reason))
    unfolding dispatch_chat_request dispatch_each attempt
    dispatch-unwritten body reason exchange st unwritten = rw unwritten refl

    -- what a refused dispatch leaves
    abbrev pub left_by : B → Network → Dispatching B → Dispatching B
    left_by out exchange st = record st {
      breakers =
          (allow_request base cfg.circuit_breaker_reset (exchange 0 base out).asked st.breakers).0;
    }

    dispatch-refused :
        (body out : B) (exchange : Network) (st : Dispatching B)
        → body_for body ≡ Rewritten.ok out
        → IsProbing base st.breakers
        → dispatch body exchange st ≡ (left_by out exchange st, err circuit_open)
    unfolding one_attempt last_one
    dispatch-refused body out exchange st written p =
        dispatch-attempt body out exchange st written
        ∙ ap (after_attempt last_one) (
            attempt_at-refused cfg base route.upstream_alias out (exchange 0 base out) st (
              IsProbing-blocks base cfg.circuit_breaker_reset (exchange 0 base out).asked
                st.breakers p))

    -- One request while the probe is out.
    dispatch-unposted :
        (body : B) (exchange : Network) (st : Dispatching B)
        → IsProbing base st.breakers
        → ((dispatch body exchange st).1 ≡ unposted (body_for body))
          × ((dispatch body exchange st).0.posted ≡ st.posted)
          × IsProbing base (dispatch body exchange st).0.breakers
    unfolding step
    dispatch-unposted body exchange st p = by_body (body_for body) refl
      where
        by_body :
            (r : Rewritten B)
            → body_for body ≡ r
            → ((dispatch body exchange st).1 ≡ unposted r)
              × ((dispatch body exchange st).0.posted ≡ st.posted)
              × IsProbing base (dispatch body exchange st).0.breakers
        by_body (Rewritten.err reason) e =
            rw (dispatch-unwritten body reason exchange st e) (refl, refl, p)
        by_body (Rewritten.ok out) e =
            let still =
              IsProbing-step base (allow base cfg.circuit_breaker_reset (exchange 0 base out).asked)
                st.breakers p tt in
            rw (dispatch-refused body out exchange st e p) (refl, refl, still)

    dispatch_all-unposted :
        (requests : List (B × Network)) (st : Dispatching B)
        → IsProbing base st.breakers
        → ((dispatch_all requests st).1 ≡ map (λ r. unposted (body_for r.0)) requests)
          × ((dispatch_all requests st).0.posted ≡ st.posted)
    unfolding dispatch_all
    dispatch_all-unposted [] st p = (refl, refl)
    dispatch_all-unposted ((body, exchange) ∷ requests) st p =
        let (outcome, posted, still) = dispatch-unposted body exchange st p in
        let (outcomes, unchanged) =
          dispatch_all-unposted requests (dispatch body exchange st).0 still in
        (ap₂ (λ o os. o ∷ os) outcome outcomes, unchanged ∙ posted)

    -- A route has no fallbacks and one upstream, whose breaker is open and due for a probe. If the
    -- upstream answers a request with a status that is no success and is not retried (such as 404),
    -- the answer is passed on. Then, in any sequence of further requests for the route, with any
    -- bodies and at any times, each handled after the one before has ended and none still under way
    -- from earlier, each is refused with the breaker open, or as a bad request where its body cannot be
    -- rewritten; and nothing is posted to the upstream any more.
    pub dispatch_chat_request-stuck :
        (body out : B)
        → body_for body ≡ Rewritten.ok out
        → (exchange : Network) (later : List (B × Network)) (st : Dispatching B) (status opened : ℕ)
        → Distinct st.breakers.states
        → (state_of st.breakers base).opened_at ≡ some opened
        → (allow_request base cfg.circuit_breaker_reset (exchange 0 base out).asked st.breakers).1
          ≡ true
        → (exchange 0 base out).sent ≡ responded status
        → is_success status ≡ false
        → should_retry_upstream_status status ≡ false
        → ((dispatch body exchange st).1 ≡ ok status route.upstream_alias)
          × ((dispatch_all later (dispatch body exchange st).0).1
              ≡ map (λ r. unposted (body_for r.0)) later)
          × ((dispatch_all later (dispatch body exchange st).0).0.posted
              ≡ st.posted ++ (base, out) ∷ [])
    unfolding one_attempt last_one
    dispatch_chat_request-stuck body out written exchange later st status opened d o ok' sent fails
          final =
        let e = exchange 0 base out in
        let probing =
          IsProbing-allow_request base opened cfg.circuit_breaker_reset e.asked st.breakers d o
            ok' in
        let after : Dispatching B = record st {
          breakers = (allow_request base cfg.circuit_breaker_reset e.asked st.breakers).0;
          posted = st.posted ++ (base, out) ∷ [];
        } in
        let answer =
          dispatch-attempt body out exchange st written
          ∙ ap (after_attempt last_one) (
              attempt_at-unrecorded cfg base route.upstream_alias out e st status ok' sent fails
                final) in
        let (outcomes, posted) = dispatch_all-unposted later after probing in
        rw answer (refl, outcomes, posted)
