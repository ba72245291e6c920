-- ===== src/Server/Dispatch/Examples.antt =====
-- src/server/chat_dispatch.rs: tests, and the theorems at two upstreams. A body is its value.
use rs_llmctl.Base.{none, ℕ, String, false, some, List, [], ◌∷◌, ◌≡◌, refl, if◌then◌else◌, str_eq}
use rs_llmctl.Base.Json.{text, Json, text, object, field, no_fields}
use rs_llmctl.Base.Map.{get, insert}
use rs_llmctl.Traffic.Breaker.{CircuitBreakers, allow_request, record_failure}
use rs_llmctl.Server.Routing.{ResolvedModelRoute}
use rs_llmctl.Server.Bodies.{rewrite_chat_model}
use rs_llmctl.Server.Dispatch.{
  Exchange, responded, failed, DispatchConfig, Dispatching, ok, err, circuit_open,
  dispatch_chat_request, dispatch_each, attempt, attempt_at, send_if, after_send,
  upstream_for_alias,
}
use rs_llmctl.Server.Dispatch.Runs.{RanFrom, dispatch_chat_request-Runs}
use rs_llmctl.Server.Dispatch.Stuck.{Network, dispatch, dispatch_all, dispatch_chat_request-stuck}

abbrev cfg : DispatchConfig
cfg = record {
  upstreams = ("m", "http://a") ∷ ("n", "http://b") ∷ [];
  circuit_breaker_reset = 1000;
  circuit_breaker_failures = 3;
}

abbrev route : List String → ResolvedModelRoute
route fallbacks = record {
  requested_alias = "m";
  upstream_alias = "m";
  fallback_aliases = fallbacks;
}

abbrev body : Json
body = object (field "model" (text "m") no_fields)

-- the first upstream cannot be reached, and the others answer with a status
abbrev network : ℕ → ℕ → String → Json → Exchange
network status n base out = record {
  asked = 5000;
  recorded = 5010;
  sent = if str_eq base "http://b" then responded status else failed false;
}

abbrev answers : ℕ → ℕ → String → Json → Exchange
answers status n base out = record { asked = 5000; recorded = 5010; sent = responded status }

abbrev starting : CircuitBreakers → Dispatching Json
starting breakers = record { breakers = breakers; posted = []; usage = [] }

abbrev no_breakers : CircuitBreakers
no_breakers = record { states = []; emitted = [] }

test-fallback :
    (dispatch_chat_request some
      (λ v. v)
      cfg
      (route ("n" ∷ []))
      body
      (network 200)
      (starting no_breakers)).1
    ≡ ok 200 "n"
unfolding dispatch_chat_request dispatch_each attempt attempt_at send_if after_send
    upstream_for_alias rewrite_chat_model get allow_request record_failure insert
test-fallback = refl

dispatch_chat_request-Runs_example :
    RanFrom some
      (λ v. v)
      cfg
      (route ("n" ∷ []))
      body
      (network 503)
      0
      none
      ("m" ∷ "n" ∷ [])
      (starting no_breakers)
      (dispatch_chat_request some
        (λ v. v)
        cfg
        (route ("n" ∷ []))
        body
        (network 503)
        (starting no_breakers))
dispatch_chat_request-Runs_example =
    dispatch_chat_request-Runs some (λ v. v) cfg (route ("n" ∷ [])) body (network 503)
      (starting no_breakers)

-- open since 1000
abbrev opened : CircuitBreakers
opened = record {
  states =
      (
        "http://a",
        record {
          consecutive_failures = 3;
          opened_at = some 1000;
          half_open_probe_in_flight = false;
        },
      )
      ∷ [];
  emitted = [];
}

abbrev later : List (Json × Network some (λ v. v) cfg (route []))
later = (body, answers 200) ∷ (text "hello", answers 200) ∷ []

dispatch_chat_request-stuck_example :
    ((dispatch some (λ v. v) cfg (route []) body (answers 404) (starting opened)).1 ≡ ok 404 "m")
    × ((dispatch_all some
          (λ v. v)
          cfg
          (route [])
          later
          (dispatch some (λ v. v) cfg (route []) body (answers 404) (starting opened)).0).1
        ≡ err circuit_open ∷ err circuit_open ∷ [])
    × ((dispatch_all some
          (λ v. v)
          cfg
          (route [])
          later
          (dispatch some (λ v. v) cfg (route []) body (answers 404) (starting opened)).0).0.posted
        ≡ ("http://a", body) ∷ [])
unfolding upstream_for_alias rewrite_chat_model get allow_request
dispatch_chat_request-stuck_example =
    dispatch_chat_request-stuck some (λ v. v) cfg (route []) "http://a" refl refl body body refl
      (answers 404) later (starting opened) 404 1000 (refl, tt) refl refl refl refl refl
