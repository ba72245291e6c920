-- ===== src/Server/Dispatch.antt =====
-- src/server/chat_dispatch.rs: a chat request is sent to the upstream of its route, and then to the
-- fallbacks. The network is the parameter `exchange`, which says for the n-th attempt when the
-- breaker is asked and told, and what comes back. The external provider of a route is always absent,
-- as src/server/routing.rs leaves it. Delays and the trace context are left out.
pub mod Runs
pub mod Stuck
mod Examples
use rs_llmctl.Base.{
  ℕ, zero, suc, String, Bool, true, false, ◌&&◌, ◌||◌, Option, none, some, List, [], ◌∷◌, ◌++◌,
  if◌then◌else◌, ltb, leb, ◌==◌,
}
use rs_llmctl.Base.Json.{Json}
use rs_llmctl.Base.Map.{Map, get}
use rs_llmctl.Traffic.Breaker.{CircuitBreakers, allow_request, record_failure, record_success}
use rs_llmctl.Server.Routing.{ResolvedModelRoute}
use rs_llmctl.Server.Bodies.{Rewritten, rewrite_chat_model}

-- What comes back from an upstream: a status, an error that may be a timeout of its own, or nothing
-- in time.
pub data Sent : Type 0 where
  responded : ℕ → Sent
  failed : Bool → Sent
  timed_out : Sent

pub record Exchange : Type 0 where
  pub asked : ℕ
  pub recorded : ℕ
  pub sent : Sent

pub record RequestFailure : Type 0 where
  pub status : ℕ
  pub code : String
  pub message : String
  pub usage_status : String

-- The message of `no_upstream` is "no upstream configured for model" and the alias.
pub data DispatchFailure : Type 0 where
  no_upstream bad_request : String → DispatchFailure
  request : RequestFailure → DispatchFailure

-- The response is its status, with the alias that gave it.
pub data Dispatched : Type 0 where
  ok : ℕ → String → Dispatched
  err : DispatchFailure → Dispatched

pub record DispatchConfig : Type 0 where
  pub upstreams : Map String
  pub circuit_breaker_reset : ℕ
  pub circuit_breaker_failures : ℕ

-- The requests that were posted, and the failures that were written as usage, the latest last.
pub record Dispatching (B : Type 0) : Type 0 where
  pub breakers : CircuitBreakers
  pub posted : List (String × B)
  pub usage : List String

abbrev pub circuit_open : DispatchFailure
circuit_open = request (record {
  status = 502;
  code = "upstream_circuit_open";
  message = "upstream circuit breaker is open";
  usage_status = "upstream_circuit_open";
})

abbrev pub upstream_error : DispatchFailure
upstream_error = request (record {
  status = 502;
  code = "upstream_error";
  message = "upstream request failed";
  usage_status = "upstream_error";
})

abbrev pub upstream_timeout : DispatchFailure
upstream_timeout = request (record {
  status = 504;
  code = "timeout";
  message = "upstream request timed out";
  usage_status = "timeout";
})

-- `upstream_request_error`, and the status that is written as usage
abbrev pub upstream_request_error : Bool → DispatchFailure
upstream_request_error is_timeout = if is_timeout then upstream_timeout else upstream_error

abbrev pub failure_usage : Bool → String
failure_usage is_timeout = if is_timeout then "timeout" else "upstream_error"

abbrev pub should_retry_upstream_status : ℕ → Bool
should_retry_upstream_status status = (leb 500 status && ltb status 600) || status == 429

abbrev pub is_success : ℕ → Bool
is_success status = leb 200 status && ltb status 300

abbrev pub or_default : Option String → Option String → Option String
or_default (some base) other = some base
or_default none other = other

unfoldable pub upstream_for_alias : Map String → String → Option String
upstream_for_alias upstreams alias = or_default (get alias upstreams) (get "*" upstreams)

-- how one attempt ends
pub data Step : Type 0 where
  answered : ℕ → String → Step
  gives_up goes_on : DispatchFailure → Step

abbrev pub with_upstream : ResolvedModelRoute → String → ResolvedModelRoute
with_upstream route alias = record {
  requested_alias = route.requested_alias;
  upstream_alias = alias;
  fallback_aliases = [];
}

abbrev pub or_no_upstream : String → Option DispatchFailure → DispatchFailure
or_no_upstream upstream_alias (some failure) = failure
or_no_upstream upstream_alias none = no_upstream upstream_alias

abbrev pub after_attempt :
    {B : Type 0}
    → (Option DispatchFailure → Dispatching B → Dispatching B × Dispatched)
    → Dispatching B × Step
    → Dispatching B × Dispatched
after_attempt next (st, answered status alias) = (st, ok status alias)
after_attempt next (st, gives_up failure) = (st, err failure)
after_attempt next (st, goes_on failure) = next (some failure) st

module _ {B : Type 0} (cfg : DispatchConfig) where
  abbrev pub told_failure : String → ℕ → Dispatching B → Dispatching B
  told_failure base at st = record st {
    breakers = record_failure base cfg.circuit_breaker_failures at st.breakers;
  }

  abbrev pub record_upstream_failure : String → Dispatching B → Dispatching B
  record_upstream_failure status st = record st { usage = st.usage ++ status ∷ [] }

  -- the `match` on what came back
  unfoldable pub after_send : String → String → ℕ → Sent → Dispatching B → Dispatching B × Step
  after_send base alias at (responded status) st =
      if should_retry_upstream_status status
      then (told_failure base at st, goes_on upstream_error)
      else (
        if is_success status then record st { breakers = record_success base st.breakers } else st,
        answered status alias,
      )
  after_send base alias at (failed is_timeout) st = (
    record_upstream_failure (failure_usage is_timeout) (told_failure base at st),
    goes_on (upstream_request_error is_timeout),
  )
  after_send base alias at timed_out st =
      (record_upstream_failure "timeout" (told_failure base at st), goes_on upstream_timeout)

  -- the breaker's answer, and the request
  unfoldable pub send_if :
      Bool → String → String → B → Exchange → Dispatching B → Dispatching B × Step
  send_if false base alias body e st = (st, goes_on circuit_open)
  send_if true base alias body e st =
      after_send base alias e.recorded e.sent
        (record st { posted = st.posted ++ (base, body) ∷ [] })

  unfoldable pub attempt_at : String → String → B → Exchange → Dispatching B → Dispatching B × Step
  attempt_at base alias body e st =
      let (b, allowed) = allow_request base cfg.circuit_breaker_reset e.asked st.breakers in
      send_if allowed base alias body e (record st { breakers = b })

module _ {B : Type 0} (from_slice : B → Option Json) (to_vec : Json → B) (cfg : DispatchConfig)
    (route : ResolvedModelRoute) (original_body : B) where
  abbrev pub attempt_target :
      String → B → (String → B → Exchange) → Option String → Dispatching B → Dispatching B × Step
  attempt_target alias body exchange none st = (st, gives_up (no_upstream alias))
  attempt_target alias body exchange (some base) st =
      attempt_at cfg base alias body (exchange base body) st

  abbrev pub attempt_body :
      String → (String → B → Exchange) → Rewritten B → Dispatching B → Dispatching B × Step
  attempt_body alias exchange (Rewritten.err reason) st = (st, gives_up (bad_request reason))
  attempt_body alias exchange (Rewritten.ok body) st =
      attempt_target alias body exchange (upstream_for_alias cfg.upstreams alias) st

  -- one round of the loop
  unfoldable pub attempt : String → (String → B → Exchange) → Dispatching B → Dispatching B × Step
  attempt alias exchange st =
      attempt_body alias exchange
        (rewrite_chat_model from_slice to_vec original_body (with_upstream route alias)) st

  unfoldable pub dispatch_each :
      List String
      → (ℕ → String → B → Exchange)
      → ℕ
      → Option DispatchFailure
      → Dispatching B
      → Dispatching B × Dispatched
  dispatch_each [] exchange n last_failure st =
      (st, err (or_no_upstream route.upstream_alias last_failure))
  dispatch_each (alias ∷ aliases) exchange n last_failure st =
      after_attempt (dispatch_each aliases exchange (suc n)) (attempt alias (exchange n) st)

  unfoldable pub dispatch_chat_request :
      (ℕ → String → B → Exchange) → Dispatching B → Dispatching B × Dispatched
  dispatch_chat_request exchange st =
      dispatch_each (route.upstream_alias ∷ route.fallback_aliases) exchange 0 none st
