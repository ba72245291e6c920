-- ===== src/Traffic/Breaker.antt =====
-- src/server/traffic.rs: `CircuitBreakers`, the failure state that is kept for each upstream.
-- A call takes the lock for its whole body, so it is one step on the map. `Instant::now()` is the
-- argument `now` (milliseconds); `elapsed()` saturates at zero, as `-` does. The gauge that
-- `record_circuit_breaker_state` sets is the list `emitted`, the latest first.
pub mod Lookup
pub mod Refines
pub mod Opens
mod Examples
use rs_llmctl.Base.{
  ℕ, zero, suc, ◌+◌, ◌-◌, ◌≤◌, ◌<◌, ◌≡◌, String, Bool, true, false, ◌&&◌, ◌||◌, Option, none, some,
  List, [], ◌∷◌, if◌then◌else◌, ltb, leb, saturating_add, u32_max,
}
use rs_llmctl.Base.Map.{Map, get, insert, retain, size}

pub record CircuitBreakerState : Type 0 where
  pub consecutive_failures : ℕ
  pub opened_at : Option ℕ
  pub half_open_probe_in_flight : Bool

-- the states that the gauge names
pub data Gauge : Type 0 where
  closed open_state half_open half_open_busy : Gauge

pub record CircuitBreakers : Type 0 where
  pub states : Map CircuitBreakerState
  pub emitted : List (String × Gauge × ℕ)

abbrev pub circuit_breaker_max_tracked : ℕ
circuit_breaker_max_tracked = 4096

-- the entry that `or_insert` puts in
abbrev pub fresh : CircuitBreakerState
fresh = record { consecutive_failures = 0; opened_at = none; half_open_probe_in_flight = false }

record_circuit_breaker_state : String → Gauge → ℕ → CircuitBreakers → CircuitBreakers
record_circuit_breaker_state upstream gauge failures b = record b {
  emitted = (upstream, gauge, failures) ∷ b.emitted;
}

abbrev pub is_some {ℓ} : {A : Type ℓ} → Option A → Bool
is_some none = false
is_some (some a) = true

abbrev pub carries_state : CircuitBreakerState → Bool
carries_state s = is_some s.opened_at || ltb 0 s.consecutive_failures || s.half_open_probe_in_flight

pub prune_idle_circuit_breakers : Map CircuitBreakerState → Map CircuitBreakerState
prune_idle_circuit_breakers states =
    if ltb (size states) circuit_breaker_max_tracked then states else retain carries_state states

-- `states.entry(upstream).or_insert(fresh)`, read
abbrev pub or_fresh : Option CircuitBreakerState → CircuitBreakerState
or_fresh none = fresh
or_fresh (some s) = s

-- The lines under the two early returns: the breaker was opened at `opened_at`.
allow_opened : String → ℕ → ℕ → ℕ → CircuitBreakerState → CircuitBreakers → CircuitBreakers × Bool
unfolding record_circuit_breaker_state
allow_opened upstream reset_after now opened_at state b =
    if leb reset_after (now - opened_at)
    then (if state.half_open_probe_in_flight
        then (
          record_circuit_breaker_state upstream half_open_busy state.consecutive_failures b,
          false,
        )
        else (
          record_circuit_breaker_state upstream half_open state.consecutive_failures (record b {
            states = insert upstream (record state { half_open_probe_in_flight = true }) b.states;
          }),
          true,
        ))
    else (record_circuit_breaker_state upstream open_state state.consecutive_failures b, false)

unfoldable pub allow_request : String → ℕ → ℕ → CircuitBreakers → CircuitBreakers × Bool
unfolding allow_opened
allow_request upstream reset_after now b = elim (get upstream b.states) [
  | none ↦ (b, true)
  | some state ↦ elim state.opened_at [
    | none ↦ (b, true)
    | some opened_at ↦ allow_opened upstream reset_after now opened_at state b
  ]
]

pub record_success : String → CircuitBreakers → CircuitBreakers
unfolding prune_idle_circuit_breakers record_circuit_breaker_state
record_success upstream b =
    let states = prune_idle_circuit_breakers b.states in
    record_circuit_breaker_state upstream closed 0
      (record b { states = insert upstream fresh states })

-- the entry after a failure
abbrev pub failed : ℕ → ℕ → CircuitBreakerState → CircuitBreakerState
failed threshold now s =
    let failures = saturating_add u32_max s.consecutive_failures 1 in
    record {
      consecutive_failures = failures;
      opened_at = if ltb 0 threshold && leb threshold failures then some now else s.opened_at;
      half_open_probe_in_flight = false;
    }

unfoldable pub record_failure : String → ℕ → ℕ → CircuitBreakers → CircuitBreakers
unfolding prune_idle_circuit_breakers record_circuit_breaker_state
record_failure upstream threshold now b =
    let states = prune_idle_circuit_breakers b.states in
    let state = failed threshold now (or_fresh (get upstream states)) in
    record_circuit_breaker_state upstream
      (if ltb 0 threshold && leb threshold state.consecutive_failures then open_state else closed)
      state.consecutive_failures (record b { states = insert upstream state states })
