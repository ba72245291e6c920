-- ===== src/Traffic/Breaker/Lookup.antt =====
-- What each upstream reads after each call of `CircuitBreakers`; pruning is not seen.
use rs_llmctl.Base.{
  ℕ, ◌≡◌, refl, ap, ◌∙◌, String, Bool, true, false, Option, none, some, if◌then◌else◌, arith,
  eq_iff, str_eq, leb, ◌-◌,
}
use rs_llmctl.Base.Map.{Map, get, Distinct}
use rs_llmctl.Base.Map.Laws.{get-insert, get-retain, kept, Distinct-insert, Distinct-retain}
use rs_llmctl.Traffic.Breaker.{
  CircuitBreakerState, CircuitBreakers, fresh, carries_state, prune_idle_circuit_breakers, or_fresh,
  allow_request, record_success, failed, record_failure, record_circuit_breaker_state,
}

-- The state that the next call for an upstream starts from.
abbrev pub state_of : CircuitBreakers → String → CircuitBreakerState
state_of b u = or_fresh (get u b.states)

or_fresh-kept : (o : Option CircuitBreakerState) → or_fresh (kept carries_state o) ≡ or_fresh o
or_fresh-kept none = refl
or_fresh-kept (some s) = ground arith

or_fresh-if :
    (c : Bool) (s : CircuitBreakerState) (o : Option CircuitBreakerState)
    → or_fresh (if c then some s else o) ≡ (if c then s else or_fresh o)
or_fresh-if true s o = refl
or_fresh-if false s o = refl

pub get-prune :
    (j : String) (m : Map CircuitBreakerState)
    → Distinct m
    → or_fresh (get j (prune_idle_circuit_breakers m)) ≡ or_fresh (get j m)
unfolding prune_idle_circuit_breakers
get-prune j m d = ground (arith, get-retain carries_state j m d, or_fresh-kept (get j m))

pub Distinct-prune :
    (m : Map CircuitBreakerState) → Distinct m → Distinct (prune_idle_circuit_breakers m)
unfolding prune_idle_circuit_breakers
Distinct-prune m d = ground (arith, Distinct-retain carries_state m d)

pub state_of-record_success :
    (u j : String) (b : CircuitBreakers)
    → Distinct b.states
    → state_of (record_success u b) j ≡ (if str_eq u j then fresh else state_of b j)
unfolding record_success record_circuit_breaker_state
state_of-record_success u j b d =
    ground
      (arith, get-prune j b.states d, get-insert u j fresh (prune_idle_circuit_breakers b.states))

pub state_of-record_failure :
    (u j : String) (threshold now : ℕ) (b : CircuitBreakers)
    → Distinct b.states
    → state_of (record_failure u threshold now b) j
      ≡ (if str_eq u j then failed threshold now (state_of b u) else state_of b j)
unfolding record_failure record_circuit_breaker_state
state_of-record_failure u j threshold now b d =
    let m = prune_idle_circuit_breakers b.states in
    let old = or_fresh (get u m) in
    ap or_fresh (get-insert u j (failed threshold now old) m)
    ∙ or_fresh-if (str_eq u j) (failed threshold now old) (get j m)
    ∙ rw (get-prune u b.states d, get-prune j b.states d) refl

-- What `allow_request` answers, and the state that it leaves.
abbrev pub allows : ℕ → ℕ → CircuitBreakerState → Bool
allows reset_after now s = elim s.opened_at [
  | none ↦ true
  | some t ↦
      if leb reset_after (now - t)
      then (if s.half_open_probe_in_flight then false else true)
      else false
]

abbrev pub probed : ℕ → ℕ → CircuitBreakerState → CircuitBreakerState
probed reset_after now s = elim s.opened_at [
  | none ↦ s
  | some t ↦ if leb reset_after (now - t) then record s { half_open_probe_in_flight = true } else s
]

pub allow_request-answer :
    (u : String) (reset_after now : ℕ) (b : CircuitBreakers)
    → (allow_request u reset_after now b).1 ≡ allows reset_after now (state_of b u)
unfolding allow_request
allow_request-answer u reset_after now b = ground arith

pub state_of-allow_request :
    (u j : String) (reset_after now : ℕ) (b : CircuitBreakers)
    → state_of (allow_request u reset_after now b).0 j
      ≡ (if str_eq u j then probed reset_after now (state_of b u) else state_of b j)
unfolding allow_request
state_of-allow_request u j reset_after now b = ground (
  arith,
  eq_iff u j,
  get-insert u j (record (state_of b u) { half_open_probe_in_flight = true }) b.states,
)

pub Distinct-allow_request :
    (u : String) (reset_after now : ℕ) (b : CircuitBreakers)
    → Distinct b.states
    → Distinct (allow_request u reset_after now b).0.states
unfolding allow_request
Distinct-allow_request u reset_after now b d = ground (
  arith,
  Distinct-insert u (record (state_of b u) { half_open_probe_in_flight = true }) b.states d,
)

pub Distinct-record_success :
    (u : String) (b : CircuitBreakers) → Distinct b.states → Distinct (record_success u b).states
unfolding record_success
Distinct-record_success u b d =
    Distinct-insert u fresh (prune_idle_circuit_breakers b.states) (Distinct-prune b.states d)

pub Distinct-record_failure :
    (u : String) (threshold now : ℕ) (b : CircuitBreakers)
    → Distinct b.states
    → Distinct (record_failure u threshold now b).states
unfolding record_failure
Distinct-record_failure u threshold now b d =
    Distinct-insert u _ (prune_idle_circuit_breakers b.states) (Distinct-prune b.states d)
