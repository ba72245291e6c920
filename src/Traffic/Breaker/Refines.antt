-- ===== src/Traffic/Breaker/Refines.antt =====
-- The calls of `CircuitBreakers` against one small machine for each upstream: the map, its pruning
-- and the fields of an entry are not seen by a client.
use rs_llmctl.Base.{
  ℕ, ◌-◌, ◌≡◌, refl, ap, ap₂, ◌∙◌, String, Bool, true, false, ◌&&◌, Option, none, some, List, [],
  ◌∷◌, if◌then◌else◌, arith, str_eq, ltb, leb, saturating_add, u32_max, fun_ext,
}
use rs_llmctl.Base.Map.{Distinct}
use rs_llmctl.Traffic.Breaker.{
  CircuitBreakerState, CircuitBreakers, fresh, allow_request, record_success, failed,
  record_failure,
}
use rs_llmctl.Traffic.Breaker.Lookup.{
  state_of, allows, probed, allow_request-answer, state_of-allow_request, state_of-record_success,
  state_of-record_failure, Distinct-allow_request, Distinct-record_success, Distinct-record_failure,
}

-- `opened n t`: opened at `t` after `n` failures. `half_open n t`: and one probe is under way.
pub data Machine : Type 0 where
  closed : ℕ → Machine
  opened half_open : ℕ → ℕ → Machine

abbrev pub machine : CircuitBreakerState → Machine
machine s = elim s.opened_at [
  | none ↦ closed s.consecutive_failures
  | some t ↦
      if s.half_open_probe_in_flight
      then half_open s.consecutive_failures t
      else opened s.consecutive_failures t
]

-- One more failure trips the breaker at the threshold; a threshold of zero never trips it.
abbrev trip : ℕ → ℕ → ℕ → Machine → Machine
trip threshold now n otherwise =
    if ltb 0 threshold && leb threshold n then opened n now else otherwise

abbrev plus_one : ℕ → ℕ
plus_one n = saturating_add u32_max n 1

abbrev pub fail : ℕ → ℕ → Machine → Machine
fail threshold now (closed n) = trip threshold now (plus_one n) (closed (plus_one n))
fail threshold now (opened n t) = trip threshold now (plus_one n) (opened (plus_one n) t)
fail threshold now (half_open n t) = trip threshold now (plus_one n) (opened (plus_one n) t)

abbrev pub ask : ℕ → ℕ → Machine → Machine × Bool
ask reset_after now (closed n) = (closed n, true)
ask reset_after now (opened n t) =
    if leb reset_after (now - t) then (half_open n t, true) else (opened n t, false)
ask reset_after now (half_open n t) = (half_open n t, false)

pub data Call : Type 0 where
  allow : String → ℕ → ℕ → Call
  success : String → Call
  failure : String → ℕ → ℕ → Call

-- A call, and the answer of `allow_request`.
unfoldable pub step : Call → CircuitBreakers → CircuitBreakers × Option Bool
step (allow u reset_after now) b = let (b', ok) = allow_request u reset_after now b in (b', some ok)
step (success u) b = (record_success u b, none)
step (failure u threshold now) b = (record_failure u threshold now b, none)

unfoldable pub answers : List Call → CircuitBreakers → List (Option Bool)
answers [] b = []
answers (c ∷ cs) b = let (b', a) = step c b in a ∷ answers cs b'

abbrev pub Machines : Type 0
Machines = String → Machine

abbrev update : Machines → String → Machine → Machines
update m u x j = if str_eq u j then x else m j

pub spec_step : Call → Machines → Machines × Option Bool
spec_step (allow u reset_after now) m =
    (update m u (ask reset_after now (m u)).0, some (ask reset_after now (m u)).1)
spec_step (success u) m = (update m u (closed 0), none)
spec_step (failure u threshold now) m = (update m u (fail threshold now (m u)), none)

pub spec_answers : List Call → Machines → List (Option Bool)
spec_answers [] m = []
spec_answers (c ∷ cs) m = let (m', a) = spec_step c m in a ∷ spec_answers cs m'

abbrev pub machines : CircuitBreakers → Machines
machines b u = machine (state_of b u)

machine-failed :
    (threshold now : ℕ) (s : CircuitBreakerState)
    → machine (failed threshold now s) ≡ fail threshold now (machine s)
machine-failed threshold now s = ground arith

machine-probed :
    (reset_after now : ℕ) (s : CircuitBreakerState)
    → machine (probed reset_after now s) ≡ (ask reset_after now (machine s)).0
machine-probed reset_after now s = ground arith

allows-ask :
    (reset_after now : ℕ) (s : CircuitBreakerState)
    → allows reset_after now s ≡ (ask reset_after now (machine s)).1
allows-ask reset_after now s = ground arith

machine-if :
    (c : Bool) (s t : CircuitBreakerState)
    → machine (if c then s else t) ≡ (if c then machine s else machine t)
machine-if true s t = refl
machine-if false s t = refl

pub machines-step :
    (c : Call) (b : CircuitBreakers)
    → Distinct b.states
    → machines (step c b).0 ≡ (spec_step c (machines b)).0
unfolding step spec_step
machines-step (allow u reset_after now) b d = fun_ext λ j.
    ap machine (state_of-allow_request u j reset_after now b)
    ∙ machine-if (str_eq u j) (probed reset_after now (state_of b u)) (state_of b j)
    ∙ rw (machine-probed reset_after now (state_of b u)) refl
machines-step (success u) b d =
    fun_ext λ j.
      ap machine (state_of-record_success u j b d) ∙ machine-if (str_eq u j) fresh (state_of b j)
machines-step (failure u threshold now) b d = fun_ext λ j.
    ap machine (state_of-record_failure u j threshold now b d)
    ∙ machine-if (str_eq u j) (failed threshold now (state_of b u)) (state_of b j)
    ∙ rw (machine-failed threshold now (state_of b u)) refl

step-answer : (c : Call) (b : CircuitBreakers) → (step c b).1 ≡ (spec_step c (machines b)).1
unfolding step spec_step
step-answer (allow u reset_after now) b =
    ap some (allow_request-answer u reset_after now b ∙ allows-ask reset_after now (state_of b u))
step-answer (success u) b = refl
step-answer (failure u threshold now) b = refl

pub Distinct-step :
    (c : Call) (b : CircuitBreakers) → Distinct b.states → Distinct (step c b).0.states
unfolding step
Distinct-step (allow u reset_after now) b d = Distinct-allow_request u reset_after now b d
Distinct-step (success u) b d = Distinct-record_success u b d
Distinct-step (failure u threshold now) b d = Distinct-record_failure u threshold now b d

-- Whatever the calls, from a map whose keys are distinct: the breakers answer as independent
-- machines do, one for each upstream, that start from what the map holds (an upstream that the
-- map does not hold starts closed with no failures). Pruning changes no answer.
pub answers-spec_answers :
    (cs : List Call) (b : CircuitBreakers)
    → Distinct b.states
    → answers cs b ≡ spec_answers cs (machines b)
unfolding answers spec_answers
answers-spec_answers [] b d = refl
answers-spec_answers (c ∷ cs) b d = ap₂ ◌∷◌ (step-answer c b) (
    answers-spec_answers cs (step c b).0 (Distinct-step c b d)
    ∙ ap (spec_answers cs) (machines-step c b d))
