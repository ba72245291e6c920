-- ===== src/Traffic/Breaker/Examples.antt =====
-- Runs of the circuit breakers, and their theorems at concrete calls.
use rs_llmctl.Base.{◌≡◌, refl, arith, true, false, none, some, List, [], ◌∷◌}
use rs_llmctl.Base.Map
use rs_llmctl.Traffic.Breaker.{CircuitBreakers, allow_request, record_success, record_failure}
use rs_llmctl.Traffic.Breaker.Refines.{
  Call, allow, success, failure, step, answers, spec_answers, machines, answers-spec_answers,
}
use rs_llmctl.Traffic.Breaker.Opens.{fail_all, allow_request-fail_all, run, allow_request-one_probe}

abbrev none_yet : CircuitBreakers
none_yet = record { states = []; emitted = [] }

-- Two failures at a threshold of two open the breaker for 30 seconds; then one probe passes.
abbrev script : List Call
script =
    failure "a" 2 100
    ∷ allow "a" 30000 200
    ∷ failure "a" 2 300
    ∷ allow "a" 30000 400
    ∷ allow "b" 30000 400
    ∷ allow "a" 30000 30300
    ∷ allow "a" 30000 90000
    ∷ success "a"
    ∷ allow "a" 30000 90001
    ∷ []

script-answers :
    answers script none_yet
    ≡ none
      ∷ some true
      ∷ none
      ∷ some false
      ∷ some true
      ∷ some true
      ∷ some false
      ∷ none
      ∷ some true
      ∷ []
unfolding answers step allow_request record_success record_failure Map.get Map.insert
script-answers = refl

answers-spec_answers_example : answers script none_yet ≡ spec_answers script (machines none_yet)
answers-spec_answers_example = answers-spec_answers script none_yet tt

allow_request-fail_all_example :
    (allow_request "a" 30000 1000 (record_failure "a" 2 300 (fail_all "a" 2 (100 ∷ []) none_yet))).1
    ≡ false
allow_request-fail_all_example =
    allow_request-fail_all "a" 2 30000 1000 300 (100 ∷ []) none_yet tt (omega arith) (omega arith)
      (omega arith) (omega arith)

abbrev opened : CircuitBreakers
opened = record {
  states =
      (
        "a",
        record {
          consecutive_failures = 2;
          opened_at = some 300;
          half_open_probe_in_flight = false;
        },
      )
      ∷ [];
  emitted = [];
}

abbrev others : List Call
others = success "b" ∷ allow "a" 30000 50000 ∷ []

allow_request-one_probe_example :
    (allow_request "a" 30000 90000 (run others (allow_request "a" 30000 30300 opened).0)).1 ≡ false
unfolding allow_request Map.get
allow_request-one_probe_example =
    allow_request-one_probe "a" 300 30000 30300 30000 90000 others opened (refl, tt) refl refl
      (refl, (tt, tt))
