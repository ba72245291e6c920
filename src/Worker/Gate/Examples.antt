-- ===== src/Worker/Gate/Examples.antt =====
-- The race that the second check closes, and the theorems at that schedule.
use rs_llmctl.Base.{ℕ, zero, suc, ◌≤◌, ◌<◌, ◌≡◌, refl, arith, List, [], ◌∷◌}
use rs_llmctl.Worker.Gate.{ready, Action, moves, closes, act, schedule}
use rs_llmctl.Worker.Gate.Drained.{opened, IsDrained, schedule-IsDrained_of_zero}
use rs_llmctl.Worker.Gate.Ends.{moved, schedule-in_flight}

-- Thread 0 passes the first check, the gate closes, and the supervisor reads zero.
abbrev before : List Action
before = moves 0 ∷ []

-- Then thread 0 goes on, and thread 1 comes.
abbrev later : List Action
later = moves 0 ∷ moves 0 ∷ moves 1 ∷ moves 0 ∷ []

schedule-IsDrained_of_zero_example :
    IsDrained (schedule (schedule (act (schedule (opened 2) before) closes) []) later)
unfolding schedule act ready
schedule-IsDrained_of_zero_example = schedule-IsDrained_of_zero 2 before [] later (omega arith) refl

-- Both threads move three times, in turns.
abbrev turns : List Action
turns = moves 1 ∷ moves 0 ∷ moves 0 ∷ moves 1 ∷ moves 1 ∷ moves 0 ∷ []

enough : (k : ℕ) → k < 2 → 3 ≤ moved k turns
enough zero h = omega arith
enough (suc zero) h = omega arith
enough (suc (suc k)) h = absurd (omega arith)

schedule-in_flight_example :
    (schedule (act (schedule (opened 2) before) closes) turns).gate.in_flight ≡ 0
schedule-in_flight_example = schedule-in_flight 2 before turns (omega arith) enough
