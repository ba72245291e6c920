-- ===== src/Worker/Swap/Examples.antt =====
-- Swaps over a runner that spawns every worker but "broken".
use rs_llmctl.Base.{arith, ℕ, suc, ◌≡◌, refl, [], ◌∷◌, if◌then◌else◌, str_eq, some, true}
use rs_llmctl.Base.Map
use rs_llmctl.Worker.Supervisor.{
  WorkerRunner, PlannedWorker, ok, err, WorkerSupervisor, new, start, drain, stop, update_status,
  stop_admitting, insert_admission,
}
use rs_llmctl.Worker.Swap.{
  hot, SwapBudget, execute_cold_swap, execute_hot_swap, execute_swap_with_budget,
}
use rs_llmctl.Worker.Swap.Ends.{ColdEnd, HotEnd, execute_cold_swap-ColdEnd, execute_hot_swap-HotEnd}
use rs_llmctl.Worker.Swap.Plans.{Decided, execute_swap_with_budget-Decided}

abbrev spawning : WorkerRunner ℕ ℕ
spawning = record {
  spawn =
      λ pid planned. (suc pid, if str_eq planned.id "broken" then err "no such binary" else ok pid);
  stop = λ pid id. (pid, ok tt);
  wait_ready = λ pid planned. (pid, ok tt);
  poll_exited = λ pid. (pid, []);
}

abbrev next : PlannedWorker ℕ
next = record { id = "next"; plan = 0 }

abbrev broken : PlannedWorker ℕ
broken = record { id = "broken"; plan = 0 }

-- one worker is ready
abbrev serving : WorkerSupervisor ℕ
serving = (start spawning (record { id = "old"; plan = 0 }) (new 100)).0

abbrev small : SwapBudget
small = record { active_bytes = 6; replacement_bytes = 7; budget_bytes = 10 }

execute_cold_swap-ColdEnd_example :
    ColdEnd "old" "next" serving (execute_cold_swap spawning "old" next (1 ∷ 0 ∷ []) serving)
execute_cold_swap-ColdEnd_example =
    execute_cold_swap-ColdEnd spawning "old" next (1 ∷ 0 ∷ []) serving refl

execute_hot_swap-HotEnd_example :
    HotEnd "old" "broken" serving (execute_hot_swap spawning "old" broken [] serving)
execute_hot_swap-HotEnd_example = execute_hot_swap-HotEnd spawning "old" broken [] serving refl

swapped :
    (execute_swap_with_budget spawning hot (some small) "old" next [] serving).1.success ≡ true
unfolding execute_swap_with_budget execute_cold_swap start drain stop new update_status
    stop_admitting insert_admission Map.get Map.insert
swapped = refl

execute_swap_with_budget-Decided_example :
    Decided hot small "old" "next"
      (execute_swap_with_budget spawning hot (some small) "old" next [] serving)
execute_swap_with_budget-Decided_example =
    execute_swap_with_budget-Decided spawning hot small "old" next [] serving (omega arith) refl
