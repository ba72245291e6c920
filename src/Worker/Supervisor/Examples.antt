-- ===== src/Worker/Supervisor/Examples.antt =====
-- A runner that spawns every worker but "broken", and runs of the supervisor over it.
use rs_llmctl.Base.{ℕ, suc, ◌≡◌, refl, List, [], ◌∷◌, if◌then◌else◌, str_eq, some, true, false}
use rs_llmctl.Base.Map
use rs_llmctl.Worker.Supervisor.{
  WorkerRunner, PlannedWorker, ok, err, new, worker_state, start, ready, failed, stop,
  update_status, insert_admission, stop_admitting, WorkerSupervisor, is_admitting, mark_starting,
  starting, warming, to_warming,
}
use rs_llmctl.Worker.Supervisor.Gates.{
  IsGated, Operation, starts, drains, reaps, restarts, stop_alls, perform_all, perform_all-new,
  mark_starting-admits,
}
use rs_llmctl.Worker.Supervisor.Answers.{StartedAs, start-StartedAs, StoppedAs, stop-StoppedAs}

-- the runner's state is the next process id
abbrev spawning : WorkerRunner ℕ ℕ
spawning = record {
  spawn =
      λ pid planned. (suc pid, if str_eq planned.id "broken" then err "no such binary" else ok pid);
  stop = λ pid id. (pid, ok tt);
  wait_ready = λ pid planned. (pid, ok tt);
  poll_exited = λ pid. (pid, "coder" ∷ []);
}

abbrev coder : PlannedWorker ℕ
coder = record { id = "coder"; plan = 0 }

abbrev broken : PlannedWorker ℕ
broken = record { id = "broken"; plan = 0 }

coder-ready : worker_state (start spawning coder (new 100)).0 "coder" ≡ some ready
unfolding start new worker_state update_status insert_admission Map.get Map.insert
coder-ready = refl

broken-failed : worker_state (start spawning broken (new 100)).0 "broken" ≡ some failed
unfolding start new worker_state update_status stop_admitting Map.get Map.insert
broken-failed = refl

start-StartedAs_example : StartedAs false "broken" (new 100) (start spawning broken (new 100))
unfolding new
start-StartedAs_example = start-StartedAs spawning broken (new 100)

stop-StoppedAs_example : StoppedAs true "coder" (new 100) (stop spawning "coder" (new 100))
unfolding new
stop-StoppedAs_example = stop-StoppedAs spawning "coder" (new 100)

abbrev running : WorkerSupervisor ℕ
running = (start spawning coder (new 100)).0

test-started_again :
    ((worker_state (mark_starting "coder" running) "coder" ≡ some starting)
      × (is_admitting (mark_starting "coder" running) "coder" ≡ true))
    × ((worker_state
            (update_status "coder" (to_warming 7) (mark_starting "coder" running)).0
            "coder"
          ≡ some warming)
        × (is_admitting
              (update_status "coder" (to_warming 7) (mark_starting "coder" running)).0
              "coder"
            ≡ true))
unfolding start new is_admitting update_status insert_admission Map.get Map.insert
    rs_llmctl.Worker.Gate.ready
test-started_again = mark_starting-admits "coder" 7 running refl

abbrev operations : List (Operation ℕ)
operations =
    starts coder
    ∷ starts broken
    ∷ drains "coder" (2 ∷ 0 ∷ [])
    ∷ restarts coder
    ∷ reaps
    ∷ stop_alls
    ∷ []

perform_all-new_example : IsGated (perform_all spawning operations (new 100))
perform_all-new_example = perform_all-new spawning operations 100
