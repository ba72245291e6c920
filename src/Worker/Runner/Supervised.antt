-- ===== src/Worker/Runner/Supervised.antt =====
-- The supervisor over the runner that spawns processes.
use rs_llmctl.Base.{
  String, ◌≡◌, ◌∙◌, sym, refl, inl, inr, true, false, Option-cases, Bool, if◌then◌else◌,
}
use rs_llmctl.Base.Map.{get}
use rs_llmctl.Worker.Launch as Launch
use rs_llmctl.Worker.Launch.{is_in_process}
use rs_llmctl.Worker.Supervisor.{
  PlannedWorker, WorkerSupervisor, WorkerStatus, ready, stop_admitting, mark_starting, failed,
  start, start_spawned, update_status,
}
use rs_llmctl.Worker.Supervisor.Outcomes.{Started, Changed}
use rs_llmctl.Worker.Supervisor.Answers.{start-Started}
use rs_llmctl.Worker.Runner.{Processes, TokioWorkerRunner, spawn, tokio_runner}

module _ {O C : Type 0} (p : Processes O C) where
  start-failed :
      (s : WorkerSupervisor (TokioWorkerRunner O C)) (planned : PlannedWorker Launch.PlannedWorker)
      → is_in_process planned.plan.launch ≡ true
      → (start (tokio_runner p) planned s).1.state ≡ failed
  unfolding start start_spawned tokio_runner spawn update_status
  start-failed s planned e = rw e refl

  runner-if :
      (c : Bool) (a b : WorkerSupervisor (TokioWorkerRunner O C)) (r : TokioWorkerRunner O C)
      → a.runner ≡ r
      → b.runner ≡ r
      → (if c then a else b).runner ≡ r
  runner-if true a b r h k = h
  runner-if false a b r h k = k

  update_status-runner :
      (id : String) (update : WorkerStatus → WorkerStatus)
      (s : WorkerSupervisor (TokioWorkerRunner O C))
      → (update_status id update s).0.runner ≡ s.runner
  unfolding update_status
  update_status-runner id update s = runner-if _ _ _ s.runner refl refl

  stop_admitting-runner :
      (id : String) (s : WorkerSupervisor (TokioWorkerRunner O C))
      → (stop_admitting id s).runner ≡ s.runner
  unfolding stop_admitting
  stop_admitting-runner id s = elim (Option-cases (get id s.admissions)) [
    | inl e ↦ rw (e, stop_admitting) refl
    | inr (g, e) ↦ rw (e, stop_admitting) refl
  ]

  start-runner :
      (s : WorkerSupervisor (TokioWorkerRunner O C)) (planned : PlannedWorker Launch.PlannedWorker)
      → is_in_process planned.plan.launch ≡ true
      → (start (tokio_runner p) planned s).0.runner ≡ s.runner
  unfolding start start_spawned tokio_runner spawn mark_starting
  start-runner s planned e =
      rw e (update_status-runner planned.id _ _ ∙ stop_admitting-runner planned.id _)

  failed-Changed :
      (id : String) (s : WorkerSupervisor (TokioWorkerRunner O C))
      (r : WorkerSupervisor (TokioWorkerRunner O C) × WorkerStatus)
      → Started id s r
      → r.1.state ≡ failed
      → Changed id failed false s r.0
  failed-Changed id s (s', status) (inl (c, e)) h =
      let apart : ready ≡ failed = sym e ∙ h in absurd cc
  failed-Changed id s (s', status) (inr (c, e)) h = c

  -- A worker that is planned to run in the process never becomes ready under this runner: a start
  -- leaves it failed with its gate shut, changes no other worker, and spawns nothing, so the runner
  -- is as before.
  pub start-in_process :
      (s : WorkerSupervisor (TokioWorkerRunner O C)) (planned : PlannedWorker Launch.PlannedWorker)
      → is_in_process planned.plan.launch ≡ true
      → Changed planned.id failed false s (start (tokio_runner p) planned s).0
        × ((start (tokio_runner p) planned s).0.runner ≡ s.runner)
  start-in_process s planned e = (
    failed-Changed planned.id s (start (tokio_runner p) planned s)
        (start-Started (tokio_runner p) planned s) (start-failed s planned e),
    start-runner s planned e,
  )
