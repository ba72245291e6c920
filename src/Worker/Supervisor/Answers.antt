-- ===== src/Worker/Supervisor/Answers.antt =====
-- How a start and a stop end, for each answer of the runner.
use rs_llmctl.Base.{
  ℕ, ◌≡◌, refl, ◌∙◌, inl, inr, String, Bool, true, false, if◌then◌else◌, subst, str_eq, eq_refl,
}
use rs_llmctl.Worker.Gate.{ready as ready_gate}
use rs_llmctl.Worker.Supervisor.{
  stopped, ready, failed, WorkerStatus, WorkerRunner, PlannedWorker, Outcome, ok, err,
  WorkerSupervisor, is_admitting, insert_admission, stop_admitting, update_status, mark_starting,
  to_warming, to_ready, to_failed, to_stopping, to_stopped, to_stop_failed, start_waited,
  start_spawned, start, stop_answered, stop,
}
use rs_llmctl.Worker.Supervisor.States.{is_admitting-update_status, is_admitting-insert_admission}
use rs_llmctl.Worker.Supervisor.Outcomes.{
  Only, Changed, Only-trans, Only-update_status, Only-stop_admitting, Only-insert_ready,
  Only-mark_starting, Only-runner, shut, Changed-update_status, runner-update_status,
  runner-stop_admitting, is_admitting-runner, Started, Stopped,
}

abbrev pub is_ok : {A : Type 0} → Outcome A → Bool
is_ok (ok a) = true
is_ok (err error) = false

-- The end of a start, for whether it has succeeded: the worker is ready and its gate open, or it has
-- failed and its gate is shut. The returned status says the same.
abbrev pub StartedAs :
    {R : Type 0} → Bool → String → WorkerSupervisor R → WorkerSupervisor R × WorkerStatus → Type 0
StartedAs true id s (s', status) = Changed id ready true s s' × (status.state ≡ ready)
StartedAs false id s (s', status) = Changed id failed false s s' × (status.state ≡ failed)

-- And the end of a stop.
abbrev pub StoppedAs :
    {R : Type 0} → Bool → String → WorkerSupervisor R → WorkerSupervisor R × WorkerStatus → Type 0
StoppedAs true id s (s', status) = Changed id stopped false s s' × (status.state ≡ stopped)
StoppedAs false id s (s', status) = Changed id failed false s s' × (status.state ≡ failed)

module _ {R : Type 0} where
  StartedAs-Started :
      (b : Bool) (id : String) (s : WorkerSupervisor R) (r : WorkerSupervisor R × WorkerStatus)
      → StartedAs b id s r
      → Started id s r
  StartedAs-Started true id s r h = inl h
  StartedAs-Started false id s r h = inr h

  StoppedAs-Stopped :
      (b : Bool) (id : String) (s : WorkerSupervisor R) (r : WorkerSupervisor R × WorkerStatus)
      → StoppedAs b id s r
      → Stopped id s r
  StoppedAs-Stopped true id s r h = inl h
  StoppedAs-Stopped false id s r h = inr h

module _ {R P : Type 0} (w : WorkerRunner R P) where
  -- Whether the runner's answers let a start succeed: it spawns the worker, and then the worker is
  -- ready in time.
  abbrev pub waited_ok : PlannedWorker P → R × Outcome ℕ → Bool
  waited_ok planned (r, err error) = false
  waited_ok planned (r, ok pid) = is_ok (w.wait_ready r planned).1

  abbrev pub comes_up : PlannedWorker P → R → Bool
  comes_up planned r = waited_ok planned (w.spawn r planned)

  failed_start :
      (id : String) (error : String) (s s' : WorkerSupervisor R)
      → Only id s s'
      → StartedAs false id s (update_status id (to_failed error) (stop_admitting id s'))
  failed_start id error s s' only =
      Changed-update_status id (to_failed error) failed false s (stop_admitting id s') (λ t. refl)
        (Only-trans only (Only-stop_admitting id s')) (shut id s')

  start_waited-StartedAs :
      (id : String) (s s' : WorkerSupervisor R) (o : Outcome Unit)
      → Only id s s'
      → StartedAs (is_ok o) id s (start_waited w id s' o)
  unfolding start_waited ready_gate
  start_waited-StartedAs id s s' (ok done) only =
      Changed-update_status id to_ready ready true s (insert_admission id ready_gate s') (λ t. refl)
        (Only-trans only (Only-insert_ready id s'))
        (is_admitting-insert_admission id id ready_gate s' ∙ admits_now)
    where
      admits_now : (if str_eq id id then ready_gate.admitting else is_admitting s' id) ≡ true
      admits_now = rw (eq_refl id) refl
  start_waited-StartedAs id s s' (err error) only =
      failed_start id error s (record s' { runner = (w.stop s'.runner id).0 })
        (Only-trans only (Only-runner id s' (w.stop s'.runner id).0))

  start_spawned-StartedAs :
      (planned : PlannedWorker P) (s s' : WorkerSupervisor R) (o : Outcome ℕ)
      → Only planned.id s s'
      → StartedAs (waited_ok planned (s'.runner, o)) planned.id s (start_spawned w planned s' o)
  unfolding start_spawned
  start_spawned-StartedAs planned s s' (ok pid) only =
      let t = (update_status planned.id (to_warming pid) s').0 in
      let answer = w.wait_ready t.runner planned in
      let ends =
        start_waited-StartedAs planned.id s (record t { runner = answer.0 }) answer.1
          (Only-trans only (
            Only-trans (Only-update_status planned.id (to_warming pid) s')
              (Only-runner planned.id t answer.0))) in
      subst
        (λ r.
          StartedAs (is_ok (w.wait_ready r planned).1) planned.id s
            (start_spawned w planned s' (ok pid)))
        (runner-update_status planned.id (to_warming pid) s') ends
  start_spawned-StartedAs planned s s' (err error) only = failed_start planned.id error s s' only

  -- A start succeeds exactly when the runner spawns the worker and then says that it is ready. It
  -- ends with the worker ready and its gate open if it succeeds, and failed with its gate shut if it
  -- does not; the returned status says the same, and no other worker changes.
  pub start-StartedAs :
      (planned : PlannedWorker P) (s : WorkerSupervisor R)
      → StartedAs (comes_up planned s.runner) planned.id s (start w planned s)
  unfolding start mark_starting
  start-StartedAs planned s =
      let t = mark_starting planned.id s in
      let answer = w.spawn t.runner planned in
      start_spawned-StartedAs planned s (record t { runner = answer.0 }) answer.1
        (Only-trans (Only-mark_starting planned.id s) (Only-runner planned.id t answer.0))

  pub start-Started :
      (planned : PlannedWorker P) (s : WorkerSupervisor R)
      → Started planned.id s (start w planned s)
  start-Started planned s =
      StartedAs-Started (comes_up planned s.runner) planned.id s _ (start-StartedAs planned s)

  stop_answered-StoppedAs :
      (id : String) (s s' : WorkerSupervisor R) (o : Outcome Unit)
      → Only id s s'
      → is_admitting s' id ≡ false
      → StoppedAs (is_ok o) id s (stop_answered id s' o)
  unfolding stop_answered
  stop_answered-StoppedAs id s s' (ok done) only gate =
      Changed-update_status id to_stopped stopped false s s' (λ t. refl) only gate
  stop_answered-StoppedAs id s s' (err error) only gate =
      Changed-update_status id (to_stop_failed error) failed false s s' (λ t. refl) only gate

  -- A stop ends with the gate shut, and the worker stopped if the runner could stop it and failed if
  -- it could not; the returned status says which, and no other worker changes.
  pub stop-StoppedAs :
      (id : String) (s : WorkerSupervisor R)
      → StoppedAs (is_ok (w.stop s.runner id).1) id s (stop w id s)
  unfolding stop
  stop-StoppedAs id s =
      let s' = stop_admitting id s in
      let t = (update_status id to_stopping s').0 in
      let answer = w.stop t.runner id in
      let ends =
        stop_answered-StoppedAs id s (record t { runner = answer.0 }) answer.1
          (Only-trans (Only-stop_admitting id s)
            (Only-trans (Only-update_status id to_stopping s') (Only-runner id t answer.0)))
          (is_admitting-runner t answer.0 id
            ∙ is_admitting-update_status id id to_stopping s'
            ∙ shut id s) in
      subst (λ r. StoppedAs (is_ok (w.stop r id).1) id s (stop w id s))
        (runner-update_status id to_stopping s' ∙ runner-stop_admitting id s) ends

  pub stop-Stopped : (id : String) (s : WorkerSupervisor R) → Stopped id s (stop w id s)
  stop-Stopped id s = StoppedAs-Stopped (is_ok (w.stop s.runner id).1) id s _ (stop-StoppedAs id s)
