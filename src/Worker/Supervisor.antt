-- ===== src/Worker/Supervisor.antt =====
-- src/worker/mod.rs: `WorkerSupervisor`, over the interface `WorkerRunner` of src/worker/runner.rs.
-- The methods take `&mut self`, so no two run at a time, and each is a function that returns the new
-- supervisor and its result. While a method awaits the runner, requests still read the gates: what
-- they read during a start is the state that `mark_starting`, and then the update to `warming`, leave
-- (Worker/Supervisor/Gates); a start whose future is dropped ends there. The registry keeps one gate for each worker and the supervisor is the only one to
-- insert or close a gate, so the registry maps a worker to its gate itself; a poisoned registry
-- lock is not modelled. What the request path does to a gate during a drain is the list `polls`:
-- the counter's value after each poll, until the deadline. Telemetry is the list `emitted`, the
-- latest first.
pub mod States
pub mod Gates
pub mod Outcomes
pub mod Answers
mod Examples
pub use rs_llmctl.Worker.Status.{
  WorkerState, stopped, starting, warming, ready, draining, stopping, failed, state_code, state_eq,
  WorkerStatus, new_status, status_or_new, was_live, restarts, to_warming, to_ready, to_failed,
  to_draining, to_stopping, to_stopped, to_stop_failed, to_restarted,
}
use rs_llmctl.Base.{
  ℕ, zero, suc, ◌+◌, String, Bool, true, false, not, ◌||◌, Option, none, some, List, [], ◌∷◌, ◌++◌,
  if◌then◌else◌, ◌==◌, length, filter,
}
use rs_llmctl.Base.Map.{Map, get, insert}
use rs_llmctl.Worker.Gate.{WorkerAdmission, ready as ready_gate, set_admitting}

-- `plan` stands for the launch, execution and command, which only the runner reads.
pub record PlannedWorker (P : Type 0) : Type 0 where
  pub id : String
  pub plan : P

pub data Outcome (A : Type 0) : Type 0 where
  ok : A → Outcome A
  err : String → Outcome A

-- The trait: a runner's state `R` changes with each call.
pub record WorkerRunner (R P : Type 0) : Type 0 where
  pub spawn : R → PlannedWorker P → R × Outcome ℕ
  pub stop : R → String → R × Outcome Unit
  pub wait_ready : R → PlannedWorker P → R × Outcome Unit
  pub poll_exited : R → R × List String

pub record WorkerSupervisor (R : Type 0) : Type 0 where
  pub runner : R
  pub statuses : Map WorkerStatus
  pub admissions : Map WorkerAdmission
  pub emitted : List (WorkerStatus × WorkerState)

-- `is_admitting` of the worker's gate, as the request path reads it
abbrev pub gate_admits : Option WorkerAdmission → Bool
gate_admits none = false
gate_admits (some g) = g.admitting

abbrev pub keys : Map WorkerStatus → List String
keys [] = []
keys ((id, status) ∷ m) = id ∷ keys m

-- `values()`, in the order of the keys
abbrev pub values : Map WorkerStatus → List WorkerStatus
values [] = []
values ((id, status) ∷ m) = status ∷ values m

module _ {R : Type 0} where
  unfoldable pub new : R → WorkerSupervisor R
  new runner = record { runner = runner; statuses = []; admissions = []; emitted = [] }

  unfoldable pub statuses : WorkerSupervisor R → List WorkerStatus
  statuses s = values s.statuses

  unfoldable pub ready_worker_count : WorkerSupervisor R → ℕ
  ready_worker_count s = length (filter (λ status. state_eq status.state ready) (values s.statuses))

  unfoldable pub worker_state : WorkerSupervisor R → String → Option WorkerState
  worker_state s id = elim (get id s.statuses) [ none ↦ none | some status ↦ some status.state ]

  unfoldable pub is_admitting : WorkerSupervisor R → String → Bool
  is_admitting s id = gate_admits (get id s.admissions)

  unfoldable pub insert_admission :
      String → WorkerAdmission → WorkerSupervisor R → WorkerSupervisor R
  insert_admission id gate s = record s { admissions = insert id gate s.admissions }

  -- Closes a worker's gate; an unknown worker has none.
  unfoldable pub stop_admitting : String → WorkerSupervisor R → WorkerSupervisor R
  unfolding set_admitting
  stop_admitting id s = elim (get id s.admissions) [
    | none ↦ s
    | some g ↦ record s { admissions = insert id (set_admitting false g) s.admissions }
  ]

  emit_worker_lifecycle_transition :
      WorkerStatus → WorkerState → WorkerSupervisor R → WorkerSupervisor R
  emit_worker_lifecycle_transition status previous s = record s {
    emitted = (status, previous) ∷ s.emitted;
  }

  unfoldable pub update_status :
      String
      → (WorkerStatus → WorkerStatus)
      → WorkerSupervisor R
      → WorkerSupervisor R × WorkerStatus
  unfolding emit_worker_lifecycle_transition
  update_status id update s =
      let previous = status_or_new id (get id s.statuses) in
      let updated = update previous in
      let s' = record s { statuses = insert id updated s.statuses } in
      (
        if state_eq previous.state updated.state
            then s'
            else emit_worker_lifecycle_transition updated previous.state s',
        updated,
      )

-- The wait of `drain`: the counter at each poll, until it is zero or the deadline has passed.
pub wait_drained : List ℕ → WorkerAdmission → WorkerAdmission
wait_drained [] g = g
wait_drained (n ∷ polls) g =
    let later = wait_drained polls (record g { in_flight = n }) in
    if g.in_flight == 0 then g else later

module _ {R : Type 0} where
  -- the entry that `start` writes before it spawns
  unfoldable pub mark_starting : String → WorkerSupervisor R → WorkerSupervisor R
  unfolding emit_worker_lifecycle_transition
  mark_starting id s =
      let status = record (new_status id) {
        state = starting;
        restart_count = restarts (get id s.statuses);
      } in
      emit_worker_lifecycle_transition status stopped
        (record s { statuses = insert id status s.statuses })

  -- the gate after the wait, if the worker has one
  unfoldable pub wait_gate : String → List ℕ → WorkerSupervisor R → WorkerSupervisor R
  unfolding wait_drained
  wait_gate id polls s = elim (get id s.admissions) [
    | none ↦ s
    | some g ↦ record s { admissions = insert id (wait_drained polls g) s.admissions }
  ]

  -- `runner.stop` has answered
  unfoldable pub stop_answered :
      String → WorkerSupervisor R → Outcome Unit → WorkerSupervisor R × WorkerStatus
  stop_answered id s (ok done) = update_status id to_stopped s
  stop_answered id s (err error) = update_status id (to_stop_failed error) s

  unfoldable pub drain : String → List ℕ → WorkerSupervisor R → WorkerSupervisor R × WorkerStatus
  drain id polls s = update_status id to_draining (wait_gate id polls (stop_admitting id s))

  unfoldable pub reap_each :
      List String → WorkerSupervisor R → WorkerSupervisor R × List WorkerStatus
  reap_each [] s = (s, [])
  reap_each (id ∷ ids) s =
      let (s', status) =
        update_status id (to_failed "worker process exited unexpectedly") (stop_admitting id s) in
      let live = was_live (worker_state s id) in
      let (s'', reaped) = reap_each ids (if live then s' else s) in
      (s'', if live then status ∷ reaped else reaped)

module _ {R P : Type 0} (w : WorkerRunner R P) where
  -- `wait_ready` has answered
  unfoldable pub start_waited :
      String → WorkerSupervisor R → Outcome Unit → WorkerSupervisor R × WorkerStatus
  start_waited id s (ok done) = update_status id to_ready (insert_admission id ready_gate s)
  start_waited id s (err error) =
      let (r, ignored) = w.stop s.runner id in
      update_status id (to_failed error) (stop_admitting id (record s { runner = r }))

  -- `spawn` has answered
  unfoldable pub start_spawned :
      PlannedWorker P → WorkerSupervisor R → Outcome ℕ → WorkerSupervisor R × WorkerStatus
  unfolding start_waited
  start_spawned planned s (ok pid) =
      let (s', status) = update_status planned.id (to_warming pid) s in
      let (r, waited) = w.wait_ready s'.runner planned in
      start_waited planned.id (record s' { runner = r }) waited
  start_spawned planned s (err error) =
      update_status planned.id (to_failed error) (stop_admitting planned.id s)

  unfoldable pub start : PlannedWorker P → WorkerSupervisor R → WorkerSupervisor R × WorkerStatus
  unfolding start_spawned mark_starting
  start planned s =
      let s' = mark_starting planned.id s in
      let (r, spawned) = w.spawn s'.runner planned in
      start_spawned planned (record s' { runner = r }) spawned

  -- the loop of `start_all`
  unfoldable pub start_each : List (PlannedWorker P) → WorkerSupervisor R → WorkerSupervisor R
  start_each [] s = s
  start_each (planned ∷ rest) s = start_each rest (start planned s).0

  -- `StartupPlan.workers`, started in order
  unfoldable pub start_all :
      List (PlannedWorker P) → WorkerSupervisor R → WorkerSupervisor R × List WorkerStatus
  unfolding start_each statuses
  start_all planned s = let s' = start_each planned s in (s', statuses s')

  unfoldable pub stop : String → WorkerSupervisor R → WorkerSupervisor R × WorkerStatus
  unfolding stop_answered
  stop id s =
      let (s', status) = update_status id to_stopping (stop_admitting id s) in
      let (r, answer) = w.stop s'.runner id in stop_answered id (record s' { runner = r }) answer

  unfoldable pub reap_crashed : WorkerSupervisor R → WorkerSupervisor R × List WorkerStatus
  unfolding reap_each
  reap_crashed s =
      let (r, exited) = w.poll_exited s.runner in reap_each exited (record s { runner = r })

  unfoldable pub restart : PlannedWorker P → WorkerSupervisor R → WorkerSupervisor R × WorkerStatus
  restart planned s =
      let (s', status) = stop planned.id s in
      if state_eq status.state failed
      then (s', status)
      else start planned (update_status planned.id to_restarted s').0

  unfoldable pub stop_each :
      List String → WorkerSupervisor R → WorkerSupervisor R × List WorkerStatus
  stop_each [] s = (s, [])
  stop_each (id ∷ ids) s =
      let (s', status) = stop id s in let (s'', rest) = stop_each ids s' in (s'', status ∷ rest)

  unfoldable pub stop_all : WorkerSupervisor R → WorkerSupervisor R × List WorkerStatus
  unfolding stop_each
  stop_all s = stop_each (keys s.statuses) s
