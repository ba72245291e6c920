-- ===== src/Worker/Status.antt =====
-- src/worker/mod.rs: `WorkerState` and `WorkerStatus`, the closures that the supervisor's methods give
-- to `update_status`, and what they read of a worker that may have no status.
use rs_llmctl.Base.{ℕ, String, Bool, false, ◌||◌, Option, none, some, ◌==◌, saturating_add, u32_max}

pub data WorkerState : Type 0 where
  stopped starting warming ready draining stopping failed : WorkerState

abbrev pub state_code : WorkerState → ℕ
state_code stopped = 0
state_code starting = 1
state_code warming = 2
state_code ready = 3
state_code draining = 4
state_code stopping = 5
state_code failed = 6

abbrev pub state_eq : WorkerState → WorkerState → Bool
state_eq a b = state_code a == state_code b

pub record WorkerStatus : Type 0 where
  pub worker_id : String
  pub pid : Option ℕ
  pub state : WorkerState
  pub restart_count : ℕ
  pub last_error : Option String

abbrev pub new_status : String → WorkerStatus
new_status id = record {
  worker_id = id;
  pid = none;
  state = stopped;
  restart_count = 0;
  last_error = none;
}

abbrev pub status_or_new : String → Option WorkerStatus → WorkerStatus
status_or_new id none = new_status id
status_or_new id (some status) = status

abbrev pub was_live : Option WorkerState → Bool
was_live none = false
was_live (some state) = state_eq state ready || state_eq state warming || state_eq state draining

abbrev pub restarts : Option WorkerStatus → ℕ
restarts none = 0
restarts (some status) = status.restart_count

-- the closures that are given to `update_status`
abbrev pub to_warming : ℕ → WorkerStatus → WorkerStatus
to_warming pid status = record status { pid = some pid; state = warming; last_error = none }

abbrev pub to_ready : WorkerStatus → WorkerStatus
to_ready status = record status { state = ready; last_error = none }

abbrev pub to_failed : String → WorkerStatus → WorkerStatus
to_failed error status = record status { pid = none; state = failed; last_error = some error }

abbrev pub to_draining : WorkerStatus → WorkerStatus
to_draining status = record status { state = draining; last_error = none }

abbrev pub to_stopping : WorkerStatus → WorkerStatus
to_stopping status = record status { state = stopping; last_error = none }

abbrev pub to_stopped : WorkerStatus → WorkerStatus
to_stopped status = record status { pid = none; state = stopped; last_error = none }

abbrev pub to_stop_failed : String → WorkerStatus → WorkerStatus
to_stop_failed error status = record status { state = failed; last_error = some error }

abbrev pub to_restarted : WorkerStatus → WorkerStatus
to_restarted status = record status {
  restart_count = saturating_add u32_max status.restart_count 1;
}
