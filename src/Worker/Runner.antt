-- ===== src/Worker/Runner.antt =====
-- src/worker/runner.rs: `TokioWorkerRunner`, the runner that spawns processes. tokio's processes and
-- reqwest's requests are the record `Processes`, over the state `O` of what is outside and a handle
-- `C` for a child. A child that is dropped is killed (`kill_on_drop` in src/worker/plan.rs), so a
-- drop is a call too. A worker's `plan` is its whole `PlannedWorker` of src/worker/plan.rs.
pub mod Children
pub mod Supervised
mod Examples
use Prim.Native.String.{◌++◌ as append_text}
use rs_llmctl.Base.{
  ℕ, zero, suc, ◌/◌, ◌%◌, String, Bool, true, false, Option, none, some, List, [], ◌∷◌,
  if◌then◌else◌, ltb, get_elem?,
}
use rs_llmctl.Base.Map.{Map, get, insert, remove}
use rs_llmctl.Worker.Launch as Launch
use rs_llmctl.Worker.Launch.{WorkerSpec, CommandSpec, is_in_process}
use rs_llmctl.Worker.Supervisor.{Outcome, ok, err, PlannedWorker, WorkerRunner}

-- what `try_wait` says of a child
pub data Waited : Type 0 where
  running exited wait_failed : Waited

pub record Processes (O C : Type 0) : Type 0 where
  pub spawn : O → CommandSpec → O × Outcome C
  pub id : C → Option ℕ
  pub kill : O → C → O × Outcome Unit
  pub drop : O → C → O
  pub try_wait : O → C → O × C × Waited
  -- whether a request to an address is answered with success
  pub get_succeeds : O → String → O × Bool
  pub sleep : O → O

pub record TokioWorkerRunner (O C : Type 0) : Type 0 where
  pub os : O
  pub children : Map C

abbrev digits : List String
digits = "0" ∷ "1" ∷ "2" ∷ "3" ∷ "4" ∷ "5" ∷ "6" ∷ "7" ∷ "8" ∷ "9" ∷ []

abbrev digit_text : Option String → String
digit_text none = ""
digit_text (some s) = s

-- `to_string` of a number of at most `suc places` digits; a port has at most five
abbrev pub decimal : ℕ → ℕ → String
decimal zero n = digit_text (get_elem? digits (n % 10))
decimal (suc places) n =
    let front = decimal places (n / 10) in
    let last = digit_text (get_elem? digits (n % 10)) in
    if ltb n 10 then last else append_text front last

abbrev pub upstream : WorkerSpec → String
upstream spec =
    append_text "http://" (append_text spec.bind_host (append_text ":" (decimal 4 spec.port)))

abbrev pub ready_probe_attempts : ℕ
ready_probe_attempts = 120

abbrev pub probe_addresses : WorkerSpec → List String
probe_addresses spec =
    append_text (upstream spec) "/health"
    ∷ append_text (upstream spec) "/healthz"
    ∷ append_text (upstream spec) "/v1/models"
    ∷ []

abbrev pub pid_or_zero : Option ℕ → ℕ
pid_or_zero none = 0
pid_or_zero (some pid) = pid

abbrev pub keys : {C : Type 0} → Map C → List String
keys [] = []
keys ((id, c) ∷ m) = id ∷ keys m

module _ {O C : Type 0} (p : Processes O C) where
  -- a prior child of the worker is killed, whatever `kill` answers, and dropped
  abbrev pub killed : String → TokioWorkerRunner O C → Option C → TokioWorkerRunner O C
  killed id r none = r
  killed id r (some existing) = record {
    os = p.drop (p.kill r.os existing).0 existing;
    children = remove id r.children;
  }

  abbrev pub kill_existing : String → TokioWorkerRunner O C → TokioWorkerRunner O C
  kill_existing id r = killed id r (get id r.children)

  -- the answer of `spawn` of the command
  abbrev pub spawned :
      String → TokioWorkerRunner O C → O × Outcome C → TokioWorkerRunner O C × Outcome ℕ
  spawned id r (os, err error) = (record r { os = os }, err error)
  spawned id r (os, ok child) =
      (record { os = os; children = insert id child r.children }, ok (pid_or_zero (p.id child)))

  unfoldable pub spawn :
      TokioWorkerRunner O C → PlannedWorker Launch.PlannedWorker → TokioWorkerRunner O C × Outcome ℕ
  spawn r planned =
      if is_in_process planned.plan.launch
      then (
        r,
        err
            "candle-native runtime is planned as an in-process worker, but the engine implementation is not available yet",
      )
      else (let r' = kill_existing planned.id r in
          spawned planned.id r' (p.spawn r'.os planned.plan.command))

  unfoldable pub stop : TokioWorkerRunner O C → String → TokioWorkerRunner O C × Outcome Unit
  stop r id = elim (get id r.children) [
    | none ↦ (r, ok tt)
    | some child ↦
        let (os, answer) = p.kill r.os child in
        (record { os = p.drop os child; children = remove id r.children }, answer)
  ]

  abbrev pub probe_each : List String → O → O × Bool
  probe_each [] os = (os, false)
  probe_each (url ∷ urls) os =
      let (os', success) = p.get_succeeds os url in
      let later = probe_each urls os' in if success then (os', true) else later

  abbrev pub probe_attempts : ℕ → List String → O → O × Bool
  probe_attempts zero urls os = (os, false)
  probe_attempts (suc attempts) urls os =
      let (os', success) = probe_each urls os in
      let later = probe_attempts attempts urls (p.sleep os') in
      if success then (os', true) else later

  abbrev pub not_ready : String → WorkerSpec → String
  not_ready id spec =
      append_text "worker "
        (append_text id (append_text " did not become ready at " (upstream spec)))

  unfoldable pub wait_ready :
      TokioWorkerRunner O C
      → PlannedWorker Launch.PlannedWorker
      → TokioWorkerRunner O C × Outcome Unit
  wait_ready r planned =
      let spec = planned.plan.worker in
      let (os, success) = probe_attempts ready_probe_attempts (probe_addresses spec) r.os in
      (record r { os = os }, if success then ok tt else err (not_ready planned.id spec))

  -- `try_wait` has answered for the child of a worker
  abbrev pub polled : String → TokioWorkerRunner O C → O × C × Waited → TokioWorkerRunner O C × Bool
  polled id r (os, child, running) =
      (record { os = os; children = insert id child r.children }, false)
  polled id r (os, child, exited) =
      (record { os = p.drop os child; children = remove id r.children }, true)
  polled id r (os, child, wait_failed) =
      (record { os = p.drop os child; children = remove id r.children }, true)

  abbrev pub poll_found : String → TokioWorkerRunner O C → Option C → TokioWorkerRunner O C × Bool
  poll_found id r none = (r, false)
  poll_found id r (some child) = polled id r (p.try_wait r.os child)

  abbrev pub poll_child : String → TokioWorkerRunner O C → TokioWorkerRunner O C × Bool
  poll_child id r = poll_found id r (get id r.children)

  abbrev pub poll_each : List String → TokioWorkerRunner O C → TokioWorkerRunner O C × List String
  poll_each [] r = (r, [])
  poll_each (id ∷ ids) r =
      let (r', gone) = poll_child id r in
      let (r'', others) = poll_each ids r' in (r'', if gone then id ∷ others else others)

  unfoldable pub poll_exited : TokioWorkerRunner O C → TokioWorkerRunner O C × List String
  poll_exited r = poll_each (keys r.children) r

  -- The runner as the supervisor uses it.
  unfoldable pub tokio_runner : WorkerRunner (TokioWorkerRunner O C) Launch.PlannedWorker
  unfolding spawn stop wait_ready poll_exited
  tokio_runner = record {
    spawn = spawn;
    stop = stop;
    wait_ready = wait_ready;
    poll_exited = poll_exited;
  }
