-- ===== src/Worker/Swap.antt =====
-- src/worker/swap.rs: plans of a swap between two workers, and their execution by the supervisor.
-- `polls` is what the active worker's counter reads while it drains (Worker/Supervisor.antt).
pub mod Ends
pub mod Plans
mod Examples
use rs_llmctl.Base.{
  ℕ, ◌+◌, String, Bool, true, false, not, Option, none, some, List, [], ◌∷◌, ◌++◌, if◌then◌else◌,
  leb, saturating_add, u64_max,
}
use rs_llmctl.Worker.Supervisor.{
  WorkerState, stopped, starting, warming, ready, draining, stopping, state_eq, WorkerStatus,
  WorkerRunner, PlannedWorker, WorkerSupervisor, start, drain, stop,
}

pub record LifecycleStep : Type 0 where
  pub worker_id : String
  pub target : WorkerState

abbrev pub transition : String → WorkerState → LifecycleStep
transition id target = record { worker_id = id; target = target }

pub record SwapPlan : Type 0 where
  pub active : String
  pub replacement : String
  pub steps : List LifecycleStep

pub data SwapMode : Type 0 where
  cold hot : SwapMode

pub record SwapExecution : Type 0 where
  pub mode : SwapMode
  pub plan : SwapPlan
  pub statuses : List WorkerStatus
  pub success : Bool

pub cold_plan : String → String → SwapPlan
cold_plan active replacement = record {
  active = active;
  replacement = replacement;
  steps =
      transition active draining
      ∷ transition active stopping
      ∷ transition active stopped
      ∷ transition replacement starting
      ∷ transition replacement ready
      ∷ [];
}

pub hot_plan : String → String → SwapPlan
hot_plan active replacement = record {
  active = active;
  replacement = replacement;
  steps =
      transition replacement starting
      ∷ transition replacement warming
      ∷ transition replacement ready
      ∷ transition active draining
      ∷ transition active stopping
      ∷ transition active stopped
      ∷ [];
}

pub record SwapBudget : Type 0 where
  pub active_bytes : ℕ
  pub replacement_bytes : ℕ
  pub budget_bytes : ℕ

pub hot_swap_fits : SwapBudget → Bool
hot_swap_fits b = leb (saturating_add u64_max b.active_bytes b.replacement_bytes) b.budget_bytes

-- a hot swap that does not fit its budget is made cold
pub effective_mode : SwapMode → Option SwapBudget → SwapMode
unfolding hot_swap_fits
effective_mode cold budget = cold
effective_mode hot none = hot
effective_mode hot (some budget) = if not (hot_swap_fits budget) then cold else hot

module _ {R P : Type 0} (w : WorkerRunner R P) where
  pub execute_cold_swap :
      String → PlannedWorker P → List ℕ → WorkerSupervisor R → WorkerSupervisor R × SwapExecution
  unfolding cold_plan
  execute_cold_swap active replacement polls s =
      let plan = cold_plan active replacement.id in
      let (s₁, drained) = drain active polls s in
      let (s₂, halted) = stop w active s₁ in
      let (s₃, started) = start w replacement s₂ in
      if not (state_eq halted.state stopped)
      then (
        s₂,
        record { mode = cold; plan = plan; statuses = drained ∷ halted ∷ []; success = false },
      )
      else (
        s₃,
        record {
          mode = cold;
          plan = plan;
          statuses = drained ∷ halted ∷ started ∷ [];
          success = state_eq started.state ready;
        },
      )

  pub execute_hot_swap :
      String → PlannedWorker P → List ℕ → WorkerSupervisor R → WorkerSupervisor R × SwapExecution
  unfolding hot_plan
  execute_hot_swap active replacement polls s =
      let plan = hot_plan active replacement.id in
      let (s₁, started) = start w replacement s in
      let (s₂, drained) = drain active polls s₁ in
      let (s₃, halted) = stop w active s₂ in
      if not (state_eq started.state ready)
      then (s₁, record { mode = hot; plan = plan; statuses = started ∷ []; success = false })
      else (
        s₃,
        record {
          mode = hot;
          plan = plan;
          statuses = started ∷ drained ∷ halted ∷ [];
          success = state_eq halted.state stopped;
        },
      )

  abbrev pub execute_mode :
      SwapMode
      → String
      → PlannedWorker P
      → List ℕ
      → WorkerSupervisor R
      → WorkerSupervisor R × SwapExecution
  execute_mode cold active replacement polls s = execute_cold_swap active replacement polls s
  execute_mode hot active replacement polls s = execute_hot_swap active replacement polls s

  pub execute_swap_with_budget :
      SwapMode
      → Option SwapBudget
      → String
      → PlannedWorker P
      → List ℕ
      → WorkerSupervisor R
      → WorkerSupervisor R × SwapExecution
  unfolding effective_mode
  execute_swap_with_budget mode budget active replacement polls s =
      execute_mode (effective_mode mode budget) active replacement polls s

  pub execute_swap :
      SwapMode
      → String
      → PlannedWorker P
      → List ℕ
      → WorkerSupervisor R
      → WorkerSupervisor R × SwapExecution
  unfolding execute_swap_with_budget
  execute_swap mode active replacement polls s =
      execute_swap_with_budget mode none active replacement polls s
