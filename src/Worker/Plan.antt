-- ===== src/Worker/Plan.antt =====
-- src/worker/plan.rs: the workers that a configuration asks for, and how two plans differ. The Cargo
-- feature `llama-cpp-native` is an argument, and so are the resource limits, which src/resources.rs
-- computes from a snapshot of the host.
pub mod Ports
pub mod Launches
pub mod Diff
mod Examples
use native.Mathlib.Decide.{ℕ_discrete}
use mathlib.Core.Bool.{decide}
use rs_llmctl.Base.{
  ℕ, min, ◌≡◌, inl, inr, String, Bool, true, false, not, Option, none, some, List, [], ◌∷◌,
  if◌then◌else◌, ltb, str_eq, eq_iff, Bool-cases, filter, length, map_index, arith,
}
use rs_llmctl.Base.Map.{Map, get, insert}
use rs_llmctl.Config.{ModelConfig, ServerConfig, ResourceConfig}
use rs_llmctl.Worker.Launch.{
  u16_max, WorkerBackend, from_resources, gpu_layers_of, WorkerSpec, spec_from_config,
  PlannedWorker, Environment, planned_in_process, planned_llama_cpp, planned_subprocess,
  find_llama_server, is_amd,
}

pub record StartupPlan (L : Type 0) : Type 0 where
  pub resource_limits : L
  pub workers : List PlannedWorker

-- `u16::try_from(index).unwrap_or(u16::MAX)`
abbrev pub port_offset : ℕ → ℕ
port_offset index = min u16_max index

abbrev pub is_active : ModelConfig → Bool
is_active model = ltb 0 model.weight

-- the worker of the active model at an index
unfoldable pub spec_at : ServerConfig → ResourceConfig → ℕ → ModelConfig → WorkerSpec
unfolding spec_from_config
spec_at server resources index model =
    spec_from_config model.alias model server resources (port_offset index)

abbrev pub plan_without_ffi : Environment → Option String → WorkerSpec → PlannedWorker
plan_without_ffi e none worker = planned_in_process worker
plan_without_ffi e (some path) worker = planned_subprocess e worker path

-- the branches of `from_config`, for a backend and a server binary that may have been found
abbrev pub plan_backend :
    Bool → Environment → WorkerBackend → Option String → WorkerSpec → PlannedWorker
plan_backend has_ffi e backend found worker =
    if is_amd backend
    then (if has_ffi
        then planned_llama_cpp worker (gpu_layers_of worker.backend)
        else plan_without_ffi e found worker)
    else plan_without_ffi e none worker

unfoldable pub plan_worker : Bool → Environment → ResourceConfig → WorkerSpec → PlannedWorker
plan_worker has_ffi e resources worker =
    plan_backend has_ffi e (from_resources resources)
      (find_llama_server e resources.llama_server_bin) worker

unfoldable pub from_config :
    {L : Type 0}
    → Bool
    → Environment
    → L
    → List ModelConfig
    → ServerConfig
    → ResourceConfig
    → StartupPlan L
unfolding spec_at plan_worker
from_config has_ffi e limits models server resources = record {
  resource_limits = limits;
  workers =
      map_index
        (λ index model. plan_worker has_ffi e resources (spec_at server resources index model)) 0
        (filter is_active models);
}

pub record PlanDiffCounts : Type 0 where
  pub added : ℕ
  pub removed : ℕ
  pub changed : ℕ
  pub unchanged : ℕ

pub record PlanDiff : Type 0 where
  pub added : List String
  pub removed : List String
  pub changed : List String
  pub unchanged : List String
  pub counts : PlanDiffCounts

-- `collect()` into a map: the last worker of an id stays
unfoldable pub workers_by_alias : List PlannedWorker → Map PlannedWorker → Map PlannedWorker
workers_by_alias [] m = m
workers_by_alias (w ∷ ws) m = workers_by_alias ws (insert w.worker.id w m)

abbrev pub contains_key : Map PlannedWorker → String → Bool
contains_key m k = elim (get k m) [ none ↦ false | some w ↦ true ]

abbrev pub keys : Map PlannedWorker → List String
keys [] = []
keys ((k, w) ∷ m) = k ∷ keys m

String-discrete : Discrete String
String-discrete a b = elim (Bool-cases (str_eq a b)) [
  | inl e ↦ yes ((eq_iff a b).0 e)
  | inr e ↦ no (λ p. ground (arith, eq_iff a b))
]

pub PlannedWorker-discrete : Discrete PlannedWorker
PlannedWorker-discrete = hlevel (ℕ_discrete, String-discrete)

-- `==` of two planned workers, which compares every field. Paths are compared as texts; `PathBuf`
-- compares their components, so that `a//b` and `a/b` are one path there and two here.
abbrev pub same_worker : PlannedWorker → PlannedWorker → Bool
same_worker a b = decide (PlannedWorker-discrete a b)

-- what the loop over the old workers makes of one that the new plan has too
abbrev pub is_unchanged : Map PlannedWorker → String × PlannedWorker → Bool
is_unchanged new (k, w) = elim (get k new) [ none ↦ false | some v ↦ same_worker w v ]

abbrev pub is_changed : Map PlannedWorker → String × PlannedWorker → Bool
is_changed new (k, w) = elim (get k new) [ none ↦ false | some v ↦ not (same_worker w v) ]

diff_maps : Map PlannedWorker → Map PlannedWorker → PlanDiff
diff_maps old new =
    let added = filter (λ k. not (contains_key old k)) (keys new) in
    let removed = filter (λ k. not (contains_key new k)) (keys old) in
    let changed = keys (filter (is_changed new) old) in
    let unchanged = keys (filter (is_unchanged new) old) in
    record {
      added = added;
      removed = removed;
      changed = changed;
      unchanged = unchanged;
      counts = record {
        added = length added;
        removed = length removed;
        changed = length changed;
        unchanged = length unchanged;
      };
    }

unfoldable pub diff : {L : Type 0} → StartupPlan L → StartupPlan L → PlanDiff
unfolding workers_by_alias diff_maps
diff old next = diff_maps (workers_by_alias old.workers []) (workers_by_alias next.workers [])
