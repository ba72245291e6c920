-- ===== src/Worker/Plan/Examples.antt =====
-- Plans of a small configuration, and the theorems at it.
use rs_llmctl.Base.{
  ℕ, ◌+◌, ◌≤◌, ◌<◌, ◌≡◌, refl, String, Bool, true, false, none, some, List, [], ◌∷◌, arith, filter,
  get_elem?, str_eq,
}
use rs_llmctl.Base.Map
use rs_llmctl.Config.{ModelConfig, ServerConfig, ResourceConfig}
use rs_llmctl.Worker.Launch.{
  u16_max, PlannedWorker, Environment, find_llama_server, llama_server_subprocess, from_resources,
}
use rs_llmctl.Worker.Plan.{StartupPlan, is_active, spec_at, plan_worker, from_config, diff}
use rs_llmctl.Worker.Plan.Ports.{Serves, from_config-Serves, from_config-ports}
use rs_llmctl.Worker.Plan.Launches.{LaunchedRight, plan_worker-LaunchedRight}
use rs_llmctl.Worker.Plan.Diff.{last_of, Classified, diff-Classified}

abbrev model : String → ℕ → ModelConfig
model alias weight = record {
  alias = alias;
  path = "/models/m.gguf";
  role = "chat";
  family = none;
  weight = weight;
}

abbrev models : List ModelConfig
models = model "big" 3 ∷ model "idle" 0 ∷ model "small" 1 ∷ []

abbrev server : ServerConfig
server = record { host = "127.0.0.1"; port = 8080; worker_base_port = 65534; context_size = 4096 }

abbrev crowded : ServerConfig
crowded = record { host = "127.0.0.1"; port = 8080; worker_base_port = 65535; context_size = 4096 }

abbrev amd : ResourceConfig
amd = record { cpu_only = false; gpu_vendor = "amd"; llama_server_bin = none }

-- only /usr/bin/llama-server is there
abbrev host : Environment
host = record {
  home = none;
  path_env = "";
  path_dirs = "" ∷ [];
  is_file = λ path. str_eq path "/usr/bin/llama-server";
  join = λ dir file. file;
}

abbrev plan : StartupPlan Bool
plan = from_config false host true models server amd

found : find_llama_server host none ≡ some "/usr/bin/llama-server"
unfolding find_llama_server
found = refl

abbrev worker : ℕ → ModelConfig → PlannedWorker
worker index m = plan_worker false host amd (spec_at server amd index m)

is_subprocess :
    (worker 1 (model "small" 1)).launch ≡ llama_server_subprocess "/usr/bin/llama-server"
unfolding plan_worker spec_at from_resources find_llama_server
is_subprocess = refl

plan_worker-LaunchedRight_example : LaunchedRight false host (worker 1 (model "small" 1))
plan_worker-LaunchedRight_example =
    plan_worker-LaunchedRight false host server amd 1 (model "small" 1)

from_config-Serves_example :
    Serves false host true models server amd 1
      (get_elem? (filter is_active models) 1)
      (get_elem? plan.workers 1)
from_config-Serves_example = from_config-Serves false host true models server amd 1

from_config-ports_example :
    (65534 + 1 ≤ u16_max
      → (worker 0 (model "big" 3)).worker.port < (worker 1 (model "small" 1)).worker.port)
    × (u16_max ≤ 65534 + 0
        → ((worker 0 (model "big" 3)).worker.port ≡ u16_max)
          × ((worker 1 (model "small" 1)).worker.port ≡ u16_max))
unfolding from_config
from_config-ports_example =
    from_config-ports false host true models server amd 0 1 (worker 0 (model "big" 3))
      (worker 1 (model "small" 1)) refl refl (omega arith)

-- With the base port 65535 the two workers would listen on the same port.
both_on_one_port :
    (spec_at crowded amd 0 (model "big" 3)).port ≡ (spec_at crowded amd 1 (model "small" 1)).port
unfolding spec_at
both_on_one_port = refl

abbrev next_plan : StartupPlan Bool
next_plan = from_config false host true (model "small" 2 ∷ model "new" 1 ∷ []) server amd

new_is_added : (diff plan next_plan).added ≡ "new" ∷ []
unfolding diff from_config spec_at plan_worker from_resources find_llama_server Map.get Map.insert
new_is_added = refl

diff-Classified_example :
    Classified
      (last_of "small" plan.workers none)
      (last_of "small" next_plan.workers none)
      "small"
      (diff plan next_plan)
diff-Classified_example = diff-Classified plan next_plan "small"
