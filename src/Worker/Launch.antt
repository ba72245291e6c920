-- ===== src/Worker/Launch.antt =====
-- src/worker/plan.rs: what one worker runs: its backend, its specification, and how it is launched.
-- `Environment` stands for the process's environment and file system.
use Prim.Native.String.{◌++◌ as append_text}
use rs_llmctl.Base.{
  ℕ, String, Bool, true, false, ◌||◌, Option, none, some, List, [], ◌∷◌, map, if◌then◌else◌, str_eq,
  find, saturating_add,
}
use rs_llmctl.Config.{ModelConfig, ServerConfig, ResourceConfig}

abbrev pub default_gpu_layers : ℕ
default_gpu_layers = 99

abbrev pub u16_max : ℕ
u16_max = 65535

pub data WorkerBackend : Type 0 where
  cpu : WorkerBackend
  nvidia amd_vulkan metal : ℕ → WorkerBackend

unfoldable pub from_resources : ResourceConfig → WorkerBackend
from_resources r =
    if r.cpu_only
    then cpu
    else (if str_eq r.gpu_vendor "nvidia"
        then nvidia default_gpu_layers
        else (if str_eq r.gpu_vendor "amd"
              || str_eq r.gpu_vendor "vulkan"
              || str_eq r.gpu_vendor "amd-vulkan"
            then amd_vulkan default_gpu_layers
            else (if str_eq r.gpu_vendor "metal" || str_eq r.gpu_vendor "apple"
                then metal default_gpu_layers
                else cpu)))

abbrev pub gpu_layers_of : WorkerBackend → ℕ
gpu_layers_of cpu = 0
gpu_layers_of (nvidia n) = n
gpu_layers_of (amd_vulkan n) = n
gpu_layers_of (metal n) = n

pub record WorkerDeviceSelection : Type 0 where
  pub device_index : Option ℕ
  pub selection : String

pub record WorkerExecutionPlan : Type 0 where
  pub backend : WorkerBackend
  pub device : WorkerDeviceSelection
  pub gpu_layers : ℕ

abbrev pub device_of : WorkerBackend → WorkerDeviceSelection
device_of cpu = record { device_index = none; selection = "cpu-only" }
device_of other = record { device_index = some 0; selection = "first-visible-gpu" }

abbrev pub from_backend : WorkerBackend → WorkerExecutionPlan
from_backend b = record { backend = b; device = device_of b; gpu_layers = gpu_layers_of b }

pub record WorkerSpec : Type 0 where
  pub id : String
  pub model : ModelConfig
  pub bind_host : String
  pub port : ℕ
  pub context_size : ℕ
  pub backend : WorkerBackend

unfoldable pub spec_from_config :
    String → ModelConfig → ServerConfig → ResourceConfig → ℕ → WorkerSpec
spec_from_config id model server resources port_offset = record {
  id = id;
  model = model;
  bind_host = server.host;
  port = saturating_add u16_max server.worker_base_port port_offset;
  context_size = server.context_size;
  backend = from_resources resources;
}

-- an argument of a command: a text, or a number as `to_string` prints it
pub data Arg : Type 0 where
  word : String → Arg
  number : ℕ → Arg

pub record CommandSpec : Type 0 where
  pub program : String
  pub args : List Arg
  pub env : List (String × String)

pub data WorkerLaunchPlan : Type 0 where
  -- the engine's name, and whether it is implemented
  in_process : String → Bool → WorkerLaunchPlan
  llama_server_subprocess : String → WorkerLaunchPlan
  llama_cpp_native : ℕ → WorkerLaunchPlan

pub record PlannedWorker : Type 0 where
  pub worker : WorkerSpec
  pub launch : WorkerLaunchPlan
  pub execution : WorkerExecutionPlan
  pub command : CommandSpec

-- `home` and `path_env` are `$HOME` and `$PATH` (empty if it is not set), `path_dirs` the parts of
-- `$PATH` between colons, `is_file` and `join` those of `Path`.
pub record Environment : Type 0 where
  pub home : Option String
  pub path_env : String
  pub path_dirs : List String
  pub is_file : String → Bool
  pub join : String → String → String

abbrev pub candle_native : WorkerLaunchPlan
candle_native = in_process "candle-native" true

abbrev pub is_in_process : WorkerLaunchPlan → Bool
is_in_process (in_process engine implemented) = true
is_in_process (llama_server_subprocess path) = false
is_in_process (llama_cpp_native layers) = true

abbrev pub in_process_placeholder : WorkerSpec → CommandSpec
in_process_placeholder spec = record {
  program = "<in-process:candle-native>";
  args = word "--model" ∷ word spec.model.path ∷ word "--ctx-size" ∷ number spec.context_size ∷ [];
  env = [];
}

abbrev pub lib_dir : Option String → String
lib_dir none = "/usr/local/lib/llmctl"
lib_dir (some home) = append_text home "/.local/lib/llmctl"

abbrev pub llama_server_command : Environment → WorkerSpec → String → CommandSpec
llama_server_command e spec path = record {
  program = path;
  args =
      word "-m"
      ∷ word spec.model.path
      ∷ word "--alias"
      ∷ word spec.model.alias
      ∷ word "--host"
      ∷ word spec.bind_host
      ∷ word "--port"
      ∷ number spec.port
      ∷ word "--ctx-size"
      ∷ number spec.context_size
      ∷ word "-ngl"
      ∷ number (gpu_layers_of spec.backend)
      ∷ word "--cache-type-k"
      ∷ word "q8_0"
      ∷ word "--cache-type-v"
      ∷ word "q8_0"
      ∷ word "--jinja"
      ∷ word "--metrics"
      ∷ word "--ubatch-size"
      ∷ word "1024"
      ∷ [];
  env =
      ("HIP_PLATFORM", "amd")
      ∷ ("LD_LIBRARY_PATH", append_text (lib_dir e.home) ":/opt/rocm/lib:/opt/rocm/lib64")
      ∷ (
        "PATH",
        append_text "/opt/rocm/bin:/opt/rocm/llvm/bin:/usr/local/bin:/usr/bin:/bin:" e.path_env,
      )
      ∷ [];
}

abbrev pub planned_in_process : WorkerSpec → PlannedWorker
planned_in_process worker = record {
  worker = worker;
  launch = candle_native;
  execution = from_backend worker.backend;
  command = in_process_placeholder worker;
}

abbrev pub planned_llama_cpp : WorkerSpec → ℕ → PlannedWorker
planned_llama_cpp worker layers = record {
  worker = worker;
  launch = llama_cpp_native layers;
  execution = from_backend worker.backend;
  command = in_process_placeholder worker;
}

abbrev pub planned_subprocess : Environment → WorkerSpec → String → PlannedWorker
planned_subprocess e worker path = record {
  worker = worker;
  launch = llama_server_subprocess path;
  execution = from_backend worker.backend;
  command = llama_server_command e worker path;
}

-- the entries of `candidates`
abbrev pub candidates : Environment → List String
candidates e =
    let fixed = "/usr/local/bin/llama-server" ∷ "/usr/bin/llama-server" ∷ [] in
    elim e.home [
      | none ↦ fixed
      | some home ↦
          let path = e.join home ".local/bin/llama-server" in
          if e.is_file path then path ∷ fixed else fixed
    ]

abbrev pub which_llama_server : Environment → Option String
which_llama_server e = find e.is_file (map (λ dir. e.join dir "llama-server") e.path_dirs)

abbrev pub or_else : Option String → Option String → Option String
or_else none b = b
or_else (some a) b = some a

-- the configured path, if it is a file
abbrev pub configured : Environment → Option String → Option String
configured e none = none
configured e (some path) = if e.is_file path then some path else none

unfoldable pub find_llama_server : Environment → Option String → Option String
find_llama_server e path =
    or_else (configured e path) (or_else (find e.is_file (candidates e)) (which_llama_server e))

abbrev pub is_amd : WorkerBackend → Bool
is_amd (amd_vulkan layers) = true
is_amd other = false
