-- ===== src/Worker/Plan/Launches.antt =====
-- How a planned worker is launched, and which server binary is found.
use rs_llmctl.Base.{
  ℕ, ◌≡◌, refl, inl, inr, String, Bool, true, false, Option, none, some, List, [], ◌∷◌, map, arith,
  find, Option-cases, subst,
}
use rs_llmctl.Config.{ServerConfig, ResourceConfig, ModelConfig}
use rs_llmctl.Worker.Launch.{
  WorkerSpec, PlannedWorker, Environment, is_in_process, is_amd, candidates, find_llama_server,
  configured, llama_server_subprocess, cpu,
}
use rs_llmctl.Worker.Plan.{plan_backend, plan_worker, spec_at}

find-passes : (p : String → Bool) (xs : List String) (x : String) → find p xs ≡ some x → p x ≡ true
find-passes p [] x h = cc
find-passes p (y ∷ ys) x h = ground (arith, find-passes p ys x)

configured-is_file :
    (e : Environment) (path : Option String) (found : String)
    → configured e path ≡ some found
    → e.is_file found ≡ true
configured-is_file e none found h = cc
configured-is_file e (some p) found h = ground arith

find_llama_server-file :
    (e : Environment) (path : Option String) (found : String)
    → find_llama_server e path ≡ some found
    → e.is_file found ≡ true
unfolding find_llama_server
find_llama_server-file e path found h = elim (Option-cases (configured e path)) [
  | inr (a, c) ↦ configured-is_file e path found (ground arith)
  | inl c ↦ elim (Option-cases (find e.is_file (candidates e))) [
    | inr (a, f) ↦ find-passes e.is_file (candidates e) found (ground arith)
    | inl f ↦
        find-passes e.is_file (map (λ dir. e.join dir "llama-server") e.path_dirs) found
          (ground arith)
  ]
]

find_llama_server-configured :
    (e : Environment) (p found : String)
    → find_llama_server e (some p) ≡ some found
    → e.is_file p ≡ true
    → found ≡ p
unfolding find_llama_server
find_llama_server-configured e p found h f = ground arith

-- A server binary that is found is a file, and it is the configured one if that is a file.
pub find_llama_server-is_file :
    (e : Environment) (path : Option String) (found : String)
    → find_llama_server e path ≡ some found
    → (e.is_file found ≡ true) × ((p : String) → path ≡ some p → e.is_file p ≡ true → found ≡ p)
find_llama_server-is_file e path found h = (
  find_llama_server-file e path found h,
  λ p q f.
      find_llama_server-configured e p found (subst (λ o. find_llama_server e o ≡ some found) q h)
        f,
)

-- What is said of the launch of a worker.
abbrev pub LaunchedRight : Bool → Environment → PlannedWorker → Type 0
LaunchedRight has_ffi e w =
    (is_in_process w.launch ≡ false
      → (is_amd w.worker.backend ≡ true)
        × (has_ffi ≡ false)
        × (e.is_file w.command.program ≡ true)
        × (w.launch ≡ llama_server_subprocess w.command.program))
    × (w.worker.backend ≡ cpu
        → (w.execution.gpu_layers ≡ 0) × (w.execution.device.device_index ≡ none))

plan_backend-LaunchedRight :
    (has_ffi : Bool) (e : Environment) (found : Option String) (worker : WorkerSpec)
    → ((path : String) → found ≡ some path → e.is_file path ≡ true)
    → LaunchedRight has_ffi e (plan_backend has_ffi e worker.backend found worker)
plan_backend-LaunchedRight has_ffi e none worker f = (ground arith, ground arith)
plan_backend-LaunchedRight has_ffi e (some path) worker f =
    let file = f path refl in (ground arith, ground arith)

-- A worker is planned as a subprocess only for an AMD backend without the FFI engine, its program is
-- then a file, and the program is what the launch plan names. A worker on the CPU has no GPU layers
-- and no device.
pub plan_worker-LaunchedRight :
    (has_ffi : Bool) (e : Environment) (server : ServerConfig) (resources : ResourceConfig)
    (index : ℕ) (model : ModelConfig)
    → LaunchedRight has_ffi e
        (plan_worker has_ffi e resources (spec_at server resources index model))
unfolding plan_worker spec_at
plan_worker-LaunchedRight has_ffi e server resources index model =
    plan_backend-LaunchedRight has_ffi e (find_llama_server e resources.llama_server_bin)
      (spec_at server resources index model) (find_llama_server-file e resources.llama_server_bin)
