-- ===== src/Worker/Plan/Ports.antt =====
-- The worker of each active model, and its port.
use rs_llmctl.Base.{
  ℕ, zero, suc, ◌+◌, ◌≤◌, ◌<◌, min, ◌≡◌, refl, ap, subst, ◌∙◌, String, Bool, Option, none, some,
  List, [], ◌∷◌, arith, filter, map_index, get_elem?,
}
use rs_llmctl.Config.{ModelConfig, ServerConfig, ResourceConfig}
use rs_llmctl.Worker.Launch.{u16_max, WorkerSpec, PlannedWorker, Environment}
use rs_llmctl.Worker.Plan.{plan_without_ffi, plan_worker, spec_at, is_active, from_config}

abbrev pub option_map : {A B : Type 0} → (A → B) → Option A → Option B
option_map f none = none
option_map f (some a) = some (f a)

pub get_elem?-map_index :
    {A B : Type 0} (f : ℕ → A → B) (k : ℕ) (xs : List A) (i : ℕ)
    → get_elem? (map_index f k xs) i ≡ option_map (f (k + i)) (get_elem? xs i)
get_elem?-map_index f k [] i = refl
get_elem?-map_index f k (x ∷ xs) zero = ap (λ n. some (f n x)) (omega arith)
get_elem?-map_index f k (x ∷ xs) (suc i) =
    get_elem?-map_index f (suc k) xs i ∙ ap (λ n. option_map (f n) (get_elem? xs i)) (omega arith)

get_elem?-map_index_zero :
    {A B : Type 0} (f : ℕ → A → B) (xs : List A) (i : ℕ)
    → get_elem? (map_index f 0 xs) i ≡ option_map (f i) (get_elem? xs i)
get_elem?-map_index_zero f xs i =
    get_elem?-map_index f 0 xs i ∙ ap (λ n. option_map (f n) (get_elem? xs i)) (omega arith)

worker-plan_without_ffi :
    (e : Environment) (path : Option String) (worker : WorkerSpec)
    → (plan_without_ffi e path worker).worker ≡ worker
worker-plan_without_ffi e none worker = refl
worker-plan_without_ffi e (some path) worker = refl

pub worker-plan_worker :
    (has_ffi : Bool) (e : Environment) (resources : ResourceConfig) (worker : WorkerSpec)
    → (plan_worker has_ffi e resources worker).worker ≡ worker
unfolding plan_worker
worker-plan_worker has_ffi e resources worker = ground arith

module _ {L : Type 0} (has_ffi : Bool) (e : Environment) (limits : L) (models : List ModelConfig)
    (server : ServerConfig) (resources : ResourceConfig) where
  abbrev pub Serves : ℕ → Option ModelConfig → Option PlannedWorker → Type 0
  Serves i none w = w ≡ none
  Serves i (some model) none = ⊥
  Serves i (some model) (some w) =
      (w.worker.id ≡ model.alias)
      × (w.worker.model ≡ model)
      × (w.worker.port ≡ min u16_max (server.worker_base_port + i))

  serves :
      (i : ℕ) (o : Option ModelConfig)
      → Serves i o (
          option_map
            (λ model. plan_worker has_ffi e resources (spec_at server resources i model))
            o)
  unfolding spec_at
  serves i none = refl
  serves i (some model) =
      let w = worker-plan_worker has_ffi e resources (spec_at server resources i model) in
      rw w (refl, refl, omega arith)

  -- The active models (of positive weight) have one worker each, in their order, and no other has.
  -- The worker at an index bears the model's alias and serves the model at the base port plus the
  -- index, or at 65535 if that is larger.
  pub from_config-Serves :
      (i : ℕ)
      → Serves i
          (get_elem? (filter is_active models) i)
          (get_elem? (from_config has_ffi e limits models server resources).workers i)
  unfolding from_config
  from_config-Serves i =
      rw
        (get_elem?-map_index_zero
          (λ index model. plan_worker has_ffi e resources (spec_at server resources index model))
          (filter is_active models) i)
        (serves i (get_elem? (filter is_active models) i))

  port_of :
      (i : ℕ) (o : Option ModelConfig) (w : PlannedWorker)
      → Serves i o (some w)
      → w.worker.port ≡ min u16_max (server.worker_base_port + i)
  port_of i none w h = cc
  port_of i (some model) w h = h.2

  port_at :
      (i : ℕ) (w : PlannedWorker)
      → get_elem? (from_config has_ffi e limits models server resources).workers i ≡ some w
      → w.worker.port ≡ min u16_max (server.worker_base_port + i)
  port_at i w h =
      port_of i (get_elem? (filter is_active models) i) w
        (subst (Serves i (get_elem? (filter is_active models) i)) h (from_config-Serves i))

  -- As long as the base port plus the index of the later of two workers is at most 65535, the two
  -- have different ports, in their order; and where the base port plus the index of the earlier is
  -- at least 65535, the two share the port 65535.
  pub from_config-ports :
      (i j : ℕ) (v w : PlannedWorker)
      → get_elem? (from_config has_ffi e limits models server resources).workers i ≡ some v
      → get_elem? (from_config has_ffi e limits models server resources).workers j ≡ some w
      → i < j
      → (server.worker_base_port + j ≤ u16_max → v.worker.port < w.worker.port)
        × (u16_max ≤ server.worker_base_port + i
            → (v.worker.port ≡ u16_max) × (w.worker.port ≡ u16_max))
  from_config-ports i j v w hv hw h =
      let a = port_at i v hv in
      let b = port_at j w hw in ((λ n. omega arith), (λ n. (omega arith, omega arith)))
