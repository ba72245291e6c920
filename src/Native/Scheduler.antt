-- ===== src/Native/Scheduler.antt =====
-- src/native/scheduler.rs: the requests of one `NativeSchedulerEngine`, as threads that interleave at
-- each operation on the shared semaphore and on the atomic counter `waiting`. The semaphore is the
-- interface `SemaphoreApi`; which waiting request gets a free permit is the schedule's choice. A
-- request whose future is dropped while it waits or runs is the action `abandons`.
pub mod Metadata
pub mod Counts
pub mod Schedules
mod Examples
use rs_llmctl.Base.{
  ℕ, zero, suc, ◌+◌, ◌-◌, ◌%◌, max, min, String, Bool, true, false, Option, none, some, List, [],
  ◌∷◌, if◌then◌else◌, leb, u64_max,
}
use rs_llmctl.Base.Map.{Map, get, insert}
use rs_llmctl.Base.Semaphore.{SemaphoreApi}

pub record NativeSchedulerConfig : Type 0 where
  pub max_concurrent_requests : ℕ
  pub max_queued_requests : ℕ
  pub max_batch_size : ℕ
  pub max_batch_wait_ms : ℕ
  pub kv_cache_budget_bytes : ℕ

abbrev pub default_config : NativeSchedulerConfig
default_config = record {
  max_concurrent_requests = 1;
  max_queued_requests = 127;
  max_batch_size = 1;
  max_batch_wait_ms = 0;
  kv_cache_budget_bytes = 0;
}

-- A JSON value; `other` is an array or an object, by its text.
pub data Value : Type 0 where
  null : Value
  bool : Bool → Value
  number : ℕ → Value
  text other : String → Value

abbrev pub Metadata : Type 0
Metadata = Map Value

-- `as_bool().unwrap_or(false)` of the entry
abbrev pub bool_or_false : Option Value → Bool
bool_or_false (some (bool b)) = b
bool_or_false _ = false

-- whether `reject_cancelled_request` refuses
unfoldable pub is_cancelled : Metadata → Bool
is_cancelled metadata = bool_or_false (get "llmctl.scheduler.cancelled" metadata)

-- The entries that the stamp inserts, in its order; `elapsed_ms` is the time since the request came.
unfoldable pub stamps : ℕ → ℕ → NativeSchedulerConfig → List (String × Value)
stamps elapsed_ms queued_before_admit config =
    let wait_ms = min elapsed_ms u64_max in
    ("llmctl.scheduler.discipline", text "fifo")
    ∷ ("llmctl.scheduler.queue.implemented", bool true)
    ∷ ("llmctl.scheduler.queue_wait_ms", number wait_ms)
    ∷ ("llmctl.scheduler.admission_wait_ms", number wait_ms)
    ∷ ("llmctl.scheduler.queued_requests_before_admit", number queued_before_admit)
    ∷ ("llmctl.scheduler.max_concurrent_requests", number config.max_concurrent_requests)
    ∷ ("llmctl.scheduler.max_queued_requests", number config.max_queued_requests)
    ∷ ("llmctl.scheduler.batching.continuous.implemented", bool false)
    ∷ ("llmctl.scheduler.batching.phase_scheduling.implemented", bool true)
    ∷ ("llmctl.scheduler.phase", text "prefill-then-decode")
    ∷ ("llmctl.scheduler.prefill.phase", text "scheduled")
    ∷ ("llmctl.scheduler.decode.phase", text "scheduled")
    ∷ ("llmctl.scheduler.max_batch_size", number config.max_batch_size)
    ∷ ("llmctl.scheduler.max_wait_ms", number config.max_batch_wait_ms)
    ∷ ("llmctl.scheduler.kv_cache_budget_bytes", number config.kv_cache_budget_bytes)
    ∷ ("llmctl.scheduler.kv_cache.reuse_implemented", bool false)
    ∷ ("llmctl.scheduler.kv_cache.policy", text "request-local-reset")
    ∷ ("llmctl.scheduler.cancellation.admission_check_implemented", bool true)
    ∷ ("llmctl.scheduler.cancellation.decode_loop_check_implemented", bool false)
    ∷ []

abbrev pub insert_all : List (String × Value) → Metadata → Metadata
insert_all [] m = m
insert_all ((k, v) ∷ entries) m = insert_all entries (insert k v m)

unfoldable pub stamp_scheduler_metadata : ℕ → ℕ → NativeSchedulerConfig → Metadata → Metadata
unfolding stamps
stamp_scheduler_metadata elapsed_ms queued_before_admit config metadata =
    insert_all (stamps elapsed_ms queued_before_admit config) metadata

abbrev pub usize_mod : ℕ
usize_mod = 18446744073709551616

pub data SchedulerError : Type 0 where
  cancelled queue_full : SchedulerError

-- Where a request stands in `scheduled_native_chat`, with its metadata: `asking` is past the first
-- check, `entering` found no permit, `backing_out` found the queue full, `queued` holds the wait
-- guard, `leaving` holds it and a permit, `admitted` holds the permit, and `running` is in the
-- inner engine with stamped metadata.
pub data Position : Type 0 where
  arriving asking entering backing_out : Metadata → Position
  queued leaving admitted : ℕ → Metadata → Position
  running : Metadata → Position
  done : Position
  refused : SchedulerError → Position

pub record NativeSchedulerEngine (S : Type 0) : Type 0 where
  pub config : NativeSchedulerConfig
  pub permits : S
  pub waiting : ℕ

-- `NativeSchedulerEngine::new`
abbrev pub normalized : NativeSchedulerConfig → NativeSchedulerConfig
normalized c = record c {
  max_concurrent_requests = max c.max_concurrent_requests 1;
  max_batch_size = max c.max_batch_size 1;
}

-- A request thread moves (at the given time since it came), or its future is dropped.
pub data Action : Type 0 where
  moves : ℕ → ℕ → Action
  abandons : ℕ → Action

-- the thread at a position of the list takes a step
abbrev pub step_at {ℓ} : {E P : Type ℓ} → (E → P → E × P) → ℕ → E → List P → E × List P
step_at f k e [] = (e, [])
step_at f zero e (p ∷ ps) = let (e', p') = f e p in (e', p' ∷ ps)
step_at f (suc k) e (p ∷ ps) = let (e', ps') = step_at f k e ps in (e', p ∷ ps')

pub record World (S : Type 0) : Type 0 where
  pub engine : NativeSchedulerEngine S
  pub threads : List Position

-- `fetch_add` and `fetch_sub` on the counter
abbrev pub enter_wait : {S : Type 0} → NativeSchedulerEngine S → NativeSchedulerEngine S
enter_wait e = record e { waiting = (e.waiting + 1) % usize_mod }

abbrev pub leave_wait : {S : Type 0} → NativeSchedulerEngine S → NativeSchedulerEngine S
leave_wait e = record e { waiting = (e.waiting + usize_mod - 1) % usize_mod }

module _ {S : Type 0} (api : SemaphoreApi S) where
  open api use {create, try_acquire_owned, put_back}

  unfoldable pub new : NativeSchedulerConfig → NativeSchedulerEngine S
  new c = record {
    config = normalized c;
    permits = create (normalized c).max_concurrent_requests;
    waiting = 0;
  }

  abbrev pub put_permit : NativeSchedulerEngine S → NativeSchedulerEngine S
  put_permit e = record e { permits = put_back e.permits }

  -- with the permit that was taken, or without one
  abbrev pub asked :
      NativeSchedulerEngine S → Position → Position → Option S → NativeSchedulerEngine S × Position
  asked e missed got none = (e, missed)
  asked e missed got (some s) = (record e { permits = s }, got)

  pub advance : ℕ → NativeSchedulerEngine S → Position → NativeSchedulerEngine S × Position
  advance elapsed e (arriving m) = (e, if is_cancelled m then refused cancelled else asking m)
  advance elapsed e (asking m) = asked e (entering m) (admitted 0 m) (try_acquire_owned e.permits)
  advance elapsed e (entering m) = (
    enter_wait e,
    if leb e.config.max_queued_requests e.waiting then backing_out m else queued e.waiting m,
  )
  advance elapsed e (backing_out m) = (leave_wait e, refused queue_full)
  advance elapsed e (queued n m) = asked e (queued n m) (leaving n m) (try_acquire_owned e.permits)
  advance elapsed e (leaving n m) = (leave_wait e, admitted n m)
  advance elapsed e (admitted n m) =
      if is_cancelled m
      then (put_permit e, refused cancelled)
      else (e, running (stamp_scheduler_metadata elapsed n e.config m))
  advance elapsed e (running m) = (put_permit e, done)
  advance elapsed e done = (e, done)
  advance elapsed e (refused error) = (e, refused error)

  -- The future waits only in `queued` and `running`.
  pub abandon : NativeSchedulerEngine S → Position → NativeSchedulerEngine S × Position
  abandon e (queued n m) = (leave_wait e, done)
  abandon e (running m) = (put_permit e, done)
  abandon e (arriving m) = (e, arriving m)
  abandon e p = (e, p)

  pub act : World S → Action → World S
  unfolding advance abandon
  act w (moves k elapsed) =
      let (e, ps) = step_at (advance elapsed) k w.engine w.threads in
      record { engine = e; threads = ps }
  act w (abandons k) =
      let (e, ps) = step_at abandon k w.engine w.threads in record { engine = e; threads = ps }

  pub schedule : World S → List Action → World S
  schedule w [] = w
  schedule w (a ∷ as') = schedule (act w a) as'
