-- ===== src/Native/Scheduler/Metadata.antt =====
-- What the scheduler's stamp leaves of a request's metadata.
use rs_llmctl.Base.{ℕ, ◌≡◌, refl, ◌∙◌, String, false, some, List, [], ◌∷◌, arith, contains}
use rs_llmctl.Base.Map.{get, insert}
use rs_llmctl.Base.Map.Laws.{get-insert}
use rs_llmctl.Native.Scheduler.{
  NativeSchedulerConfig, Value, number, Metadata, is_cancelled, stamps, insert_all,
  stamp_scheduler_metadata,
}

abbrev pub entry_keys : List (String × Value) → List String
entry_keys [] = []
entry_keys ((k, v) ∷ entries) = k ∷ entry_keys entries

-- the keys that the stamp writes
abbrev pub stamped_keys : List String
stamped_keys =
    "llmctl.scheduler.discipline" ∷ "llmctl.scheduler.queue.implemented"
    ∷ "llmctl.scheduler.queue_wait_ms" ∷ "llmctl.scheduler.admission_wait_ms"
    ∷ "llmctl.scheduler.queued_requests_before_admit" ∷ "llmctl.scheduler.max_concurrent_requests"
    ∷ "llmctl.scheduler.max_queued_requests" ∷ "llmctl.scheduler.batching.continuous.implemented"
    ∷ "llmctl.scheduler.batching.phase_scheduling.implemented" ∷ "llmctl.scheduler.phase"
    ∷ "llmctl.scheduler.prefill.phase" ∷ "llmctl.scheduler.decode.phase"
    ∷ "llmctl.scheduler.max_batch_size" ∷ "llmctl.scheduler.max_wait_ms"
    ∷ "llmctl.scheduler.kv_cache_budget_bytes" ∷ "llmctl.scheduler.kv_cache.reuse_implemented"
    ∷ "llmctl.scheduler.kv_cache.policy"
    ∷ "llmctl.scheduler.cancellation.admission_check_implemented"
    ∷ "llmctl.scheduler.cancellation.decode_loop_check_implemented" ∷ []

get-insert_all :
    (k : String) (entries : List (String × Value)) (m : Metadata)
    → contains k (entry_keys entries) ≡ false
    → get k (insert_all entries m) ≡ get k m
get-insert_all k [] m h = refl
get-insert_all k ((j, v) ∷ entries) m h =
    get-insert_all k entries (insert j v m) (ground arith) ∙ (get-insert j k v m ∙ ground arith)

-- The stamp changes no key of the metadata but its own nineteen, and it writes how many requests
-- were queued before this one.
pub get-stamp :
    (elapsed queued : ℕ) (config : NativeSchedulerConfig) (m : Metadata) (k : String)
    → (contains k stamped_keys ≡ false
        → get k (stamp_scheduler_metadata elapsed queued config m) ≡ get k m)
      × (get "llmctl.scheduler.queued_requests_before_admit"
            (stamp_scheduler_metadata elapsed queued config m)
          ≡ some (number queued))
unfolding stamp_scheduler_metadata
get-stamp elapsed queued config m k =
    ((λ h. get-insert_all k (stamps elapsed queued config) m h), simp get-insert)

pub is_cancelled-stamp :
    (elapsed queued : ℕ) (config : NativeSchedulerConfig) (m : Metadata)
    → is_cancelled (stamp_scheduler_metadata elapsed queued config m) ≡ is_cancelled m
unfolding is_cancelled stamp_scheduler_metadata
is_cancelled-stamp elapsed queued config m = simp get-insert
