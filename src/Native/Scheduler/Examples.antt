-- ===== src/Native/Scheduler/Examples.antt =====
-- Three requests on an engine with one permit and a queue of one, and the theorems at them.
use rs_llmctl.Base.{◌+◌, ◌≤◌, max, ◌≡◌, refl, List, [], ◌∷◌, arith, ◌++◌}
use rs_llmctl.Base.Map
use rs_llmctl.Base.Semaphore.{counter}
use rs_llmctl.Native.Scheduler.{
  NativeSchedulerConfig, default_config, number, Metadata, done, queued, refused, queue_full,
  Action, moves, abandons, is_cancelled, new, schedule, act,
}
use rs_llmctl.Native.Scheduler.Counts.{permit_of, wait_of, guard_of, total}
use rs_llmctl.Native.Scheduler.Schedules.{AllClean, opened, schedule_limits, schedule-AllClean}

abbrev one_by_one : NativeSchedulerConfig
one_by_one = record default_config { max_concurrent_requests = 0; max_queued_requests = 1 }

abbrev requests : List Metadata
requests = [] ∷ [] ∷ [] ∷ []

-- The first gets the permit, the second waits, the third finds the queue full.
abbrev steps : List Action
steps =
    moves 0 0
    ∷ moves 0 0
    ∷ moves 1 0
    ∷ moves 1 0
    ∷ moves 1 0
    ∷ moves 2 0
    ∷ moves 2 0
    ∷ moves 2 0
    ∷ moves 2 0
    ∷ moves 0 0
    ∷ moves 0 0
    ∷ []

ended :
    (schedule counter (opened counter one_by_one requests) steps).threads
    ≡ done ∷ queued 0 [] ∷ refused queue_full ∷ []
unfolding schedule act new is_cancelled Map.get counter
ended = refl

schedule_limits_example :
    (let w = schedule counter (opened counter one_by_one requests) (steps ++ abandons 1 ∷ []) in
      (total permit_of w.threads + counter.available_permits w.engine.permits ≡ max 0 1)
      × (total guard_of w.threads ≤ 1)
      × (w.engine.waiting ≡ total wait_of w.threads))
schedule_limits_example =
    schedule_limits counter one_by_one requests (steps ++ abandons 1 ∷ []) (omega arith)

schedule-AllClean_example :
    AllClean (schedule counter (opened counter one_by_one requests) steps).threads
schedule-AllClean_example = schedule-AllClean counter one_by_one requests steps (omega arith)

abbrev metadata : Metadata
metadata = ("tenant", number 7) ∷ []
