-- ===== src/Native/Scheduler/Schedules.antt =====
-- The scheduler's permits and its queue under every schedule.
use rs_llmctl.Base.{
  ℕ, zero, suc, ◌+◌, ◌≤◌, ◌<◌, max, ◌≡◌, refl, ap, ◌∙◌, List, [], ◌∷◌, arith, length,
}
use rs_llmctl.Base.Semaphore.{SemaphoreApi}
use rs_llmctl.Native.Scheduler.{
  NativeSchedulerConfig, Metadata, usize_mod, Position, arriving, backing_out, queued, leaving,
  NativeSchedulerEngine, normalized, Action, moves, abandons, step_at, World, new, advance, abandon,
  act, schedule,
}
use rs_llmctl.Native.Scheduler.Counts.{
  permit_of, wait_of, guard_of, total, Clean, Kept, advance-Kept, abandon-Kept,
}

abbrev pub AllClean : List Position → Type 0
AllClean [] = Unit
AllClean (p ∷ ps) = Clean p × AllClean ps

wait-le : (p : Position) → wait_of p ≤ 1
wait-le (queued k m) = omega arith
wait-le (leaving k m) = omega arith
wait-le (backing_out m) = omega arith
wait-le p = omega arith

guard-le-wait : (p : Position) → guard_of p ≤ wait_of p
guard-le-wait (queued k m) = omega arith
guard-le-wait (leaving k m) = omega arith
guard-le-wait p = omega arith

total-wait-le : (ps : List Position) → total wait_of ps ≤ length ps
total-wait-le [] = omega arith
total-wait-le (p ∷ ps) = omega (arith, wait-le p, total-wait-le ps)

total-guard-le : (ps : List Position) → total guard_of ps ≤ total wait_of ps
total-guard-le [] = omega arith
total-guard-le (p ∷ ps) = omega (arith, guard-le-wait p, total-guard-le ps)

abbrev pub arrivals : List Metadata → List Position
arrivals [] = []
arrivals (m ∷ ms) = arriving m ∷ arrivals ms

total-arrivals :
    (weight : Position → ℕ) (ms : List Metadata)
    → ((m : Metadata) → weight (arriving m) ≡ 0)
    → total weight (arrivals ms) ≡ 0
total-arrivals weight [] h = refl
total-arrivals weight (m ∷ ms) h = omega (arith, h m, total-arrivals weight ms h)

AllClean-arrivals : (ms : List Metadata) → AllClean (arrivals ms)
AllClean-arrivals [] = tt
AllClean-arrivals (m ∷ ms) = (tt, AllClean-arrivals ms)

length-arrivals : (ms : List Metadata) → length (arrivals ms) ≡ length ms
length-arrivals [] = refl
length-arrivals (m ∷ ms) = ap suc (length-arrivals ms)

module _ {S : Type 0} (api : SemaphoreApi S) where
  open api use {create, available_permits, available-create}

  -- The same of a whole list of threads.
  record KeptAll (n g : ℕ) (e e' : NativeSchedulerEngine S) (ps ps' : List Position) : Type 0 where
    config : e'.config ≡ e.config
    permits :
        available_permits e'.permits + total permit_of ps'
        ≡ available_permits e.permits + total permit_of ps
    waiting : e'.waiting ≡ n + total wait_of ps'
    guards :
        g + total guard_of ps ≤ e.config.max_queued_requests
        → g + total guard_of ps' ≤ e.config.max_queued_requests
    clean : AllClean ps → AllClean ps'
    same_length : length ps' ≡ length ps

  step_at-KeptAll :
      (f : NativeSchedulerEngine S → Position → NativeSchedulerEngine S × Position)
      → ((n g : ℕ) (e : NativeSchedulerEngine S) (p : Position)
          → e.waiting ≡ n + wait_of p
          → g ≤ n
          → n + 1 < usize_mod
          → Kept api n g e (f e p).0 p (f e p).1)
      → (k n g : ℕ) (e : NativeSchedulerEngine S) (ps : List Position)
      → e.waiting ≡ n + total wait_of ps
      → g ≤ n
      → n + length ps < usize_mod
      → KeptAll n g e (step_at f k e ps).0 ps (step_at f k e ps).1
  step_at-KeptAll f step k n g e [] w l h = record {
    config = refl;
    permits = refl;
    waiting = w;
    guards = λ x. x;
    clean = λ c. c;
    same_length = refl;
  }
  step_at-KeptAll f step zero n g e (p ∷ ps) w l h =
      let k =
        step (n + total wait_of ps) (g + total guard_of ps) e p (omega arith)
          (omega (arith, total-guard-le ps)) (omega (arith, total-wait-le ps)) in
      record {
        config = k.config;
        permits = omega (arith, k.permits);
        waiting = omega (arith, k.waiting);
        guards = λ x. let y = k.guards (omega arith) in omega arith;
        clean = λ c. (k.clean c.0, c.1);
        same_length = refl;
      }
  step_at-KeptAll f step (suc i) n g e (p ∷ ps) w l h =
      let k =
        step_at-KeptAll f step i (n + wait_of p) (g + guard_of p) e ps (omega arith)
          (omega (arith, guard-le-wait p)) (omega (arith, wait-le p)) in
      record {
        config = k.config;
        permits = omega (arith, k.permits);
        waiting = omega (arith, k.waiting);
        guards = λ x. let y = k.guards (omega arith) in omega arith;
        clean = λ c. (c.0, k.clean c.1);
        same_length = ap suc k.same_length;
      }

  -- What holds of the scheduler of a configuration between two steps.
  pub record IsSound (c : NativeSchedulerConfig) (w : World S) : Type 0 where
    pub config : w.engine.config ≡ normalized c
    pub permits :
        available_permits w.engine.permits + total permit_of w.threads
        ≡ max c.max_concurrent_requests 1
    pub waiting : w.engine.waiting ≡ total wait_of w.threads
    pub guards : total guard_of w.threads ≤ c.max_queued_requests
    pub clean : AllClean w.threads
    pub few : length w.threads < usize_mod

  kept-IsSound :
      (c : NativeSchedulerConfig) (w : World S) (e : NativeSchedulerEngine S) (ps : List Position)
      → KeptAll 0 0 w.engine e w.threads ps
      → IsSound c w
      → IsSound c (record { engine = e; threads = ps })
  kept-IsSound c w e ps k v =
      let q : w.engine.config.max_queued_requests ≡ c.max_queued_requests =
        ap (λ d. d.max_queued_requests) v.config in
      record {
        config = k.config ∙ v.config;
        permits = omega (arith, k.permits, v.permits);
        waiting = omega (arith, k.waiting);
        guards = (let g = v.guards in let y = k.guards (omega arith) in omega arith);
        clean = k.clean v.clean;
        few = (let l = k.same_length in let f = v.few in omega arith);
      }

  act-IsSound :
      (c : NativeSchedulerConfig) (w : World S) (a : Action) → IsSound c w → IsSound c (act api w a)
  unfolding act
  act-IsSound c w (moves k elapsed) v =
      kept-IsSound c w _ _
        (step_at-KeptAll (advance api elapsed) (advance-Kept api elapsed) k 0 0 w.engine w.threads
          (omega (arith, v.waiting)) (omega arith) (let f = v.few in omega arith))
        v
  act-IsSound c w (abandons k) v =
      kept-IsSound c w _ _
        (step_at-KeptAll (abandon api) (λ n g e p x y z. abandon-Kept api n g e p x z) k 0 0
          w.engine w.threads (omega (arith, v.waiting)) (omega arith)
          (let f = v.few in omega arith))
        v

  schedule-IsSound :
      (c : NativeSchedulerConfig) (w : World S) (as' : List Action)
      → IsSound c w
      → IsSound c (schedule api w as')
  unfolding schedule
  schedule-IsSound c w [] v = v
  schedule-IsSound c w (a ∷ as') v = schedule-IsSound c (act api w a) as' (act-IsSound c w a v)

  -- a new engine, and requests that have not begun
  abbrev pub opened : NativeSchedulerConfig → List Metadata → World S
  opened c ms = record { engine = new api c; threads = arrivals ms }

  opened-IsSound :
      (c : NativeSchedulerConfig) (ms : List Metadata)
      → length ms < usize_mod
      → IsSound c (opened c ms)
  unfolding new
  opened-IsSound c ms h =
      let none_in = λ (weight : Position → ℕ). total-arrivals weight ms in
      record {
        config = refl;
        permits = omega (
          arith,
          available-create (max c.max_concurrent_requests 1),
          none_in permit_of (λ m. refl),
        );
        waiting = omega (arith, none_in wait_of (λ m. refl));
        guards = omega (arith, none_in guard_of (λ m. refl));
        clean = AllClean-arrivals ms;
        few = omega (arith, length-arrivals ms);
      }

  -- Fewer than 2^64 requests interleave in any way on a new engine, and any of them may be abandoned
  -- while it waits or runs. The requests that hold a permit and the free permits are always together
  -- `max_concurrent_requests` (at least one), so no permit is lost and no more requests run; at most
  -- `max_queued_requests` requests wait with a guard; and `waiting` counts exactly the requests
  -- between their increment and their decrement.
  pub schedule_limits :
      (c : NativeSchedulerConfig) (ms : List Metadata) (as' : List Action)
      → length ms < usize_mod
      → (let w = schedule api (opened c ms) as' in
          (total permit_of w.threads + available_permits w.engine.permits
            ≡ max c.max_concurrent_requests 1)
          × (total guard_of w.threads ≤ c.max_queued_requests)
          × (w.engine.waiting ≡ total wait_of w.threads))
  schedule_limits c ms as' h =
      let v = schedule-IsSound c (opened c ms) as' (opened-IsSound c ms h) in
      (omega (arith, v.permits), v.guards, v.waiting)

  -- Under the same schedules, no request whose metadata say that it is cancelled is past the first
  -- check: none waits, holds a permit, or runs in the inner engine.
  pub schedule-AllClean :
      (c : NativeSchedulerConfig) (ms : List Metadata) (as' : List Action)
      → length ms < usize_mod
      → AllClean (schedule api (opened c ms) as').threads
  schedule-AllClean c ms as' h =
      (schedule-IsSound c (opened c ms) as' (opened-IsSound c ms h)).clean
