-- ===== src/Native/Scheduler/Counts.antt =====
-- What a step of one request does to the permits and the counter.
use rs_llmctl.Base.{
  ℕ, zero, suc, ◌+◌, ◌≤◌, ◌<◌, ◌≡◌, refl, ◌∙◌, inl, inr, false, Option, none, some, List, [], ◌∷◌,
  arith, leb, Bool-cases,
}
use rs_llmctl.Base.Semaphore.{SemaphoreApi}
use rs_llmctl.Native.Scheduler.{
  is_cancelled, usize_mod, Position, arriving, asking, entering, backing_out, queued, leaving,
  admitted, running, done, refused, NativeSchedulerEngine, asked, advance, abandon,
}
use rs_llmctl.Native.Scheduler.Metadata.{is_cancelled-stamp}

-- a thread that holds a permit
abbrev pub permit_of : Position → ℕ
permit_of (leaving n m) = 1
permit_of (admitted n m) = 1
permit_of (running m) = 1
permit_of p = 0

-- a thread between its increment and its decrement of `waiting`
abbrev pub wait_of : Position → ℕ
wait_of (backing_out m) = 1
wait_of (queued n m) = 1
wait_of (leaving n m) = 1
wait_of p = 0

-- a thread that holds a wait guard
abbrev pub guard_of : Position → ℕ
guard_of (queued n m) = 1
guard_of (leaving n m) = 1
guard_of p = 0

abbrev pub total : (Position → ℕ) → List Position → ℕ
total weight [] = 0
total weight (p ∷ ps) = weight p + total weight ps

-- Past the first check no thread's request is cancelled.
abbrev pub Clean : Position → Type 0
Clean (arriving m) = Unit
Clean (asking m) = is_cancelled m ≡ false
Clean (entering m) = is_cancelled m ≡ false
Clean (backing_out m) = is_cancelled m ≡ false
Clean (queued n m) = is_cancelled m ≡ false
Clean (leaving n m) = is_cancelled m ≡ false
Clean (admitted n m) = is_cancelled m ≡ false
Clean (running m) = is_cancelled m ≡ false
Clean done = Unit
Clean (refused error) = Unit

module _ {S : Type 0} (api : SemaphoreApi S) where
  open api use {
    available_permits, try_acquire_owned, put_back, acquire_some, acquire_none, available-put_back,
  }

  -- What one step of one thread does, where the others count `n` in `waiting`, of them `g` guards.
  pub record Kept (n g : ℕ) (e e' : NativeSchedulerEngine S) (p p' : Position) : Type 0 where
    pub config : e'.config ≡ e.config
    pub permits :
        available_permits e'.permits + permit_of p' ≡ available_permits e.permits + permit_of p
    pub waiting : e'.waiting ≡ n + wait_of p'
    pub guards :
        g + guard_of p ≤ e.config.max_queued_requests
        → g + guard_of p' ≤ e.config.max_queued_requests
    pub clean : Clean p → Clean p'

  Tried : S → Option S → Type 0
  Tried s none = Unit
  Tried s (some s') = available_permits s' + 1 ≡ available_permits s

  Tried-try_acquire_owned :
      (s : S) (k : ℕ) → available_permits s ≡ k → Tried s (try_acquire_owned s)
  unfolding Tried
  Tried-try_acquire_owned s zero h = rw (acquire_none s h) tt
  Tried-try_acquire_owned s (suc k) h =
      let (s', taken, left) = acquire_some s k h in rw taken (omega arith)

  asked-Kept :
      (n g : ℕ) (e : NativeSchedulerEngine S) (p missed got : Position) (o : Option S)
      → Tried e.permits o
      → e.waiting ≡ n + wait_of p
      → Kept n g e e p missed
      → permit_of got ≡ permit_of p + 1
      → wait_of got ≡ wait_of p
      → guard_of got ≡ guard_of p
      → (Clean p → Clean got)
      → Kept n g e (asked api e missed got o).0 p (asked api e missed got o).1
  unfolding Tried
  asked-Kept n g e p missed got none t w k a b c d = k
  asked-Kept n g e p missed got (some s') t w k a b c d = record {
    config = refl;
    permits = omega arith;
    waiting = omega arith;
    guards = λ x. omega arith;
    clean = d;
  }

  pub advance-Kept :
      (elapsed n g : ℕ) (e : NativeSchedulerEngine S) (p : Position)
      → e.waiting ≡ n + wait_of p
      → g ≤ n
      → n + 1 < usize_mod
      → Kept n g e (advance api elapsed e p).0 p (advance api elapsed e p).1
  unfolding advance
  advance-Kept elapsed n g e (arriving m) w l h = elim (Bool-cases (is_cancelled m)) [
    | inl c ↦
        rw c
          (record { config = refl; permits = refl; waiting = w; guards = λ x. x; clean = λ c'. tt })
    | inr c ↦
        rw c
          (record { config = refl; permits = refl; waiting = w; guards = λ x. x; clean = λ c'. c })
  ]
  advance-Kept elapsed n g e (asking m) w l h =
      asked-Kept n g e (asking m) (entering m) (admitted 0 m) (try_acquire_owned e.permits)
        (Tried-try_acquire_owned e.permits (available_permits e.permits) refl) w
        (record { config = refl; permits = refl; waiting = w; guards = λ x. x; clean = λ c. c })
        refl refl refl (λ c. c)
  advance-Kept elapsed n g e (entering m) w l h =
      elim (Bool-cases (leb e.config.max_queued_requests e.waiting)) [
        | inl c ↦ rw c (record {
          config = refl;
          permits = refl;
          waiting = omega arith;
          guards = λ x. x;
          clean = λ c'. c';
        })
        | inr c ↦ rw c (record {
          config = refl;
          permits = refl;
          waiting = omega arith;
          guards = λ x. ground arith;
          clean = λ c'. c';
        })
      ]
  advance-Kept elapsed n g e (backing_out m) w l h = record {
    config = refl;
    permits = refl;
    waiting = omega arith;
    guards = λ x. x;
    clean = λ c. tt;
  }
  advance-Kept elapsed n g e (queued k m) w l h =
      asked-Kept n g e (queued k m) (queued k m) (leaving k m) (try_acquire_owned e.permits)
        (Tried-try_acquire_owned e.permits (available_permits e.permits) refl) w
        (record { config = refl; permits = refl; waiting = w; guards = λ x. x; clean = λ c. c })
        refl refl refl (λ c. c)
  advance-Kept elapsed n g e (leaving k m) w l h = record {
    config = refl;
    permits = refl;
    waiting = omega arith;
    guards = λ x. omega arith;
    clean = λ c. c;
  }
  advance-Kept elapsed n g e (admitted k m) w l h = elim (Bool-cases (is_cancelled m)) [
    | inl c ↦ rw c (record {
      config = refl;
      permits = omega (arith, available-put_back e.permits);
      waiting = w;
      guards = λ x. x;
      clean = λ c'. tt;
    })
    | inr c ↦ rw c (record {
      config = refl;
      permits = refl;
      waiting = w;
      guards = λ x. x;
      clean = λ c'. is_cancelled-stamp elapsed k e.config m ∙ c;
    })
  ]
  advance-Kept elapsed n g e (running m) w l h = record {
    config = refl;
    permits = omega (arith, available-put_back e.permits);
    waiting = w;
    guards = λ x. x;
    clean = λ c. tt;
  }
  advance-Kept elapsed n g e done w l h = record {
    config = refl;
    permits = refl;
    waiting = w;
    guards = λ x. x;
    clean = λ c. c;
  }
  advance-Kept elapsed n g e (refused error) w l h = record {
    config = refl;
    permits = refl;
    waiting = w;
    guards = λ x. x;
    clean = λ c. c;
  }

  pub abandon-Kept :
      (n g : ℕ) (e : NativeSchedulerEngine S) (p : Position)
      → e.waiting ≡ n + wait_of p
      → n + 1 < usize_mod
      → Kept n g e (abandon api e p).0 p (abandon api e p).1
  unfolding abandon
  abandon-Kept n g e (queued k m) w h = record {
    config = refl;
    permits = refl;
    waiting = omega arith;
    guards = λ x. omega arith;
    clean = λ c. tt;
  }
  abandon-Kept n g e (running m) w h = record {
    config = refl;
    permits = omega (arith, available-put_back e.permits);
    waiting = w;
    guards = λ x. x;
    clean = λ c. tt;
  }
  abandon-Kept n g e (arriving m) w h = record {
    config = refl;
    permits = refl;
    waiting = w;
    guards = λ x. x;
    clean = λ c. c;
  }
  abandon-Kept n g e p w h = record {
    config = refl;
    permits = refl;
    waiting = w;
    guards = λ x. x;
    clean = λ c. c;
  }
