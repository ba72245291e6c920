-- ===== src/Worker/Gate/Drained.antt =====
-- The counter counts the requests, and a drained gate stays empty.
use rs_llmctl.Base.{
  ℕ, zero, suc, ◌+◌, ◌≤◌, ◌<◌, ◌≡◌, refl, ap, ◌∙◌, false, List, [], ◌∷◌, arith, length,
}
use rs_llmctl.Worker.Gate.{
  WorkerAdmission, usize_mod, ready, set_admitting, Position, outside, checked, entered, rejected,
  inside, advance, World, advance_at, Action, moves, closes, act, schedule,
}

-- a thread that the counter counts
abbrev pub weight : Position → ℕ
weight outside = 0
weight checked = 0
weight entered = 1
weight rejected = 1
weight inside = 1

abbrev pub counted : List Position → ℕ
counted [] = 0
counted (p ∷ ps) = weight p + counted ps

abbrev pub NotInside : Position → Type 0
NotInside inside = ⊥
NotInside outside = Unit
NotInside checked = Unit
NotInside entered = Unit
NotInside rejected = Unit

abbrev pub NoneInside : List Position → Type 0
NoneInside [] = Unit
NoneInside (p ∷ ps) = NotInside p × NoneInside ps

-- The counter is the number of threads between their increment and their decrement.
pub record IsCounted (w : World) : Type 0 where
  pub few : length w.threads < usize_mod
  pub exact : w.gate.in_flight ≡ counted w.threads

pub counted-le : (ps : List Position) → counted ps ≤ length ps
counted-le [] = omega arith
counted-le (outside ∷ ps) = omega (arith, counted-le ps)
counted-le (checked ∷ ps) = omega (arith, counted-le ps)
counted-le (entered ∷ ps) = omega (arith, counted-le ps)
counted-le (rejected ∷ ps) = omega (arith, counted-le ps)
counted-le (inside ∷ ps) = omega (arith, counted-le ps)

pub weight-le : (p : Position) → weight p ≤ 1
weight-le outside = omega arith
weight-le checked = omega arith
weight-le entered = omega arith
weight-le rejected = omega arith
weight-le inside = omega arith

pub advance-weight :
    (g : WorkerAdmission) (p : Position) (n : ℕ)
    → g.in_flight ≡ weight p + n
    → n + 1 < usize_mod
    → (advance g p).0.in_flight ≡ weight (advance g p).1 + n
unfolding advance
advance-weight g outside n e h = ground arith
advance-weight g checked n e h = omega arith
advance-weight g entered n e h = ground arith
advance-weight g rejected n e h = omega arith
advance-weight g inside n e h = omega arith

pub length-advance_at :
    (k : ℕ) (g : WorkerAdmission) (ps : List Position) → length (advance_at k g ps).1 ≡ length ps
unfolding advance_at
length-advance_at k g [] = refl
length-advance_at zero g (p ∷ ps) = refl
length-advance_at (suc k) g (p ∷ ps) = ap suc (length-advance_at k g ps)

-- `n` threads of the list's front are counted too.
advance_at-counted :
    (k n : ℕ) (g : WorkerAdmission) (ps : List Position)
    → g.in_flight ≡ n + counted ps
    → n + length ps < usize_mod
    → (advance_at k g ps).0.in_flight ≡ n + counted (advance_at k g ps).1
unfolding advance_at
advance_at-counted k n g [] e h = e
advance_at-counted zero n g (p ∷ ps) e h =
    advance-weight g p (n + counted ps) (omega arith) (omega (arith, counted-le ps)) ∙ omega arith
advance_at-counted (suc k) n g (p ∷ ps) e h =
    advance_at-counted k (weight p + n) g ps (omega arith) (omega (arith, counted-le (p ∷ [])))
    ∙ omega arith

pub act-IsCounted : (w : World) (a : Action) → IsCounted w → IsCounted (act w a)
unfolding act
act-IsCounted w (moves k) v = record {
  few = omega (arith, v.few, length-advance_at k w.gate w.threads);
  exact =
      advance_at-counted k 0 w.gate w.threads (v.exact ∙ omega arith) (omega (arith, v.few))
      ∙ omega arith;
}
act-IsCounted w closes v = record { few = v.few; exact = v.exact }

pub schedule-IsCounted : (w : World) (as' : List Action) → IsCounted w → IsCounted (schedule w as')
unfolding schedule
schedule-IsCounted w [] v = v
schedule-IsCounted w (a ∷ as') v = schedule-IsCounted (act w a) as' (act-IsCounted w a v)

-- The gate is closed and no thread holds a guard.
pub record IsDrained (w : World) : Type 0 where
  pub closed : w.gate.admitting ≡ false
  pub empty : NoneInside w.threads

pub admitting-advance :
    (g : WorkerAdmission) (p : Position) → (advance g p).0.admitting ≡ g.admitting
unfolding advance
admitting-advance g outside = refl
admitting-advance g checked = refl
admitting-advance g entered = refl
admitting-advance g rejected = refl
admitting-advance g inside = refl

admitting-advance_at :
    (k : ℕ) (g : WorkerAdmission) (ps : List Position)
    → (advance_at k g ps).0.admitting ≡ g.admitting
unfolding advance_at
admitting-advance_at k g [] = refl
admitting-advance_at zero g (p ∷ ps) = admitting-advance g p
admitting-advance_at (suc k) g (p ∷ ps) = admitting-advance_at k g ps

NotInside-advance :
    (g : WorkerAdmission) (p : Position)
    → g.admitting ≡ false
    → NotInside p
    → NotInside (advance g p).1
unfolding advance
NotInside-advance g outside c h = rw c tt
NotInside-advance g checked c h = tt
NotInside-advance g entered c h = rw c tt
NotInside-advance g rejected c h = tt
NotInside-advance g inside c h = tt

NoneInside-advance_at :
    (k : ℕ) (g : WorkerAdmission) (ps : List Position)
    → g.admitting ≡ false
    → NoneInside ps
    → NoneInside (advance_at k g ps).1
unfolding advance_at
NoneInside-advance_at k g [] c h = tt
NoneInside-advance_at zero g (p ∷ ps) c h = (NotInside-advance g p c h.0, h.1)
NoneInside-advance_at (suc k) g (p ∷ ps) c h = (h.0, NoneInside-advance_at k g ps c h.1)

act-IsDrained : (w : World) (a : Action) → IsDrained w → IsDrained (act w a)
unfolding act set_admitting
act-IsDrained w (moves k) v = record {
  closed = admitting-advance_at k w.gate w.threads ∙ v.closed;
  empty = NoneInside-advance_at k w.gate w.threads v.closed v.empty;
}
act-IsDrained w closes v = record { closed = refl; empty = v.empty }

schedule-IsDrained : (w : World) (as' : List Action) → IsDrained w → IsDrained (schedule w as')
unfolding schedule
schedule-IsDrained w [] v = v
schedule-IsDrained w (a ∷ as') v = schedule-IsDrained (act w a) as' (act-IsDrained w a v)

NoneInside-counted : (ps : List Position) → counted ps ≡ 0 → NoneInside ps
NoneInside-counted [] e = tt
NoneInside-counted (outside ∷ ps) e = (tt, NoneInside-counted ps (omega arith))
NoneInside-counted (checked ∷ ps) e = (tt, NoneInside-counted ps (omega arith))
NoneInside-counted (entered ∷ ps) e = absurd (omega arith)
NoneInside-counted (rejected ∷ ps) e = absurd (omega arith)
NoneInside-counted (inside ∷ ps) e = absurd (omega arith)

abbrev pub all_outside : ℕ → List Position
all_outside zero = []
all_outside (suc n) = outside ∷ all_outside n

pub length-all_outside : (n : ℕ) → length (all_outside n) ≡ n
length-all_outside zero = refl
length-all_outside (suc n) = ap suc (length-all_outside n)

counted-all_outside : (n : ℕ) → counted (all_outside n) ≡ 0
counted-all_outside zero = refl
counted-all_outside (suc n) = omega (arith, counted-all_outside n)

abbrev pub opened : ℕ → World
opened n = record { gate = ready; threads = all_outside n }

pub IsCounted-opened : (n : ℕ) → n < usize_mod → IsCounted (opened n)
unfolding ready
IsCounted-opened n h = record {
  few = omega (arith, length-all_outside n);
  exact = omega (arith, counted-all_outside n);
}

pub closed-act :
    (w : World) (a : Action) → w.gate.admitting ≡ false → (act w a).gate.admitting ≡ false
unfolding act set_admitting
closed-act w (moves k) c = admitting-advance_at k w.gate w.threads ∙ c
closed-act w closes c = refl

pub closed-schedule :
    (w : World) (as' : List Action)
    → w.gate.admitting ≡ false
    → (schedule w as').gate.admitting ≡ false
unfolding schedule
closed-schedule w [] c = c
closed-schedule w (a ∷ as') c = closed-schedule (act w a) as' (closed-act w a c)

pub closed-closes : (w : World) → (act w closes).gate.admitting ≡ false
unfolding act set_admitting
closed-closes w = refl

-- What `drain` relies on. A fresh gate is shared by fewer than 2^64 request threads, which
-- interleave in any way with each other and with the supervisor. Once the gate has been closed and
-- `in_flight` is then read as zero, no thread holds a guard, now or after any further schedule, also
-- a thread that had passed the first check before the gate closed.
pub schedule-IsDrained_of_zero :
    (n : ℕ) (before after later : List Action)
    → n < usize_mod
    → (schedule (act (schedule (opened n) before) closes) after).gate.in_flight ≡ 0
    → IsDrained (schedule (schedule (act (schedule (opened n) before) closes) after) later)
schedule-IsDrained_of_zero n before after later few zero_read =
    let w = act (schedule (opened n) before) closes in
    let v = schedule-IsCounted w after (
      act-IsCounted (schedule (opened n) before) closes
        (schedule-IsCounted (opened n) before (IsCounted-opened n few))) in
    schedule-IsDrained (schedule w after) later (record {
      closed = closed-schedule w after (closed-closes (schedule (opened n) before));
      empty = NoneInside-counted (schedule w after).threads (omega (arith, v.exact));
    })
