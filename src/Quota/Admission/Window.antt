-- ===== src/Quota/Admission/Window.antt =====
-- A team's requests per minute hold under every interleaving of its admissions.
use rs_llmctl.Base.{
  ℕ, zero, suc, ◌+◌, ◌-◌, ◌≤◌, ◌<◌, ◌≡◌, refl, inl, inr, String, Bool, true, false, ◌&&◌, Option,
  none, some, List, [], ◌∷◌, arith, leb, str_eq, eq_iff, Bool-cases,
}
use rs_llmctl.Quota.Rows.{QuotaDecisionRecord, count_rows, within}
use rs_llmctl.Quota.{minute}
use rs_llmctl.Quota.Admission.{
  LockScope, team_lock, subject_lock, quota_admission_scope, lock_eq, Pending, Admissions, locked,
  pick,
}

-- an admitted request of a team, from a time on
abbrev pub since : String → ℕ → QuotaDecisionRecord → Bool
since team from r = r.allowed && str_eq r.team team && leb from r.at

-- an admitted request of a team in the minute from a time
abbrev pub in_minute : String → ℕ → QuotaDecisionRecord → Bool
in_minute team from r = r.allowed && str_eq r.team team && within from (from + minute) r.at

pub count-le :
    (f g : QuotaDecisionRecord → Bool) (rs : List QuotaDecisionRecord)
    → ((r : QuotaDecisionRecord) → f r ≡ true → g r ≡ true)
    → count_rows f rs ≤ count_rows g rs
unfolding count_rows
count-le f g [] h = omega arith
count-le f g (r ∷ rs) h = let i = h r in ground (arith, count-le f g rs h)

-- every row stands before a time
abbrev pub AllBefore : ℕ → List QuotaDecisionRecord → Type 0
AllBefore now [] = Unit
AllBefore now (r ∷ rs) = (r.at < now) × AllBefore now rs

pub AllBefore-mono :
    (a b : ℕ) (rs : List QuotaDecisionRecord) → a ≤ b → AllBefore a rs → AllBefore b rs
AllBefore-mono a b [] h v = tt
AllBefore-mono a b (r ∷ rs) h v = (omega arith, AllBefore-mono a b rs h v.1)

-- No two admissions hold one lock.
abbrev pub Exclusive : List Pending → Type 0
Exclusive [] = Unit
Exclusive (e ∷ es) = (locked (quota_admission_scope e.principal) es ≡ false) × Exclusive es

pub lock_eq-sym : (a b : LockScope) → lock_eq a b ≡ lock_eq b a
lock_eq-sym (team_lock a) (team_lock b) = ground (arith, eq_iff a b, eq_iff b a)
lock_eq-sym (subject_lock a) (subject_lock b) = ground (arith, eq_iff a b, eq_iff b a)
lock_eq-sym (team_lock a) (subject_lock b) = refl
lock_eq-sym (subject_lock a) (team_lock b) = refl

-- who is picked from the rest was unlike the first, and what was free of the list is free of it
abbrev pub PickedFree : LockScope → Option (Pending × List Pending) → Type 0
PickedFree l none = Unit
PickedFree l (some (e, es)) =
    (lock_eq (quota_admission_scope e.principal) l ≡ false) × (locked l es ≡ false)

pub pick-PickedFree :
    (k : ℕ) (l : LockScope) (es : List Pending) → locked l es ≡ false → PickedFree l (pick k es)
pick-PickedFree k l [] h = tt
pick-PickedFree zero l (e ∷ es) h = (ground arith, ground arith)
pick-PickedFree (suc k) l (e ∷ es) h =
    cons-free (pick k es) (ground arith) (pick-PickedFree k l es (ground arith))
  where
    cons-free :
        (o : Option (Pending × List Pending))
        → lock_eq (quota_admission_scope e.principal) l ≡ false
        → PickedFree l o
        → PickedFree l (elim o [ none ↦ none | some (f, fs) ↦ some (f, e ∷ fs) ])
    cons-free none h' p = tt
    cons-free (some (f, fs)) h' p = (p.0, ground arith)

module _ (team : String) (limit : ℕ) where
  -- Each admitted request of the team had fewer than `limit` before it in its minute.
  abbrev pub Spaced : List QuotaDecisionRecord → Type 0
  Spaced [] = Unit
  Spaced (r ∷ rs) =
      (r.allowed && str_eq r.team team ≡ true → count_rows (since team (r.at - minute)) rs < limit)
      × Spaced rs

  pub Spaced-minute :
      (from : ℕ) (rs : List QuotaDecisionRecord)
      → Spaced rs
      → count_rows (in_minute team from) rs ≤ limit
  unfolding count_rows
  Spaced-minute from [] h = omega arith
  Spaced-minute from (r ∷ rs) h = elim (Bool-cases (in_minute team from r)) [
    | inl e ↦
        let mine : r.allowed && str_eq r.team team ≡ true = ground arith in
        let early : r.at - minute ≤ from = ground arith in
        let fewer =
          count-le (in_minute team from) (since team (r.at - minute)) rs (λ x hx. ground arith) in
        rw e (omega (arith, h.0 mine, fewer))
    | inr e ↦ rw e (omega (arith, Spaced-minute from rs h.1))
  ]

  -- The checked admissions of the team, if they were allowed, had room.
  abbrev pub HasRoom : ℕ → List QuotaDecisionRecord → Pending → Type 0
  HasRoom clock rs e =
      (e.checked ≤ clock)
      × (str_eq e.principal.team team && e.decision.allowed ≡ true
          → count_rows (since team (e.checked - minute)) rs < limit)

  abbrev pub AllRoom : ℕ → List QuotaDecisionRecord → List Pending → Type 0
  AllRoom clock rs [] = Unit
  AllRoom clock rs (e ∷ es) = HasRoom clock rs e × AllRoom clock rs es

  pub record IsLimited (clock : ℕ) (s : Admissions) : Type 0 where
    pub spaced : Spaced s.storage.quota_decisions
    pub before : AllBefore (suc clock) s.storage.quota_decisions
    pub room : AllRoom clock s.storage.quota_decisions s.pending
    pub exclusive : Exclusive s.pending

  pub AllRoom-later :
      (a b : ℕ) (rs : List QuotaDecisionRecord) (es : List Pending)
      → a ≤ b
      → AllRoom a rs es
      → AllRoom b rs es
  AllRoom-later a b rs [] h v = tt
  AllRoom-later a b rs (e ∷ es) h v = ((omega arith, v.0.1), AllRoom-later a b rs es h v.1)

  -- taking an admission out
  abbrev pub Picked : ℕ → List QuotaDecisionRecord → Option (Pending × List Pending) → Type 0
  Picked clock rs none = Unit
  Picked clock rs (some (e, es)) =
      HasRoom clock rs e
      × AllRoom clock rs es
      × Exclusive es
      × (locked (quota_admission_scope e.principal) es ≡ false)

  Picked-cons :
      (clock : ℕ) (rs : List QuotaDecisionRecord) (e : Pending)
      (o : Option (Pending × List Pending))
      → HasRoom clock rs e
      → PickedFree (quota_admission_scope e.principal) o
      → Picked clock rs o
      → Picked clock rs (elim o [ none ↦ none | some (f, fs) ↦ some (f, e ∷ fs) ])
  Picked-cons clock rs e none r p v = tt
  Picked-cons clock rs e (some (f, fs)) r p v = (
    v.0,
    (r, v.1),
    (p.1, v.2),
    ground (
      arith,
      lock_eq-sym (quota_admission_scope f.principal) (quota_admission_scope e.principal),
      p.0,
      v.3,
    ),
  )

  pub pick-Picked :
      (k clock : ℕ) (rs : List QuotaDecisionRecord) (es : List Pending)
      → AllRoom clock rs es
      → Exclusive es
      → Picked clock rs (pick k es)
  pick-Picked k clock rs [] r x = tt
  pick-Picked zero clock rs (e ∷ es) r x = (r.0, r.1, x.1, x.0)
  pick-Picked (suc k) clock rs (e ∷ es) r x =
      Picked-cons clock rs e (pick k es) r.0
        (pick-PickedFree k (quota_admission_scope e.principal) es x.0)
        (pick-Picked k clock rs es r.1 x.1)
