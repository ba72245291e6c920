-- ===== src/Traffic/Admission/Limits.antt =====
-- Every history of acquisitions and drops.
use rs_llmctl.Base.{
  ℕ, zero, suc, ◌+◌, ◌≤◌, max, ◌≡◌, refl, ◌∙◌, inl, inr, String, Option, none, some, List, [], ◌∷◌,
  arith, length,
}
use rs_llmctl.Base.Semaphore.{SemaphoreApi, try_acquire_owned-cases}
use rs_llmctl.Base.Map.{Map, get}
use rs_llmctl.Traffic.Admission.{
  Semaphore, AdmissionController, AdmissionPermit, Acquired, permit, refused, new,
  available_permits, acquire_scopes, finish, try_acquire_for_all, drop_permit,
}
use rs_llmctl.Traffic.Admission.Uses.{holders, in_use, count, in_use-release_scopes}
use rs_llmctl.Traffic.Admission.Capacity.{
  HasCapacity, Agrees, IsFull, IsFull-acquire_scopes, IsFull-release_scopes,
}
use rs_llmctl.Traffic.Admission.Outcomes.{AllOrNothing, try_acquire_for_all-AllOrNothing}

-- The controller with the permits that requests hold.
pub record System (S : Type 0) : Type 0 where
  pub controller : AdmissionController S
  pub live : List AdmissionPermit

pub data Event : Type 0 where
  request : List (String × ℕ) → Event
  finished : ℕ → Event

-- the permit at a position, and the others
abbrev pub pick : ℕ → List AdmissionPermit → Option (AdmissionPermit × List AdmissionPermit)
pick k [] = none
pick zero (p ∷ ps) = some (p, ps)
pick (suc k) (p ∷ ps) = elim (pick k ps) [ none ↦ none | some (q, qs) ↦ some (q, p ∷ qs) ]

-- how many permits of a scope the live requests hold
abbrev pub total : String → List AdmissionPermit → ℕ
total j [] = 0
total j (p ∷ ps) = count j p.scopes + total j ps

abbrev pub EventAgrees : (String → ℕ) → List Event → Type 0
EventAgrees limits [] = Unit
EventAgrees limits (request scopes ∷ es) = Agrees limits scopes × EventAgrees limits es
EventAgrees limits (finished k ∷ es) = EventAgrees limits es

-- What taking out a permit does to the counts.
abbrev Picked : List AdmissionPermit → Option (AdmissionPermit × List AdmissionPermit) → Type 0
Picked ps none = Unit
Picked ps (some (q, qs)) =
    (length ps ≡ length qs + 1) × ((j : String) → total j ps ≡ count j q.scopes + total j qs)

Picked-cons :
    (p : AdmissionPermit) (ps : List AdmissionPermit)
    (o : Option (AdmissionPermit × List AdmissionPermit))
    → Picked ps o
    → Picked (p ∷ ps) (elim o [ none ↦ none | some (q, qs) ↦ some (q, p ∷ qs) ])
Picked-cons p ps none h = tt
Picked-cons p ps (some (q, qs)) h = (omega arith, λ j. let e = h.1 j in omega arith)

pick-Picked : (k : ℕ) (ps : List AdmissionPermit) → Picked ps (pick k ps)
pick-Picked k [] = tt
pick-Picked zero (p ∷ ps) = (omega arith, λ j. refl)
pick-Picked (suc k) (p ∷ ps) = Picked-cons p ps (pick k ps) (pick-Picked k ps)

abbrev admitted :
    {S : Type 0}
    → List AdmissionPermit
    → AdmissionController S × Acquired AdmissionPermit
    → System S
admitted live (c, permit p) = record { controller = c; live = p ∷ live }
admitted live (c, refused e) = record { controller = c; live = live }

module _ {S : Type 0} (api : SemaphoreApi S) where
  -- A request that arrives, or one that ends (its permit is dropped).
  pub system_step : System S → Event → System S
  system_step s (request scopes) = admitted s.live (try_acquire_for_all api scopes s.controller)
  system_step s (finished k) = elim (pick k s.live) [
    | none ↦ s
    | some (p, others) ↦ record { controller = drop_permit api p s.controller; live = others }
  ]

  pub history : System S → List Event → System S
  history s [] = s
  history s (e ∷ es) = history (system_step s e) es

  pub start : ℕ → System S
  start max_in_flight = record { controller = new api max_in_flight; live = [] }

module _ {S : Type 0} (api : SemaphoreApi S) (limits : String → ℕ) (max_in_flight : ℕ) where
  pub record IsSound (s : System S) : Type 0 where
    pub full : IsFull api limits s.controller.scoped
    pub uses : (j : String) → in_use s.controller.scoped j ≡ total j s.live
    pub permits : available_permits api s.controller + length s.live ≡ max max_in_flight 1

  admitted-IsSound :
      (s : System S) (scopes : List (String × ℕ))
      (r : AdmissionController S × Acquired AdmissionPermit)
      → IsSound s
      → IsFull api limits r.0.scoped
      → ((j : String) → AllOrNothing api s.controller scopes j r)
      → IsSound (admitted s.live r)
  admitted-IsSound s scopes (c, permit p) v f h = record {
    full = f;
    uses = λ j. let a = h j in rw a.0 (omega (arith, v.uses j));
    permits = let a = h "" in omega (arith, a.2, v.permits);
  }
  admitted-IsSound s scopes (c, refused e) v f h = record {
    full = f;
    uses = λ j. (h j).0 ∙ v.uses j;
    permits = omega (arith, (h "").1, v.permits);
  }

  finish-scoped :
      (left : S) (r : Map (Semaphore S) × Acquired (List String))
      → (finish api left r).0.scoped ≡ r.0
  unfolding finish
  finish-scoped left (m, permit held) = refl
  finish-scoped left (m, refused e) = refl

  try_acquire_for_all-IsFull :
      (scopes : List (String × ℕ)) (c : AdmissionController S)
      → Agrees limits scopes
      → IsFull api limits c.scoped
      → IsFull api limits (try_acquire_for_all api scopes c).0.scoped
  unfolding try_acquire_for_all
  try_acquire_for_all-IsFull scopes c a f = elim (try_acquire_owned-cases api c.global) [
    | inl (e, full) ↦ rw (e, try_acquire_for_all) f
    | inr (left, e, more) ↦
        rw (e, try_acquire_for_all)
          (rw (finish-scoped left (acquire_scopes api scopes [] c.scoped))
            (IsFull-acquire_scopes api limits scopes [] c.scoped a (λ j. omega arith) f))
  ]

  finished-IsSound :
      (s : System S) (o : Option (AdmissionPermit × List AdmissionPermit))
      → IsSound s
      → Picked s.live o
      → IsSound (elim o [
        | none ↦ s
        | some (p, others) ↦ record { controller = drop_permit api p s.controller; live = others }
      ])
  unfolding drop_permit available_permits
  finished-IsSound s none v h = v
  finished-IsSound s (some (p, others)) v h = record {
    full =
        IsFull-release_scopes api limits p.scopes s.controller.scoped
          (λ j. let e = h.1 j in omega (arith, v.uses j)) v.full;
    uses = λ j.
        let e = h.1 j in
        omega (arith, v.uses j, in_use-release_scopes api p.scopes s.controller.scoped j);
    permits = omega (arith, v.permits, api.available-put_back s.controller.global);
  }

  system_step-IsSound :
      (s : System S) (e : Event)
      → EventAgrees limits (e ∷ [])
      → IsSound s
      → IsSound (system_step api s e)
  unfolding system_step
  system_step-IsSound s (request scopes) a v =
      admitted-IsSound s scopes (try_acquire_for_all api scopes s.controller) v
        (try_acquire_for_all-IsFull scopes s.controller a.0 v.full)
        (λ j. try_acquire_for_all-AllOrNothing api scopes s.controller j v.full.distinct)
  system_step-IsSound s (finished k) a v =
      finished-IsSound s (pick k s.live) v (pick-Picked k s.live)

  pub history-IsSound :
      (s : System S) (es : List Event)
      → EventAgrees limits es
      → IsSound s
      → IsSound (history api s es)
  unfolding history
  history-IsSound s [] a v = v
  history-IsSound s (request scopes ∷ es) a v =
      history-IsSound (system_step api s (request scopes)) es a.1
        (system_step-IsSound s (request scopes) (a.0, tt) v)
  history-IsSound s (finished k ∷ es) a v =
      history-IsSound (system_step api s (finished k)) es a
        (system_step-IsSound s (finished k) tt v)

  start-IsSound : IsSound (start api max_in_flight)
  unfolding start new get available_permits
  start-IsSound = record {
    full = record { distinct = tt; capacity = λ j. tt };
    uses = λ j. refl;
    permits = omega (arith, api.available-create (max max_in_flight 1));
  }

  holders-le : (n : ℕ) (o : Option (Semaphore S)) → HasCapacity api n o → holders o ≤ n
  holders-le n none h = omega arith
  holders-le n (some s) h = omega arith

  -- Where every request asks the same limit for the same scope (`limits`, at least one), then after
  -- any history of requests and ends of requests from a new controller: the live requests hold at
  -- most `limits j` permits of each scope `j`, and the requests in flight are as many as
  -- `max_in_flight` (at least one) less the free global permits.
  pub history-limits :
      (es : List Event) (j : String)
      → EventAgrees limits es
      → (total j (history api (start api max_in_flight) es).live ≤ limits j)
        × (length (history api (start api max_in_flight) es).live
              + available_permits api (history api (start api max_in_flight) es).controller
            ≡ max max_in_flight 1)
  history-limits es j a =
      let s = history api (start api max_in_flight) es in
      let v = history-IsSound (start api max_in_flight) es a start-IsSound in
      (
        omega (
          arith,
          v.uses j,
          holders-le (limits j) (get j s.controller.scoped) (v.full.capacity j),
        ),
        omega (arith, v.permits),
      )
