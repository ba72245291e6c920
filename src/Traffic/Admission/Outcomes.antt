-- ===== src/Traffic/Admission/Outcomes.antt =====
-- How an acquisition ends.
use rs_llmctl.Base.{ℕ, suc, ◌+◌, ◌≡◌, refl, sym, ◌∙◌, inl, inr, String, List, [], arith}
use rs_llmctl.Base.Semaphore.{SemaphoreApi, try_acquire_owned-cases}
use rs_llmctl.Base.Map.{Map, Distinct}
use rs_llmctl.Traffic.Admission.{
  Semaphore, AdmissionController, AdmissionPermit, Acquired, permit, refused, available_permits,
  acquire_scopes, finish, try_acquire_for_all,
}
use rs_llmctl.Traffic.Admission.Uses.{in_use, count, names, Settled, acquire_scopes-Settled}

module _ {S : Type 0} (api : SemaphoreApi S) where
  -- What an acquisition must have done to a scope and to the global permits.
  abbrev pub AllOrNothing :
      AdmissionController S
      → List (String × ℕ)
      → String
      → AdmissionController S × Acquired AdmissionPermit
      → Type 0
  AllOrNothing c scopes j (c', permit p) =
      (p.scopes ≡ names scopes)
      × (in_use c'.scoped j ≡ in_use c.scoped j + count j (names scopes))
      × (available_permits api c ≡ suc (available_permits api c'))
  AllOrNothing c scopes j (c', refused e) =
      (in_use c'.scoped j ≡ in_use c.scoped j)
      × (available_permits api c' ≡ available_permits api c)

  finish-AllOrNothing :
      (c : AdmissionController S) (left : S) (scopes : List (String × ℕ)) (j : String)
      (r : Map (Semaphore S) × Acquired (List String))
      → api.available_permits c.global ≡ suc (api.available_permits left)
      → Settled (in_use c.scoped j) j [] scopes r
      → AllOrNothing c scopes j (finish api left r)
  unfolding finish available_permits
  finish-AllOrNothing c left scopes j (m, permit held) free s = (s.1, s.0, free)
  finish-AllOrNothing c left scopes j (m, refused e) free s =
      (omega arith, api.available-put_back left ∙ sym free)

  -- An acquisition takes one global permit and one permit of every scope of its list, as often as
  -- the scope is listed, or it is refused and leaves the count of live permits of every scope and
  -- the count of free global permits as they were.
  pub try_acquire_for_all-AllOrNothing :
      (scopes : List (String × ℕ)) (c : AdmissionController S) (j : String)
      → Distinct c.scoped
      → AllOrNothing c scopes j (try_acquire_for_all api scopes c)
  unfolding try_acquire_for_all
  try_acquire_for_all-AllOrNothing scopes c j d = elim (try_acquire_owned-cases api c.global) [
    | inl (e, none_left) ↦ rw (e, try_acquire_for_all) (refl, refl)
    | inr (left, e, more) ↦
        rw (e, try_acquire_for_all)
          (finish-AllOrNothing c left scopes j (acquire_scopes api scopes [] c.scoped) more
            (acquire_scopes-Settled api scopes [] c.scoped j d (omega arith)))
  ]
