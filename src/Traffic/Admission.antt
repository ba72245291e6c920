-- ===== src/Traffic/Admission.antt =====
-- src/server/traffic.rs: `AdmissionController`, a global semaphore and one for each scope.
-- `try_acquire_for_all` runs without waiting, and is one step here. A permit is the list of the
-- scopes whose semaphores it holds; it also holds one global permit. `holders` counts the live
-- permits of a semaphore, so `Arc::strong_count` is `1 + holders` under the map's lock. A permit
-- names its semaphore by the scope: an entry that is held is never dropped from the map.
pub mod Uses
pub mod Capacity
pub mod Outcomes
pub mod Limits
mod Examples
use rs_llmctl.Base.{
  ℕ, zero, suc, ◌+◌, ◌-◌, max, String, Bool, true, false, Option, none, some, List, [], ◌∷◌, ◌++◌,
  if◌then◌else◌, ltb, ◌==◌,
}
use rs_llmctl.Base.Semaphore.{SemaphoreApi}
use rs_llmctl.Base.Map.{Map, get, insert, retain, size}

-- a semaphore, and the live permits that hold its `Arc`
pub record Semaphore (S : Type 0) : Type 0 where
  pub permits : S
  pub holders : ℕ

pub record AdmissionController (S : Type 0) : Type 0 where
  pub global : S
  pub scoped : Map (Semaphore S)

pub data AdmissionError : Type 0 where
  busy : AdmissionError

pub record AdmissionPermit : Type 0 where
  pub scopes : List String

pub data Acquired {ℓ} (A : Type ℓ) : Type ℓ where
  permit : A → Acquired A
  refused : AdmissionError → Acquired A

abbrev pub scoped_admission_max_tracked : ℕ
scoped_admission_max_tracked = 4096

pub prune_scopes : {S : Type 0} → Map (Semaphore S) → Map (Semaphore S)
prune_scopes m =
    if ltb (size m) scoped_admission_max_tracked then m else retain (λ s. ltb 0 s.holders) m

-- `try_acquire_owned` has answered with what it leaves
abbrev pub taken : {S : Type 0} → Semaphore S → S → Semaphore S
taken s left = record { permits = left; holders = s.holders + 1 }

-- The global permit was taken, and it is dropped too when a scope is busy.
finish :
    {S : Type 0} (api : SemaphoreApi S) (left : S)
    → Map (Semaphore S) × Acquired (List String)
    → AdmissionController S × Acquired AdmissionPermit
finish api left (m, permit held) =
    (record { global = left; scoped = m }, permit (record { scopes = held }))
finish api left (m, refused e) = (record { global = api.put_back left; scoped = m }, refused e)

module _ {S : Type 0} (api : SemaphoreApi S) where
  pub new : ℕ → AdmissionController S
  new max_in_flight = record { global = api.create (max max_in_flight 1); scoped = [] }

  pub available_permits : AdmissionController S → ℕ
  available_permits c = api.available_permits c.global

  abbrev pub new_semaphore : ℕ → Semaphore S
  new_semaphore permits = record { permits = api.create permits; holders = 0 }

  -- the drop of an `OwnedSemaphorePermit`
  abbrev pub given_back : Semaphore S → Semaphore S
  given_back s = record { permits = api.put_back s.permits; holders = s.holders - 1 }

  -- `entry(scope).or_insert_with(..)`: the semaphore, and the map with it
  abbrev pub or_new : ℕ → Option (Semaphore S) → Semaphore S
  or_new limit none = new_semaphore (max limit 1)
  or_new limit (some s) = s

  pub ensure : String → ℕ → Map (Semaphore S) → Map (Semaphore S)
  unfolding prune_scopes
  ensure scope limit m = let m' = prune_scopes m in insert scope (or_new limit (get scope m')) m'

  -- the drop of one scope's permit
  pub release_scope : String → Map (Semaphore S) → Map (Semaphore S)
  release_scope scope m = elim (get scope m) [ none ↦ m | some s ↦ insert scope (given_back s) m ]

  pub release_scopes : List String → Map (Semaphore S) → Map (Semaphore S)
  release_scopes [] m = m
  release_scopes (s ∷ ss) m = release_scopes ss (release_scope s m)

  -- The loop over the scopes, with the permits that it holds so far. On `Busy` they are dropped.
  pub acquire_scopes :
      List (String × ℕ)
      → List String
      → Map (Semaphore S)
      → Map (Semaphore S) × Acquired (List String)
  acquire_scopes [] held m = (m, permit held)
  acquire_scopes ((scope, limit) ∷ rest) held m =
      let m' = ensure scope limit m in
      let s = or_new limit (get scope m') in
      elim (api.try_acquire_owned s.permits) [
        | none ↦ (release_scopes held m', refused busy)
        | some left ↦ acquire_scopes rest (held ++ scope ∷ []) (insert scope (taken s left) m')
      ]

  pub try_acquire_for_all :
      List (String × ℕ) → AdmissionController S → AdmissionController S × Acquired AdmissionPermit
  unfolding acquire_scopes finish
  try_acquire_for_all scopes c = elim (api.try_acquire_owned c.global) [
    | none ↦ (c, refused busy)
    | some left ↦ finish api left (acquire_scopes scopes [] c.scoped)
  ]

  -- the drop of an `AdmissionPermit`
  pub drop_permit : AdmissionPermit → AdmissionController S → AdmissionController S
  unfolding release_scopes
  drop_permit p c = record {
    global = api.put_back c.global;
    scoped = release_scopes p.scopes c.scoped;
  }
