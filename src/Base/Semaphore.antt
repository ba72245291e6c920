-- ===== src/Base/Semaphore.antt =====
-- `tokio::sync::Semaphore`, as its documentation describes it: an interface with what the program
-- relies on. An owned permit that is dropped is put back; nothing here closes a semaphore.
use Prim.Native.Nat.{ℕ, zero, suc}
use mathlib.Core.Path.{◌≡◌, refl}
use mathlib.Core.Logic.{◌⊎◌, inl, inr}
use mathlib.Core.Option.{Option, none, some}
use native.Mathlib.Omega.{arith}

pub record SemaphoreApi (S : Type 0) : Type 0 where
  pub create : ℕ → S
  pub available_permits : S → ℕ
  pub try_acquire_owned : S → Option S
  pub put_back : S → S
  pub available-create : (n : ℕ) → available_permits (create n) ≡ n
  pub acquire_some :
      (s : S) (n : ℕ)
      → available_permits s ≡ suc n
      → (s' : S) × (try_acquire_owned s ≡ some s') × (available_permits s' ≡ n)
  pub acquire_none : (s : S) → available_permits s ≡ 0 → try_acquire_owned s ≡ none
  pub available-put_back : (s : S) → available_permits (put_back s) ≡ suc (available_permits s)

-- A counter meets the interface.
take_one : ℕ → Option ℕ
take_one zero = none
take_one (suc n) = some n

take_one-some : (s n : ℕ) → s ≡ suc n → (s' : ℕ) × (take_one s ≡ some s') × (s' ≡ n)
unfolding take_one
take_one-some zero n h = cc
take_one-some (suc s) n h = (s, refl, omega arith)

take_one-none : (s : ℕ) → s ≡ 0 → take_one s ≡ none
unfolding take_one
take_one-none zero h = refl
take_one-none (suc s) h = absurd (omega arith)

unfoldable pub counter : SemaphoreApi ℕ
unfolding take_one take_one-some take_one-none
counter = record {
  create = λ n. n;
  available_permits = λ s. s;
  try_acquire_owned = take_one;
  put_back = λ s. suc s;
  available-create = λ n. refl;
  acquire_some = take_one-some;
  acquire_none = take_one-none;
  available-put_back = λ s. refl;
}

-- both answers of `try_acquire_owned`, with what they say of the free permits
pub try_acquire_owned-cases :
    {S : Type 0} (api : SemaphoreApi S) (s : S)
    → ((api.try_acquire_owned s ≡ none) × (api.available_permits s ≡ 0))
      ⊎ ((left : S) × (api.try_acquire_owned s ≡ some left)
          × (api.available_permits s ≡ suc (api.available_permits left)))
try_acquire_owned-cases api s = at_count (api.available_permits s) refl
  where
    at_count :
        (n : ℕ)
        → api.available_permits s ≡ n
        → ((api.try_acquire_owned s ≡ none) × (api.available_permits s ≡ 0))
          ⊎ ((left : _) × (api.try_acquire_owned s ≡ some left)
              × (api.available_permits s ≡ suc (api.available_permits left)))
    at_count zero h = inl (api.acquire_none s h, h)
    at_count (suc n) h =
        let (left, took, rest) = api.acquire_some s n h in inr (left, took, omega arith)
