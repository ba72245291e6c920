-- ===== src/Base/Map.antt =====
-- `BTreeMap<String, V>`: an association list in the order of the keys. The laws use only that a
-- new key is placed when it is absent.
pub mod Laws
use Prim.Native.Nat.{ℕ}
use Prim.Native.String.{String, compare}
use Prim.Native.Nat.{Ordering}
use mathlib.Core.Path.{◌≡◌}
use mathlib.Core.Bool.{Bool}
use mathlib.Core.List.{List, [], ◌∷◌}
use mathlib.Core.Option.{Option, none, some}
use rs_llmctl.Base.Tests.{if◌then◌else◌, str_eq}
use rs_llmctl.Base.Lists.{length}

abbrev pub Map {ℓ} : Type ℓ → Type ℓ
Map V = List (String × V)

module _ {ℓ} {V : Type ℓ} where
  -- `get(&key)`
  unfoldable pub get : String → Map V → Option V
  get k [] = none
  get k ((j, v) ∷ m) = if str_eq j k then some v else get k m

  -- a new key, before the first greater one
  place : String → V → Map V → Map V
  place k v [] = (k, v) ∷ []
  place k v ((j, w) ∷ m) =
      let later = place k v m in
      elim (compare k j) [ Ordering.lt ↦ (k, v) ∷ (j, w) ∷ m | _ ↦ (j, w) ∷ later ]

  replace : String → V → Map V → Map V
  replace k v [] = []
  replace k v ((j, w) ∷ m) = if str_eq j k then (j, v) ∷ m else (j, w) ∷ replace k v m

  -- `insert(key, value)`
  unfoldable pub insert : String → V → Map V → Map V
  unfolding place replace get
  insert k v m = elim (get k m) [ none ↦ place k v m | some _ ↦ replace k v m ]

  -- `remove(&key)`
  unfoldable pub remove : String → Map V → Map V
  remove k [] = []
  remove k ((j, v) ∷ m) = let rest = remove k m in if str_eq j k then rest else (j, v) ∷ rest

  -- `retain(|_, value| keep)`
  unfoldable pub retain : (V → Bool) → Map V → Map V
  retain keep [] = []
  retain keep ((j, v) ∷ m) = let rest = retain keep m in if keep v then (j, v) ∷ rest else rest

  -- Each key stands once.
  abbrev pub Distinct : Map V → Type ℓ
  Distinct [] = Unit
  Distinct ((k, v) ∷ m) = (get k m ≡ none) × Distinct m

-- `len()`
abbrev pub size {ℓ} : {V : Type ℓ} → Map V → ℕ
size m = length m
