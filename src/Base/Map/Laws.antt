-- ===== src/Base/Map/Laws.antt =====
-- What a key reads after each operation of a map, and that keys stay distinct.
use mathlib.Core.Path.{◌≡◌, refl}
use mathlib.Core.Logic.{inl, inr}
use mathlib.Core.Bool.{Bool}
use mathlib.Core.List.{[], ◌∷◌}
use mathlib.Core.Option.{Option, none, some}
use native.Mathlib.Omega.{arith}
use text.Mathlib.TextEquality.{eq_iff}
use Prim.Native.String.{String}
use rs_llmctl.Base.Tests.{if◌then◌else◌, str_eq, Option-cases}
use rs_llmctl.Base.Map.{Map, get, place, replace, insert, remove, retain, Distinct}

module _ {ℓ} {V : Type ℓ} where
  get-place :
      (k j : String) (v : V) (m : Map V)
      → get k m ≡ none
      → get j (place k v m) ≡ (if str_eq k j then some v else get j m)
  unfolding get place
  get-place k j v [] h = refl
  get-place k j v ((i, w) ∷ m) h =
      ground (arith, eq_iff k j, eq_iff i k, eq_iff i j, get-place k j v m)

  get-replace :
      (k j : String) (v w : V) (m : Map V)
      → get k m ≡ some w
      → get j (replace k v m) ≡ (if str_eq k j then some v else get j m)
  unfolding get replace
  get-replace k j v w [] h = ground arith
  get-replace k j v w ((i, u) ∷ m) h =
      ground (arith, eq_iff k j, eq_iff i k, eq_iff i j, get-replace k j v w m)

  pub get-insert :
      (k j : String) (v : V) (m : Map V)
      → get j (insert k v m) ≡ (if str_eq k j then some v else get j m)
  unfolding insert
  get-insert k j v m = elim (Option-cases (get k m)) [
    | inl e ↦ rw (e, insert) (get-place k j v m e)
    | inr (w, e) ↦ rw (e, insert) (get-replace k j v w m e)
  ]

  pub get-remove :
      (k j : String) (m : Map V) → get j (remove k m) ≡ (if str_eq k j then none else get j m)
  unfolding get remove
  get-remove k j [] = ground arith
  get-remove k j ((i, v) ∷ m) = ground (arith, get-remove k j m, eq_iff i k, eq_iff i j, eq_iff k j)

  -- what `retain` leaves of a value read
  abbrev pub kept : (V → Bool) → Option V → Option V
  kept keep none = none
  kept keep (some v) = if keep v then some v else none

  pub get-retain-none :
      (keep : V → Bool) (j : String) (m : Map V) → get j m ≡ none → get j (retain keep m) ≡ none
  unfolding get retain
  get-retain-none keep j [] h = refl
  get-retain-none keep j ((i, v) ∷ m) h = ground (arith, get-retain-none keep j m)

  pub get-retain :
      (keep : V → Bool) (j : String) (m : Map V)
      → Distinct m
      → get j (retain keep m) ≡ kept keep (get j m)
  unfolding get retain
  get-retain keep j [] d = refl
  get-retain keep j ((i, v) ∷ m) d =
      ground (arith, eq_iff i j, get-retain keep j m d.1, get-retain-none keep i m d.0)

  Distinct-place :
      (k : String) (v : V) (m : Map V) → get k m ≡ none → Distinct m → Distinct (place k v m)
  unfolding get place
  Distinct-place k v [] h d = ground arith
  Distinct-place k v ((i, w) ∷ m) h d =
      ground (arith, eq_iff i k, eq_iff k i, get-place k i v m, Distinct-place k v m)

  Distinct-replace :
      (k : String) (v w : V) (m : Map V) → get k m ≡ some w → Distinct m → Distinct (replace k v m)
  unfolding get replace
  Distinct-replace k v w [] h d = tt
  Distinct-replace k v w ((i, u) ∷ m) h d =
      ground (arith, eq_iff i k, eq_iff k i, get-replace k i v w m, Distinct-replace k v w m)

  pub Distinct-insert : (k : String) (v : V) (m : Map V) → Distinct m → Distinct (insert k v m)
  unfolding insert
  Distinct-insert k v m d = elim (Option-cases (get k m)) [
    | inl e ↦ rw (e, insert) (Distinct-place k v m e d)
    | inr (w, e) ↦ rw (e, insert) (Distinct-replace k v w m e d)
  ]

  pub Distinct-remove : (k : String) (m : Map V) → Distinct m → Distinct (remove k m)
  unfolding remove
  Distinct-remove k [] d = tt
  Distinct-remove k ((i, v) ∷ m) d =
      ground (arith, eq_iff i k, eq_iff k i, get-remove k i m, Distinct-remove k m d.1)

  pub Distinct-retain : (keep : V → Bool) (m : Map V) → Distinct m → Distinct (retain keep m)
  unfolding retain
  Distinct-retain keep [] d = tt
  Distinct-retain keep ((i, v) ∷ m) d =
      ground (arith, get-retain-none keep i m d.0, Distinct-retain keep m d.1)
