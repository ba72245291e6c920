-- ===== src/Base/Descending.antt =====
-- A sort whose test looks at a number first leaves that number descending.
use Prim.Native.Nat.{ℕ, ◌≤◌}
use mathlib.Core.Path.{◌≡◌}
use mathlib.Core.Logic.{inl, inr}
use mathlib.Core.Bool.{Bool, true, false}
use mathlib.Core.List.{List, [], ◌∷◌}
use native.Mathlib.Omega.{arith}
use rs_llmctl.Base.Tests.{Bool-cases}
use rs_llmctl.Base.Sort.{insert_by, sort_by}

module _ {ℓ} {A : Type ℓ} (key : A → ℕ) where
  abbrev pub AtMost : ℕ → List A → Type 0
  AtMost n [] = Unit
  AtMost n (x ∷ xs) = (key x ≤ n) × AtMost n xs

  abbrev pub Descends : List A → Type 0
  Descends [] = Unit
  Descends (x ∷ xs) = AtMost (key x) xs × Descends xs

  AtMost-mono : (m n : ℕ) (xs : List A) → m ≤ n → AtMost m xs → AtMost n xs
  AtMost-mono m n [] h a = tt
  AtMost-mono m n (x ∷ xs) h a = (let b = a.0 in omega arith, AtMost-mono m n xs h a.1)

  module _ (lt : A → A → Bool) (before : (a b : A) → lt a b ≡ true → key b ≤ key a)
      (after : (a b : A) → lt a b ≡ false → key a ≤ key b) where
    AtMost-insert_by :
        (n : ℕ) (x : A) (ys : List A) → key x ≤ n → AtMost n ys → AtMost n (insert_by lt x ys)
    unfolding insert_by
    AtMost-insert_by n x [] h a = (h, tt)
    AtMost-insert_by n x (y ∷ ys) h a = elim (Bool-cases (lt y x)) [
      | inl e ↦ rw e (a.0, AtMost-insert_by n x ys h a.1)
      | inr e ↦ rw e (h, a)
    ]

    Descends-insert_by : (x : A) (ys : List A) → Descends ys → Descends (insert_by lt x ys)
    unfolding insert_by
    Descends-insert_by x [] d = (tt, tt)
    Descends-insert_by x (y ∷ ys) d = elim (Bool-cases (lt y x)) [
      | inl e ↦ rw e (AtMost-insert_by (key y) x ys (before y x e) d.0, Descends-insert_by x ys d.1)
      | inr e ↦ rw e ((after y x e, AtMost-mono (key y) (key x) ys (after y x e) d.0), d)
    ]

    pub Descends-sort_by : (xs : List A) → Descends (sort_by lt xs)
    unfolding sort_by
    Descends-sort_by [] = tt
    Descends-sort_by (x ∷ xs) = Descends-insert_by x (sort_by lt xs) (Descends-sort_by xs)
