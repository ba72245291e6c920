-- ===== src/Base/Members.antt =====
-- What stands in a filtered list, in a sorted one, and at the first place that passes a test.
use mathlib.Core.Path.{◌≡◌, sym, ap, ◌∙◌}
use mathlib.Core.Logic.{inl, inr, ◌⊎◌}
use mathlib.Core.Bool.{Bool, true, false}
use mathlib.Core.List.{◌++◌, List, [], ◌∷◌, Memᴰ}
use mathlib.Core.List.Memᴰ
use mathlib.Core.Option.{none, some}
use rs_llmctl.Base.Tests.{Bool-cases}
use rs_llmctl.Base.Lists.{filter, find}
use rs_llmctl.Base.Sort.{insert_by, sort_by}

module _ {ℓ} {A : Type ℓ} where
  pub Mem-filter :
      (p : A → Bool) (x : A) (xs : List A) → Memᴰ x (filter p xs) → Memᴰ x xs × (p x ≡ true)
  Mem-filter p x [] h = absurd (Memᴰ.not-nil h)
  Mem-filter p x (y ∷ ys) h = elim (Bool-cases (p y)) [
    | inl e ↦
        let h' : Memᴰ x (y ∷ filter p ys) = rw e at h in
        elim (Memᴰ.cases_cons h') [
          | inl same ↦ (Memᴰ.head same, ap p same ∙ e)
          | inr later ↦ let r = Mem-filter p x ys later in (Memᴰ.tail r.0, r.1)
        ]
    | inr e ↦
        let h' : Memᴰ x (filter p ys) = rw e at h in
        let r = Mem-filter p x ys h' in (Memᴰ.tail r.0, r.1)
  ]

  pub filter-Mem :
      (p : A → Bool) (x : A) (xs : List A) → Memᴰ x xs → p x ≡ true → Memᴰ x (filter p xs)
  filter-Mem p x [] h t = h
  filter-Mem p x (y ∷ ys) h t = elim (Memᴰ.cases_cons h) [
    | inl same ↦ rw (sym (ap p same) ∙ t) (Memᴰ.head same)
    | inr later ↦ elim (Bool-cases (p y)) [
      | inl e ↦ rw e (Memᴰ.tail (filter-Mem p x ys later t))
      | inr e ↦ rw e (filter-Mem p x ys later t)
    ]
  ]

  pub find-some :
      (p : A → Bool) (x : A) (xs : List A) → find p xs ≡ some x → Memᴰ x xs × (p x ≡ true)
  find-some p x [] h = absurd cc
  find-some p x (y ∷ ys) h = elim (Bool-cases (p y)) [
    | inl e ↦
        let same : some y ≡ some x = rw e at h in let eq : x ≡ y = cc in (Memᴰ.head eq, ap p eq ∙ e)
    | inr e ↦
        let rest : find p ys ≡ some x = rw e at h in
        let r = find-some p x ys rest in (Memᴰ.tail r.0, r.1)
  ]

  -- What is found is the first that passes.
  pub find-first :
      (p : A → Bool) (x : A) (xs : List A)
      → find p xs ≡ some x
      → (before : List A) × (after : List A) × (xs ≡ before ++ x ∷ after)
        × ((y : A) → Memᴰ y before → p y ≡ false)
  find-first p x [] h = absurd cc
  find-first p x (y ∷ ys) h = elim (Bool-cases (p y)) [
    | inl e ↦
        let same : some y ≡ some x = rw e at h in
        let eq : y ≡ x = cc in ([], ys, ap (λ z. z ∷ ys) eq, λ z m. absurd (Memᴰ.not-nil m))
    | inr e ↦
        let rest : find p ys ≡ some x = rw e at h in
        let (before, after, split, none_before) = find-first p x ys rest in
        (
          y ∷ before,
          after,
          ap (λ zs. y ∷ zs) split,
          λ z m. elim (Memᴰ.cases_cons m) [
            | inl same ↦ ap p same ∙ e
            | inr later ↦ none_before z later
          ],
        )
  ]

  pub find-none : (p : A → Bool) (x : A) (xs : List A) → find p xs ≡ none → Memᴰ x xs → p x ≡ false
  find-none p x [] h m = absurd (Memᴰ.not-nil m)
  find-none p x (y ∷ ys) h m = elim (Bool-cases (p y)) [
    | inl e ↦ let same : some y ≡ none = rw e at h in absurd cc
    | inr e ↦
        let rest : find p ys ≡ none = rw e at h in
        elim (Memᴰ.cases_cons m) [
          | inl same ↦ ap p same ∙ e
          | inr later ↦ find-none p x ys rest later
        ]
  ]

  Mem-insert_by :
      (lt : A → A → Bool) (x y : A) (ys : List A) → Memᴰ x (insert_by lt y ys) → (x ≡ y) ⊎ Memᴰ x ys
  unfolding insert_by
  Mem-insert_by lt x y [] h = Memᴰ.cases_cons h
  Mem-insert_by lt x y (z ∷ zs) h = elim (Bool-cases (lt z y)) [
    | inl e ↦
        let h' : Memᴰ x (z ∷ insert_by lt y zs) = rw e at h in
        elim (Memᴰ.cases_cons h') [
          | inl same ↦ inr (Memᴰ.head same)
          | inr later ↦ elim (Mem-insert_by lt x y zs later) [
            | inl same ↦ inl same
            | inr m ↦ inr (Memᴰ.tail m)
          ]
        ]
    | inr e ↦ let h' : Memᴰ x (y ∷ z ∷ zs) = rw e at h in Memᴰ.cases_cons h'
  ]

  insert_by-Mem :
      (lt : A → A → Bool) (x y : A) (ys : List A) → (x ≡ y) ⊎ Memᴰ x ys → Memᴰ x (insert_by lt y ys)
  unfolding insert_by
  insert_by-Mem lt x y [] (inl same) = Memᴰ.head same
  insert_by-Mem lt x y [] (inr m) = absurd (Memᴰ.not-nil m)
  insert_by-Mem lt x y (z ∷ zs) (inl same) = elim (Bool-cases (lt z y)) [
    | inl e ↦ rw e (Memᴰ.tail (insert_by-Mem lt x y zs (inl same)))
    | inr e ↦ rw e (Memᴰ.head same)
  ]
  insert_by-Mem lt x y (z ∷ zs) (inr m) = elim (Bool-cases (lt z y)) [
    | inl e ↦ rw e (elim (Memᴰ.cases_cons m) [
      | inl same ↦ Memᴰ.head same
      | inr later ↦ Memᴰ.tail (insert_by-Mem lt x y zs (inr later))
    ])
    | inr e ↦ rw e (Memᴰ.tail m)
  ]

  pub Mem-sort_by : (lt : A → A → Bool) (x : A) (xs : List A) → Memᴰ x (sort_by lt xs) → Memᴰ x xs
  unfolding sort_by
  Mem-sort_by lt x [] h = h
  Mem-sort_by lt x (y ∷ ys) h = elim (Mem-insert_by lt x y (sort_by lt ys) h) [
    | inl same ↦ Memᴰ.head same
    | inr m ↦ Memᴰ.tail (Mem-sort_by lt x ys m)
  ]

  pub sort_by-Mem : (lt : A → A → Bool) (x : A) (xs : List A) → Memᴰ x xs → Memᴰ x (sort_by lt xs)
  unfolding sort_by
  sort_by-Mem lt x [] h = h
  sort_by-Mem lt x (y ∷ ys) h =
      insert_by-Mem lt x y (sort_by lt ys)
        (elim (Memᴰ.cases_cons h) [ inl same ↦ inl same | inr m ↦ inr (sort_by-Mem lt x ys m) ])
