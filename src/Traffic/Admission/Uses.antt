-- ===== src/Traffic/Admission/Uses.antt =====
-- How many live permits each scope has, after each part of an acquisition.
use rs_llmctl.Base.{
  ℕ, ◌+◌, ◌-◌, ◌≤◌, ◌≡◌, refl, sym, subst, ap, ◌∙◌, inl, inr, String, Bool, true, false, Option,
  none, some, List, [], ◌∷◌, ◌++◌, if◌then◌else◌, arith, eq_iff, str_eq, eq_refl, Option-cases, ltb,
}
use mathlib.Core.List.{append_assoc, append-nil}
use rs_llmctl.Base.Semaphore.{SemaphoreApi, try_acquire_owned-cases}
use rs_llmctl.Base.Map.{Map, get, insert, Distinct}
use rs_llmctl.Base.Map.Laws.{get-insert, get-retain, kept, Distinct-insert, Distinct-retain}
use rs_llmctl.Traffic.Admission.{
  Semaphore, Acquired, permit, refused, busy, taken, given_back, prune_scopes, or_new, ensure,
  release_scope, release_scopes, acquire_scopes,
}

abbrev pub one_if : Bool → ℕ
one_if b = if b then 1 else 0

abbrev pub count : String → List String → ℕ
count j [] = 0
count j (s ∷ ss) = one_if (str_eq s j) + count j ss

abbrev pub names : List (String × ℕ) → List String
names [] = []
names ((s, limit) ∷ rest) = s ∷ names rest

pub count-append : (j : String) (xs ys : List String) → count j (xs ++ ys) ≡ count j xs + count j ys
count-append j [] ys = omega arith
count-append j (x ∷ xs) ys = omega (arith, count-append j xs ys)

module _ {S : Type 0} where
  abbrev pub holders : Option (Semaphore S) → ℕ
  holders none = 0
  holders (some s) = s.holders

  -- the live permits of a scope
  abbrev pub in_use : Map (Semaphore S) → String → ℕ
  in_use m j = holders (get j m)

  holders-kept : (o : Option (Semaphore S)) → holders (kept (λ s. ltb 0 s.holders) o) ≡ holders o
  holders-kept none = refl
  holders-kept (some s) = ground arith

  in_use-prune :
      (m : Map (Semaphore S)) (j : String) → Distinct m → in_use (prune_scopes m) j ≡ in_use m j
  unfolding prune_scopes
  in_use-prune m j d =
      ground
        (arith, get-retain (λ (s : Semaphore S). ltb 0 s.holders) j m d, holders-kept (get j m))

  pub Distinct-prune : (m : Map (Semaphore S)) → Distinct m → Distinct (prune_scopes m)
  unfolding prune_scopes
  Distinct-prune m d = ground (arith, Distinct-retain (λ (s : Semaphore S). ltb 0 s.holders) m d)

  holders-if :
      (c : Bool) (s : Semaphore S) (o : Option (Semaphore S))
      → holders (if c then some s else o) ≡ (if c then s.holders else holders o)
  holders-if true s o = refl
  holders-if false s o = refl

  pub in_use-taken :
      (scope : String) (m : Map (Semaphore S)) (s : Semaphore S) (left : S) (j : String)
      → get scope m ≡ some s
      → in_use (insert scope (taken s left) m) j ≡ in_use m j + one_if (str_eq scope j)
  in_use-taken scope m s left j e =
      ap holders (get-insert scope j (taken s left) m)
      ∙ holders-if (str_eq scope j) (taken s left) (get j m)
      ∙ ground (arith, eq_iff scope j)

  -- What the result of an acquisition that holds `held` must have done to a scope's count, which
  -- was `before`.
  abbrev pub Settled :
      ℕ
      → String
      → List String
      → List (String × ℕ)
      → Map (Semaphore S) × Acquired (List String)
      → Type 0
  Settled before j held scopes (m, permit all) =
      (in_use m j ≡ before + count j (names scopes)) × (all ≡ held ++ names scopes)
  Settled before j held scopes (m, refused e) = in_use m j + count j held ≡ before

  Settled-cons :
      (before : ℕ) (j : String) (held : List String) (scope : String) (limit : ℕ)
      (rest : List (String × ℕ)) (r : Map (Semaphore S) × Acquired (List String))
      → Settled (before + one_if (str_eq scope j)) j (held ++ scope ∷ []) rest r
      → Settled before j held ((scope, limit) ∷ rest) r
  Settled-cons before j held scope limit rest (m, permit all) h =
      (omega arith, h.1 ∙ append_assoc held (scope ∷ []) (names rest))
  Settled-cons before j held scope limit rest (m, refused e) h =
      omega (arith, count-append j held (scope ∷ []))

module _ {S : Type 0} (api : SemaphoreApi S) where
  pub Distinct-ensure :
      (scope : String) (limit : ℕ) (m : Map (Semaphore S))
      → Distinct m
      → Distinct (ensure api scope limit m)
  unfolding ensure
  Distinct-ensure scope limit m d = Distinct-insert scope _ (prune_scopes m) (Distinct-prune m d)

  holders-or_new : (limit : ℕ) (o : Option (Semaphore S)) → (or_new api limit o).holders ≡ holders o
  holders-or_new limit none = refl
  holders-or_new limit (some s) = refl

  -- Making sure of a scope's semaphore changes no count.
  pub in_use-ensure :
      (scope : String) (limit : ℕ) (m : Map (Semaphore S)) (j : String)
      → Distinct m
      → in_use (ensure api scope limit m) j ≡ in_use m j
  unfolding ensure
  in_use-ensure scope limit m j d =
      let m' = prune_scopes m in
      ap holders (get-insert scope j (or_new api limit (get scope m')) m')
      ∙ holders-if (str_eq scope j) (or_new api limit (get scope m')) (get j m')
      ∙ ground (
        arith,
        eq_iff scope j,
        holders-or_new limit (get scope m'),
        in_use-prune m j d,
        in_use-prune m scope d,
      )

  pub get-ensure :
      (scope : String) (limit : ℕ) (m : Map (Semaphore S))
      → get scope (ensure api scope limit m) ≡ some (or_new api limit (get scope (prune_scopes m)))
  unfolding ensure
  get-ensure scope limit m =
      get-insert scope scope (or_new api limit (get scope (prune_scopes m))) (prune_scopes m)
      ∙ rw (eq_refl scope) refl

  pub in_use-release_scope :
      (scope : String) (m : Map (Semaphore S)) (j : String)
      → in_use (release_scope api scope m) j ≡ in_use m j - one_if (str_eq scope j)
  unfolding release_scope
  in_use-release_scope scope m j = elim (Option-cases (get scope m)) [
    | inl e ↦ ground (arith, eq_iff scope j)
    | inr (s, e) ↦ ground (arith, eq_iff scope j, get-insert scope j (given_back api s) m)
  ]

  pub in_use-release_scopes :
      (ss : List String) (m : Map (Semaphore S)) (j : String)
      → in_use (release_scopes api ss m) j ≡ in_use m j - count j ss
  unfolding release_scopes
  in_use-release_scopes [] m j = omega arith
  in_use-release_scopes (s ∷ ss) m j =
      omega (arith, in_use-release_scope s m j, in_use-release_scopes ss (release_scope api s m) j)

  pub Distinct-release_scope :
      (scope : String) (m : Map (Semaphore S)) → Distinct m → Distinct (release_scope api scope m)
  unfolding release_scope
  Distinct-release_scope scope m d = elim (Option-cases (get scope m)) [
    | inl e ↦ rw (e, release_scope) d
    | inr (s, e) ↦ rw (e, release_scope) (Distinct-insert scope (given_back api s) m d)
  ]

  pub Distinct-release_scopes :
      (ss : List String) (m : Map (Semaphore S)) → Distinct m → Distinct (release_scopes api ss m)
  unfolding release_scopes
  Distinct-release_scopes [] m d = d
  Distinct-release_scopes (s ∷ ss) m d = Distinct-release_scopes ss _ (Distinct-release_scope s m d)

  abbrev semaphore_of : String → ℕ → Map (Semaphore S) → Semaphore S
  semaphore_of scope limit m = or_new api limit (get scope (ensure api scope limit m))

  pub get-ensure_self :
      (scope : String) (limit : ℕ) (m : Map (Semaphore S))
      → get scope (ensure api scope limit m) ≡ some (semaphore_of scope limit m)
  get-ensure_self scope limit m = get-ensure scope limit m ∙ rw (get-ensure scope limit m) refl

  pub acquire_scopes-busy :
      (scope : String) (limit : ℕ) (rest : List (String × ℕ)) (held : List String)
      (m : Map (Semaphore S))
      → api.try_acquire_owned (semaphore_of scope limit m).permits ≡ none
      → acquire_scopes api ((scope, limit) ∷ rest) held m
        ≡ (release_scopes api held (ensure api scope limit m), refused busy)
  unfolding acquire_scopes
  acquire_scopes-busy scope limit rest held m e = rw (e, acquire_scopes) refl

  pub acquire_scopes-free :
      (scope : String) (limit : ℕ) (rest : List (String × ℕ)) (held : List String)
      (m : Map (Semaphore S)) (left : S)
      → api.try_acquire_owned (semaphore_of scope limit m).permits ≡ some left
      → acquire_scopes api ((scope, limit) ∷ rest) held m
        ≡ acquire_scopes api rest
            (held ++ scope ∷ [])
            (insert scope (taken (semaphore_of scope limit m) left) (ensure api scope limit m))
  unfolding acquire_scopes
  acquire_scopes-free scope limit rest held m left e = rw (e, acquire_scopes) refl

  -- An acquisition that succeeds takes one permit of each listed scope; one that is refused gives
  -- back what it held.
  pub acquire_scopes-Settled :
      (scopes : List (String × ℕ)) (held : List String) (m : Map (Semaphore S)) (j : String)
      → Distinct m
      → count j held ≤ in_use m j
      → Settled (in_use m j) j held scopes (acquire_scopes api scopes held m)
  unfolding acquire_scopes
  acquire_scopes-Settled [] held m j d h = (omega arith, sym (append-nil held))
  acquire_scopes-Settled ((scope, limit) ∷ rest) held m j d h =
      let m' = ensure api scope limit m in
      let s = semaphore_of scope limit m in
      let used = in_use-ensure scope limit m j d in
      elim (try_acquire_owned-cases api s.permits) [
        | inl (e, full) ↦
            subst (λ r. Settled (in_use m j) j held ((scope, limit) ∷ rest) r)
              (sym (acquire_scopes-busy scope limit rest held m e))
              (omega (arith, used, in_use-release_scopes held m' j))
        | inr (left, e, more) ↦
            let m'' = insert scope (taken s left) m' in
            let took = in_use-taken scope m' s left j (get-ensure_self scope limit m) in
            rw (acquire_scopes-free scope limit rest held m left e) (
              Settled-cons (in_use m j) j held scope limit rest _ (
                subst
                  (λ (n : ℕ).
                    Settled n j (held ++ scope ∷ []) rest
                      (acquire_scopes api rest (held ++ scope ∷ []) m''))
                  (took ∙ ap (λ (n : ℕ). n + one_if (str_eq scope j)) used)
                  (acquire_scopes-Settled rest (held ++ scope ∷ []) m'' j
                    (Distinct-insert scope (taken s left) m' (Distinct-ensure scope limit m d))
                    (omega (arith, used, took, count-append j held (scope ∷ []))))))
      ]
