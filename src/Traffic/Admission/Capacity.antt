-- ===== src/Traffic/Admission/Capacity.antt =====
-- Every scope's semaphore keeps as many permits, free or live, as it was made with.
use rs_llmctl.Base.{
  ℕ, ◌+◌, ◌≤◌, ◌<◌, suc, max, ◌≡◌, ap, ◌∙◌, inl, inr, String, Option, none, some, List, [], ◌∷◌,
  ◌++◌, arith, eq_iff, str_eq, eq_refl, Option-cases, Bool-cases, ltb,
}
use rs_llmctl.Base.Semaphore.{SemaphoreApi, try_acquire_owned-cases}
use rs_llmctl.Base.Map.{Map, get, insert, Distinct}
use rs_llmctl.Base.Map.Laws.{get-insert, get-retain, kept}
use rs_llmctl.Traffic.Admission.{
  Semaphore, taken, given_back, prune_scopes, or_new, ensure, release_scope, release_scopes,
  acquire_scopes,
}
use rs_llmctl.Traffic.Admission.Uses.{
  in_use, count, count-append, in_use-ensure, in_use-taken, in_use-release_scope, get-ensure_self,
  Distinct-ensure,
}
use rs_llmctl.Base.Map.Laws.{Distinct-insert}

-- The limit that a request asks for a scope is that scope's limit.
abbrev pub Agrees : (String → ℕ) → List (String × ℕ) → Type 0
Agrees limits [] = Unit
Agrees limits ((s, limit) ∷ rest) = (max limit 1 ≡ limits s) × Agrees limits rest

module _ {S : Type 0} (api : SemaphoreApi S) where
  abbrev pub HasCapacity : ℕ → Option (Semaphore S) → Type 0
  HasCapacity n none = Unit
  HasCapacity n (some s) = api.available_permits s.permits + s.holders ≡ n

module _ {S : Type 0} (api : SemaphoreApi S) (limits : String → ℕ) where
  pub record IsFull (m : Map (Semaphore S)) : Type 0 where
    pub distinct : Distinct m
    pub capacity : (j : String) → HasCapacity api (limits j) (get j m)

  HasCapacity-kept :
      (n : ℕ) (o : Option (Semaphore S))
      → HasCapacity api n o
      → HasCapacity api n (kept (λ s. ltb 0 s.holders) o)
  HasCapacity-kept n none h = tt
  HasCapacity-kept n (some s) h = ground arith

  HasCapacity-prune :
      (m : Map (Semaphore S)) (j : String)
      → IsFull m
      → HasCapacity api (limits j) (get j (prune_scopes m))
  unfolding prune_scopes
  HasCapacity-prune m j f = ground (
    arith,
    get-retain (λ (s : Semaphore S). ltb 0 s.holders) j m f.distinct,
    HasCapacity-kept (limits j) (get j m) (f.capacity j),
    f.capacity j,
  )

  HasCapacity-insert :
      (scope : String) (s : Semaphore S) (m : Map (Semaphore S)) (j : String)
      → api.available_permits s.permits + s.holders ≡ limits scope
      → HasCapacity api (limits j) (get j m)
      → HasCapacity api (limits j) (get j (insert scope s m))
  HasCapacity-insert scope s m j e h =
      rw (get-insert scope j s m) (elim (Bool-cases (str_eq scope j)) [
        | inl same ↦ rw same (e ∙ ap limits ((eq_iff scope j).0 same))
        | inr other ↦ rw other h
      ])

  or_new-capacity :
      (n limit : ℕ) (o : Option (Semaphore S))
      → max limit 1 ≡ n
      → HasCapacity api n o
      → api.available_permits (or_new api limit o).permits + (or_new api limit o).holders ≡ n
  or_new-capacity n limit none e h = omega (arith, api.available-create (max limit 1))
  or_new-capacity n limit (some s) e h = h

  IsFull-ensure :
      (scope : String) (limit : ℕ) (m : Map (Semaphore S))
      → max limit 1 ≡ limits scope
      → IsFull m
      → IsFull (ensure api scope limit m)
  unfolding ensure
  IsFull-ensure scope limit m e f = record {
    distinct = Distinct-ensure api scope limit m f.distinct;
    capacity = λ j.
        HasCapacity-insert scope (or_new api limit (get scope (prune_scopes m))) (prune_scopes m) j
          (or_new-capacity (limits scope) limit (get scope (prune_scopes m)) e
            (HasCapacity-prune m scope f))
          (HasCapacity-prune m j f);
  }

  IsFull-taken :
      (scope : String) (s : Semaphore S) (left : S) (m : Map (Semaphore S))
      → get scope m ≡ some s
      → api.available_permits s.permits ≡ suc (api.available_permits left)
      → IsFull m
      → IsFull (insert scope (taken s left) m)
  IsFull-taken scope s left m e more f = record {
    distinct = Distinct-insert scope (taken s left) m f.distinct;
    capacity = λ j.
        HasCapacity-insert scope (taken s left) m j
          (let h : HasCapacity api (limits scope) (some s) = rw e at (f.capacity scope) in
            omega arith)
          (f.capacity j);
  }

  IsFull-release_scope :
      (scope : String) (m : Map (Semaphore S))
      → 0 < in_use m scope
      → IsFull m
      → IsFull (release_scope api scope m)
  unfolding release_scope
  IsFull-release_scope scope m used f = elim (Option-cases (get scope m)) [
    | inl e ↦ rw (e, release_scope) f
    | inr (s, e) ↦
        let h : HasCapacity api (limits scope) (some s) = rw e at (f.capacity scope) in
        let held : 0 < s.holders = rw e at used in
        rw (e, release_scope)
          (record {
            distinct = Distinct-insert scope (given_back api s) m f.distinct;
            capacity = λ j.
                HasCapacity-insert scope (given_back api s) m j
                  (omega (arith, api.available-put_back s.permits)) (f.capacity j);
          })
  ]

  pub IsFull-release_scopes :
      (ss : List String) (m : Map (Semaphore S))
      → ((j : String) → count j ss ≤ in_use m j)
      → IsFull m
      → IsFull (release_scopes api ss m)
  unfolding release_scopes
  IsFull-release_scopes [] m h f = f
  IsFull-release_scopes (s ∷ ss) m h f =
      IsFull-release_scopes ss (release_scope api s m)
        (λ j. omega (arith, in_use-release_scope api s m j, h j))
        (IsFull-release_scope s m (let p = h s in ground (arith, eq_refl s)) f)

  pub IsFull-acquire_scopes :
      (scopes : List (String × ℕ)) (held : List String) (m : Map (Semaphore S))
      → Agrees limits scopes
      → ((j : String) → count j held ≤ in_use m j)
      → IsFull m
      → IsFull (acquire_scopes api scopes held m).0
  unfolding acquire_scopes
  IsFull-acquire_scopes [] held m a h f = f
  IsFull-acquire_scopes ((scope, limit) ∷ rest) held m a h f =
      let m' = ensure api scope limit m in
      let s = or_new api limit (get scope m') in
      let f' = IsFull-ensure scope limit m a.0 f in
      let self = get-ensure_self api scope limit m in
      elim (try_acquire_owned-cases api s.permits) [
        | inl (e, full) ↦
            rw (e, acquire_scopes)
              (IsFull-release_scopes held m'
                (λ j. omega (arith, h j, in_use-ensure api scope limit m j f.distinct)) f')
        | inr (left, e, more) ↦
            rw (e, acquire_scopes)
              (IsFull-acquire_scopes rest (held ++ scope ∷ []) (insert scope (taken s left) m') a.1
                (λ j. omega (
                  arith,
                  h j,
                  in_use-ensure api scope limit m j f.distinct,
                  in_use-taken scope m' s left j self,
                  count-append j held (scope ∷ []),
                ))
                (IsFull-taken scope s left m' self more f'))
      ]
