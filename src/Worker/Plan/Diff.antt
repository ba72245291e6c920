-- ===== src/Worker/Plan/Diff.antt =====
-- How two startup plans differ.
use mathlib.Core.Bool.{decide_iff}
use mathlib.Core.Path.{subst₂, subst, ap, ap₂, sym, ◌∙◌}
use mathlib.Core.Logic.{◌↔◌}
use rs_llmctl.Base.{
  ◌≡◌, refl, String, Bool, true, false, not, ◌&&◌, Option, none, some, List, [], ◌∷◌, if◌then◌else◌,
  str_eq, eq_iff, filter, contains, arith,
}
use rs_llmctl.Base.Map.{Map, get, insert, Distinct}
use rs_llmctl.Base.Map.Laws.{Distinct-insert, get-insert}
use rs_llmctl.Worker.Launch.{PlannedWorker}
use rs_llmctl.Worker.Plan.{
  StartupPlan, PlanDiff, workers_by_alias, contains_key, keys, same_worker, PlannedWorker-discrete,
  is_changed, is_unchanged, diff_maps, diff,
}

-- the last worker of an id in a plan
abbrev pub last_of : String → List PlannedWorker → Option PlannedWorker → Option PlannedWorker
last_of k [] found = found
last_of k (w ∷ ws) found = last_of k ws (if str_eq w.worker.id k then some w else found)

get-workers_by_alias :
    (k : String) (ws : List PlannedWorker) (m : Map PlannedWorker)
    → get k (workers_by_alias ws m) ≡ last_of k ws (get k m)
unfolding workers_by_alias
get-workers_by_alias k [] m = refl
get-workers_by_alias k (w ∷ ws) m =
    rw (get-workers_by_alias k ws (insert w.worker.id w m), get-insert w.worker.id k w m)

Distinct-workers_by_alias :
    (ws : List PlannedWorker) (m : Map PlannedWorker)
    → Distinct m
    → Distinct (workers_by_alias ws m)
unfolding workers_by_alias
Distinct-workers_by_alias [] m d = d
Distinct-workers_by_alias (w ∷ ws) m d =
    Distinct-workers_by_alias ws (insert w.worker.id w m) (Distinct-insert w.worker.id w m d)

contains-keys : (k : String) (m : Map PlannedWorker) → contains k (keys m) ≡ contains_key m k
unfolding get
contains-keys k [] = refl
contains-keys k ((j, w) ∷ m) = ground (arith, contains-keys k m)

contains-filter :
    (p : String → Bool) (k : String) (xs : List String)
    → contains k (filter p xs) ≡ (contains k xs && p k)
contains-filter p k [] = refl
contains-filter p k (x ∷ xs) = ground (arith, contains-filter p k xs, eq_iff x k)

-- a test of an entry, at the key that is looked up
abbrev at_key : (String × PlannedWorker → Bool) → String → Option PlannedWorker → Bool
at_key p k none = false
at_key p k (some w) = p (k, w)

not_contained :
    (p : String × PlannedWorker → Bool) (k : String) (m : Map PlannedWorker)
    → get k m ≡ none
    → contains k (keys (filter p m)) ≡ false
unfolding get
not_contained p k [] h = refl
not_contained p k ((j, w) ∷ m) h = ground (arith, not_contained p k m)

contains-keys-filter :
    (p : String × PlannedWorker → Bool) (k : String) (m : Map PlannedWorker)
    → Distinct m
    → contains k (keys (filter p m)) ≡ at_key p k (get k m)
unfolding get
contains-keys-filter p k [] d = refl
contains-keys-filter p k ((j, w) ∷ m) d =
    ground (arith, eq_iff j k, contains-keys-filter p k m d.1, not_contained p j m d.0)

same_worker_iff : (v w : PlannedWorker) → (same_worker v w ≡ true) ↔ (v ≡ w)
same_worker_iff v w = decide_iff (PlannedWorker-discrete v w)

-- What a diff says of an alias, by the last worker that each plan has for it.
abbrev pub Classified : Option PlannedWorker → Option PlannedWorker → String → PlanDiff → Type 0
Classified none none k d =
    (contains k d.added ≡ false)
    × (contains k d.removed ≡ false)
    × (contains k d.changed ≡ false)
    × (contains k d.unchanged ≡ false)
Classified none (some w) k d =
    (contains k d.added ≡ true)
    × (contains k d.removed ≡ false)
    × (contains k d.changed ≡ false)
    × (contains k d.unchanged ≡ false)
Classified (some v) none k d =
    (contains k d.added ≡ false)
    × (contains k d.removed ≡ true)
    × (contains k d.changed ≡ false)
    × (contains k d.unchanged ≡ false)
Classified (some v) (some w) k d =
    (contains k d.added ≡ false)
    × (contains k d.removed ≡ false)
    × (contains k d.changed ≡ not (contains k d.unchanged))
    × ((contains k d.unchanged ≡ true) ↔ (v ≡ w))

is_some : Option PlannedWorker → Bool
is_some none = false
is_some (some w) = true

classify :
    (a b : Option PlannedWorker) (k : String) (d : PlanDiff) (both_same : Bool)
    → contains k d.added ≡ (is_some b && not (is_some a))
    → contains k d.removed ≡ (is_some a && not (is_some b))
    → contains k d.changed ≡ (is_some a && is_some b && not both_same)
    → contains k d.unchanged ≡ (is_some a && is_some b && both_same)
    → ((v w : PlannedWorker) → a ≡ some v → b ≡ some w → both_same ≡ same_worker v w)
    → Classified a b k d
unfolding is_some
classify none none k d s p q r t e = (p, q, r, t)
classify none (some w) k d s p q r t e = (p, q, r, t)
classify (some v) none k d s p q r t e = (p, q, r, t)
classify (some v) (some w) k d s p q r t e = (
  p,
  q,
  r ∙ ap not (sym t),
  subst (λ b. (b ≡ true) ↔ (v ≡ w)) (sym (t ∙ e v w refl refl)) (same_worker_iff v w),
)

both_equal : Option PlannedWorker → Option PlannedWorker → Bool
both_equal none b = false
both_equal (some v) none = false
both_equal (some v) (some w) = same_worker v w

both_equal-some :
    (a b : Option PlannedWorker) (v w : PlannedWorker)
    → a ≡ some v
    → b ≡ some w
    → both_equal a b ≡ same_worker v w
unfolding both_equal
both_equal-some a b v w e f = rw (e, f)

contains_key-is_some : (m : Map PlannedWorker) (k : String) → contains_key m k ≡ is_some (get k m)
unfolding is_some
contains_key-is_some m k = ground arith

at_key-unchanged :
    (new : Map PlannedWorker) (k : String) (a : Option PlannedWorker)
    → at_key (is_unchanged new) k a ≡ (is_some a && is_some (get k new) && both_equal a (get k new))
unfolding is_some both_equal
at_key-unchanged new k none = refl
at_key-unchanged new k (some v) = ground arith

at_key-changed :
    (new : Map PlannedWorker) (k : String) (a : Option PlannedWorker)
    → at_key (is_changed new) k a
      ≡ (is_some a && is_some (get k new) && not (both_equal a (get k new)))
unfolding is_some both_equal
at_key-changed new k none = refl
at_key-changed new k (some v) = ground arith

diff_maps-Classified :
    (old new : Map PlannedWorker) (k : String)
    → Distinct old
    → Distinct new
    → Classified (get k old) (get k new) k (diff_maps old new)
unfolding diff_maps
diff_maps-Classified old new k d d' =
    classify (get k old) (get k new) k (diff_maps old new) (both_equal (get k old) (get k new))
      (contains-filter (λ j. not (contains_key old j)) k (keys new)
        ∙ ap₂ (λ a b. a && not b) (contains-keys k new ∙ contains_key-is_some new k)
            (contains_key-is_some old k))
      (contains-filter (λ j. not (contains_key new j)) k (keys old)
        ∙ ap₂ (λ a b. a && not b) (contains-keys k old ∙ contains_key-is_some old k)
            (contains_key-is_some new k))
      (contains-keys-filter (is_changed new) k old d ∙ at_key-changed new k (get k old))
      (contains-keys-filter (is_unchanged new) k old d ∙ at_key-unchanged new k (get k old))
      (both_equal-some (get k old) (get k new))

-- For every alias, by the last worker that each plan has for it: the alias is listed as added if
-- only the next plan has one, as removed if only the old plan has one, as unchanged if both have
-- one and the two are equal, as changed if they differ, and as nothing else.
pub diff-Classified :
    {L : Type 0} (old next : StartupPlan L) (k : String)
    → Classified (last_of k old.workers none) (last_of k next.workers none) k (diff old next)
unfolding diff get
diff-Classified old next k =
    subst₂ (λ a b. Classified a b k (diff old next)) (get-workers_by_alias k old.workers [])
      (get-workers_by_alias k next.workers [])
      (diff_maps-Classified (workers_by_alias old.workers []) (workers_by_alias next.workers []) k
        (Distinct-workers_by_alias old.workers [] tt)
        (Distinct-workers_by_alias next.workers [] tt))
