-- ===== src/Native/Placement/Candidates.antt =====
-- A placement that is valid gives each configured model exactly one node.
use rs_llmctl.Base.{
  ℕ, ◌+◌, ◌≤◌, ◌≡◌, ◌≢◌, refl, ◌∙◌, ap, subst, inl, inr, String, Bool, true, false, not, Option,
  none, some, List, [], ◌∷◌, ◌++◌, map, filter, any, find, is_empty, contains, if◌then◌else◌,
  str_eq, length, length-append, arith, eq_iff, Bool-cases,
}
use Prim.Native.String.{◌++◌ as append_text}
use mathlib.Core.List.{Memᴰ}
use mathlib.Core.List.Memᴰ
use rs_llmctl.Base.Map.{Map, get, insert}
use rs_llmctl.Base.Map.Laws.{get-insert}
use rs_llmctl.Base.Members.{filter-Mem, Mem-filter}
use rs_llmctl.Config.{ModelConfig, Config}
use rs_llmctl.Native.Placement.{
  PlacementError, empty_node_id, empty_base_url, leaves_unassigned, is_blank, is_blank_url,
  NativePlacementNode, NativePlacementPlan, has_alias, placement_plan_from_config, valid, invalid,
  or_empty, own, Owners, owned, refused, collect_owners, has_many, validate_owners,
  without_duplicate, validate_placement_plan, selection, only_candidate, route_selection_for_model,
}

-- how often an alias stands in a list, and in the lists of the nodes
abbrev occurrences : String → List String → ℕ
occurrences alias [] = 0
occurrences alias (a ∷ as') = (if str_eq a alias then 1 else 0) + occurrences alias as'

abbrev placements : String → List NativePlacementNode → ℕ
placements alias [] = 0
placements alias (n ∷ ns) = occurrences alias n.model_aliases + placements alias ns

abbrev owner_count : String → Map (List String) → ℕ
owner_count alias owners = length (or_empty (get alias owners))

owner_count-insert :
    (alias id a : String) (owners : Map (List String))
    → owner_count alias (insert a (or_empty (get a owners) ++ id ∷ []) owners)
      ≡ (if str_eq a alias then 1 else 0) + owner_count alias owners
owner_count-insert alias id a owners =
    rw (get-insert a alias (or_empty (get a owners) ++ id ∷ []) owners)
      (elim (Bool-cases (str_eq a alias)) [
        | inl e ↦
            let same = (eq_iff a alias).0 e in
            rw e (
              length-append (or_empty (get a owners)) (id ∷ [])
              ∙ ap (λ k. owner_count k owners + 1) same
              ∙ omega arith)
        | inr e ↦ rw e (omega arith)
      ])

owner_count-own :
    (alias id : String) (aliases : List String) (owners : Map (List String))
    → owner_count alias (own id aliases owners)
      ≡ occurrences alias aliases + owner_count alias owners
owner_count-own alias id [] owners = omega arith
owner_count-own alias id (a ∷ as') owners = omega (
  arith,
  owner_count-own alias id as' (insert a (or_empty (get a owners) ++ id ∷ []) owners),
  owner_count-insert alias id a owners,
)

-- what the loop over the nodes leaves
abbrev Counted : String → ℕ → Owners → Type 0
Counted alias n (owned owners) = owner_count alias owners ≡ n
Counted alias n (refused error) = Unit

Counted-if :
    (c : Bool) (alias : String) (n : ℕ) (error : PlacementError) (o : Owners)
    → Counted alias n o
    → Counted alias n (if c then refused error else o)
Counted-if true alias n error o h = tt
Counted-if false alias n error o h = h

collect_owners-Counted :
    (alias : String) (ns : List NativePlacementNode) (owners : Map (List String))
    → Counted alias (placements alias ns + owner_count alias owners) (collect_owners ns owners)
collect_owners-Counted alias [] owners = omega arith
collect_owners-Counted alias (n ∷ ns) owners = Counted-if (is_blank n.id) alias _ empty_node_id _ (
    Counted-if (is_blank_url n.base_url) alias _ (empty_base_url n.id) _ (
      subst (λ k. Counted alias k (collect_owners ns (own n.id n.model_aliases owners)))
        (omega (arith, owner_count-own alias n.id n.model_aliases owners))
        (collect_owners-Counted alias ns (own n.id n.model_aliases owners))))

found_many :
    (k : String) (ids : List String) (owners : Map (List String))
    → has_many (k, ids) ≡ true
    → find has_many ((k, ids) ∷ owners) ≢ none
found_many k ids owners e h = let found : some (k, ids) ≡ none = rw e at h in cc

get-find-none :
    (alias : String) (owners : Map (List String))
    → find has_many owners ≡ none
    → owner_count alias owners ≤ 1
unfolding get
get-find-none alias [] h = omega arith
get-find-none alias ((k, ids) ∷ owners) h = elim (Bool-cases (has_many (k, ids))) [
  | inl e ↦ absurd (found_many k ids owners e h)
  | inr e ↦
      let rest : find has_many owners ≡ none = rw e at h in
      ground (arith, get-find-none alias owners rest)
]

has_alias-occurs :
    (alias : String) (as' : List String) → contains alias as' ≡ true → 1 ≤ occurrences alias as'
has_alias-occurs alias [] h = absurd cc
has_alias-occurs alias (a ∷ as') h = ground (arith, has_alias-occurs alias as')

candidates-le :
    (alias : String) (ns : List NativePlacementNode)
    → length (filter (has_alias alias) ns) ≤ placements alias ns
candidates-le alias [] = omega arith
candidates-le alias (n ∷ ns) =
    ground (arith, candidates-le alias ns, has_alias-occurs alias n.model_aliases)

duplicate-valid : (o : Option (String × List String)) → without_duplicate o ≡ valid → o ≡ none
duplicate-valid none h = refl
duplicate-valid (some (alias, ids)) h = absurd cc

validate_owners-valid :
    (alias : String) (n : ℕ) (o : Owners) → Counted alias n o → validate_owners o ≡ valid → n ≤ 1
validate_owners-valid alias n (refused error) c h = absurd cc
validate_owners-valid alias n (owned owners) c h =
    omega (arith, get-find-none alias owners (duplicate-valid (find has_many owners) h))

is_empty-nil : (xs : List String) → is_empty xs ≡ true → xs ≡ []
is_empty-nil [] h = refl
is_empty-nil (x ∷ xs) h = absurd cc

-- In a valid placement an alias stands at most once.
pub placements-valid :
    (plan : NativePlacementPlan) (alias : String)
    → validate_placement_plan plan ≡ valid
    → (plan.unassigned_models ≡ []) × (placements alias plan.nodes ≤ 1)
unfolding validate_placement_plan get
placements-valid plan alias h = elim (Bool-cases (is_empty plan.unassigned_models)) [
  | inl e ↦
      let h' : validate_owners (collect_owners plan.nodes []) ≡ valid = rw e at h in
      let few =
        validate_owners-valid alias _ (collect_owners plan.nodes [])
          (collect_owners-Counted alias plan.nodes []) h' in
      (is_empty-nil plan.unassigned_models e, omega arith)
  | inr e ↦
      let h' : invalid (leaves_unassigned plan.unassigned_models) ≡ valid = rw e at h in absurd cc
]

any-candidate :
    (alias : String) (ns : List NativePlacementNode)
    → any (has_alias alias) ns ≡ true
    → 1 ≤ length (filter (has_alias alias) ns)
any-candidate alias [] h = absurd cc
any-candidate alias (n ∷ ns) h = ground (arith, any-candidate alias ns)

only_candidate-one :
    (alias : String) (cs : List NativePlacementNode)
    → length cs ≡ 1
    → (node : NativePlacementNode) × (only_candidate alias cs
        ≡ selection (record { query = append_text "model:" alias; candidates = node ∷ [] }))
      × (cs ≡ node ∷ [])
only_candidate-one alias [] h = absurd (omega arith)
only_candidate-one alias (node ∷ []) h = (node, refl, refl)
only_candidate-one alias (node ∷ other ∷ cs) h = absurd (omega arith)

map-empty : (ms : List ModelConfig) → map (λ (m : ModelConfig). m.alias) ms ≡ [] → ms ≡ []
map-empty [] h = refl
map-empty (m ∷ ms) h = absurd cc

unassigned-none :
    (cfg : Config) (m : ModelConfig)
    → (placement_plan_from_config cfg).unassigned_models ≡ []
    → Memᴰ m cfg.models
    → any (has_alias m.alias) (placement_plan_from_config cfg).nodes ≡ true
unfolding placement_plan_from_config
unassigned-none cfg m h within =
    let missing =
      λ (k : ModelConfig). not (any (has_alias k.alias) (placement_plan_from_config cfg).nodes) in
    elim (Bool-cases (any (has_alias m.alias) (placement_plan_from_config cfg).nodes)) [
      | inl e ↦ e
      | inr e ↦
          let here = filter-Mem missing m cfg.models within (rw e refl) in
          absurd
            (Memᴰ.not-nil (subst (λ ms. Memᴰ m ms) (map-empty (filter missing cfg.models) h) here))
    ]

-- Where the placement of a configuration is valid, the selection for the alias of each configured
-- model finds exactly one node, which is one of the plan's nodes and has the alias.
pub route_selection_for_model-valid :
    (cfg : Config) (m : ModelConfig)
    → validate_placement_plan (placement_plan_from_config cfg) ≡ valid
    → Memᴰ m cfg.models
    → (node : NativePlacementNode) × (route_selection_for_model
          (placement_plan_from_config cfg)
          m.alias
        ≡ selection (record { query = append_text "model:" m.alias; candidates = node ∷ [] }))
      × Memᴰ node (placement_plan_from_config cfg).nodes
      × (has_alias m.alias node ≡ true)
unfolding placement_plan_from_config route_selection_for_model
route_selection_for_model-valid cfg m h within =
    let plan = placement_plan_from_config cfg in
    let v = placements-valid plan m.alias h in
    let assigned = unassigned-none cfg m v.0 within in
    let low = any-candidate m.alias plan.nodes assigned in
    let high = candidates-le m.alias plan.nodes in
    let few = v.1 in
    let (node, found, cs) =
      only_candidate-one m.alias (filter (has_alias m.alias) plan.nodes) (omega arith) in
    let r = Mem-filter (has_alias m.alias) node plan.nodes (rw cs (Memᴰ.head refl)) in
    (node, found, r.0, r.1)
