-- ===== src/Native/Placement.antt =====
-- src/native/placement.rs: which node of the cluster has which model. A base address is the data
-- type `BaseUrl`: a configured text, or the host and port that `format!` prints.
pub mod Candidates
mod Examples
use Prim.Native.String.{◌++◌ as append_text}
use rs_llmctl.Base.{
  ℕ, String, Bool, true, false, not, ◌||◌, Option, none, some, List, [], ◌∷◌, ◌++◌, map, filter,
  any, find, ltb, is_empty, contains, if◌then◌else◌, str_eq, length,
}
use rs_llmctl.Base.Map.{Map, get, insert}
use rs_llmctl.Base.Texts.{trim}
use rs_llmctl.Config.{ModelConfig, ClusterNodeConfig, Config}

abbrev pub starter_roles : List String
starter_roles = "query" ∷ "recommendation" ∷ "thinking" ∷ "coding" ∷ []

unfoldable pub normalize_role : String → String
unfolding trim
normalize_role role =
    let trimmed = trim role in if contains trimmed starter_roles then trimmed else "query"

pub data BaseUrl : Type 0 where
  configured : String → BaseUrl
  served : String → ℕ → BaseUrl

pub record NativePlacementNode : Type 0 where
  pub id : String
  pub base_url : BaseUrl
  pub roles : List String
  pub model_aliases : List String

pub data RoutingMode : Type 0 where
  single_node cluster_role_placement : RoutingMode

pub record NativePlacementPlan : Type 0 where
  pub routing_mode : RoutingMode
  pub local_node : String
  pub nodes : List NativePlacementNode
  pub unassigned_models : List String

-- a `BTreeSet<String>`, as the keys of a map
abbrev pub keys : {V : Type 0} → Map V → List String
keys [] = []
keys ((k, v) ∷ m) = k ∷ keys m

role_set : List ModelConfig → Map {0} Unit
role_set [] = []
role_set (model ∷ models) = insert (normalize_role model.role) tt (role_set models)

unfoldable pub sorted_roles : List ModelConfig → List String
unfolding role_set
sorted_roles models = keys (role_set models)

-- whether a node has a model: by its alias, or by its role
abbrev pub takes : ClusterNodeConfig → ModelConfig → Bool
takes node model =
    contains model.alias node.model_aliases
    || contains (normalize_role model.role) (map normalize_role node.roles)

unfoldable pub placement_node : List ModelConfig → ClusterNodeConfig → NativePlacementNode
placement_node models node = record {
  id = node.id;
  base_url = configured node.base_url;
  roles = map normalize_role node.roles;
  model_aliases = map (λ model. model.alias) (filter (takes node) models);
}

unfoldable pub placement_nodes : Config → List NativePlacementNode
unfolding placement_node sorted_roles
placement_nodes cfg =
    if is_empty cfg.cluster.nodes
    then (record {
      id = cfg.cluster.node_id;
      base_url = served cfg.server.host cfg.server.port;
      roles = sorted_roles cfg.models;
      model_aliases = map (λ model. model.alias) cfg.models;
    }
        ∷ [])
    else map (placement_node cfg.models) cfg.cluster.nodes

-- whether some node has the alias
abbrev pub has_alias : String → NativePlacementNode → Bool
has_alias alias node = contains alias node.model_aliases

unfoldable pub placement_plan_from_config : Config → NativePlacementPlan
unfolding placement_nodes
placement_plan_from_config cfg =
    let nodes = placement_nodes cfg in
    record {
      routing_mode = if is_empty cfg.cluster.nodes then single_node else cluster_role_placement;
      local_node = cfg.cluster.node_id;
      nodes = nodes;
      unassigned_models =
          map (λ model. model.alias)
            (filter (λ model. not (any (has_alias model.alias) nodes)) cfg.models);
    }

pub data PlacementError : Type 0 where
  -- the aliases
  leaves_unassigned : List String → PlacementError
  empty_node_id : PlacementError
  -- the node
  empty_base_url : String → PlacementError
  -- the alias, and its nodes
  assigned_to_many : String → List String → PlacementError

pub data Validated : Type 0 where
  valid : Validated
  invalid : PlacementError → Validated

abbrev pub is_blank : String → Bool
is_blank s = str_eq (trim s) ""

-- The address that `format!` prints begins with its scheme.
abbrev pub is_blank_url : BaseUrl → Bool
is_blank_url (configured url) = is_blank url
is_blank_url (served host port) = false

abbrev pub or_empty : Option (List String) → List String
or_empty none = []
or_empty (some ids) = ids

-- `entry(alias).or_default().push(id)` for each alias of a node
abbrev pub own : String → List String → Map (List String) → Map (List String)
own id [] owners = owners
own id (alias ∷ aliases) owners =
    own id aliases (insert alias (or_empty (get alias owners) ++ id ∷ []) owners)

pub data Owners : Type 0 where
  owned : Map (List String) → Owners
  refused : PlacementError → Owners

-- the loop over the nodes
abbrev pub collect_owners : List NativePlacementNode → Map (List String) → Owners
collect_owners [] owners = owned owners
collect_owners (node ∷ nodes) owners =
    let rest = collect_owners nodes (own node.id node.model_aliases owners) in
    if is_blank node.id
    then refused empty_node_id
    else (if is_blank_url node.base_url then refused (empty_base_url node.id) else rest)

abbrev pub has_many : String × List String → Bool
has_many (alias, ids) = ltb 1 (length ids)

abbrev pub without_duplicate : Option (String × List String) → Validated
without_duplicate none = valid
without_duplicate (some (alias, ids)) = invalid (assigned_to_many alias ids)

abbrev pub validate_owners : Owners → Validated
validate_owners (refused error) = invalid error
validate_owners (owned owners) = without_duplicate (find has_many owners)

unfoldable pub validate_placement_plan : NativePlacementPlan → Validated
unfolding trim
validate_placement_plan plan =
    if is_empty plan.unassigned_models
    then validate_owners (collect_owners plan.nodes [])
    else invalid (leaves_unassigned plan.unassigned_models)

pub record NativeRouteSelection : Type 0 where
  pub query : String
  pub candidates : List NativePlacementNode

pub data Selected : Type 0 where
  selection : NativeRouteSelection → Selected
  no_node multiple_nodes no_node_for_role : String → Selected

-- what the number of candidates decides
abbrev pub only_candidate : String → List NativePlacementNode → Selected
only_candidate alias [] = no_node alias
only_candidate alias (node ∷ []) =
    selection (record { query = append_text "model:" alias; candidates = node ∷ [] })
only_candidate alias (node ∷ other ∷ nodes) = multiple_nodes alias

unfoldable pub route_selection_for_model : NativePlacementPlan → String → Selected
route_selection_for_model plan alias = only_candidate alias (filter (has_alias alias) plan.nodes)

unfoldable pub route_selection_for_role : NativePlacementPlan → String → Selected
unfolding normalize_role
route_selection_for_role plan role =
    let normalized = normalize_role role in
    let candidates = filter (λ node. contains normalized node.roles) plan.nodes in
    if is_empty candidates
    then no_node_for_role normalized
    else selection (record { query = append_text "role:" normalized; candidates = candidates })
