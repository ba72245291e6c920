-- ===== src/Server/Routing.antt =====
-- src/server/routing.rs: which model serves a request. The request's id is the number that its
-- 128 bits spell.
pub mod Weights
pub mod Fallbacks
pub mod Routes
mod Examples
use Prim.Native.String.{compare}
use Prim.Native.Nat.{compare as compare_nat, Ordering}
use rs_llmctl.Base.{
  ℕ, zero, suc, ◌+◌, ◌-◌, ◌%◌, String, Bool, true, false, not, ◌&&◌, Option, none, some, List, [],
  ◌∷◌, map, filter, find, is_empty, if◌then◌else◌, str_eq, ltb, ◌==◌, saturating_add, u64_max,
}
use rs_llmctl.Base.Texts.{trim}
use rs_llmctl.Base.Sort.{sort_by}
use rs_llmctl.Config.{
  ModelConfig, Config, Mode, single, cold_swap, hot_swap, weighted, fallback,
  ExternalProviderRouteConfig, route_for_model,
}
use rs_llmctl.Native.Placement.{NativePlacementPlan, placement_plan_from_config, has_alias}

-- The external provider of a route is always absent.
pub record ResolvedModelRoute : Type 0 where
  pub requested_alias : String
  pub upstream_alias : String
  pub fallback_aliases : List String

pub data ModelRouteError : Type 0 where
  unknown_alias external_provider_routing_disabled : String → ModelRouteError
  no_configured_models : ModelRouteError

pub data Resolved : Type 0 where
  ok : ResolvedModelRoute → Resolved
  err : ModelRouteError → Resolved

-- whether the local node of a plan has the model
abbrev pub placed_locally : NativePlacementPlan → ModelConfig → Bool
placed_locally plan model = elim (find (λ node. str_eq node.id plan.local_node) plan.nodes) [
  | none ↦ false
  | some node ↦ has_alias model.alias node
]

unfoldable pub model_is_routed_locally : Config → ModelConfig → Bool
model_is_routed_locally cfg model = placed_locally (placement_plan_from_config cfg) model

abbrev pub is_before : Ordering → Bool
is_before Ordering.lt = true
is_before _ = false

abbrev pub alias_before : ModelConfig → ModelConfig → Bool
alias_before a b = is_before (compare a.alias b.alias)

unfoldable pub routed_models : Config → List ModelConfig
routed_models cfg = sort_by alias_before (filter (model_is_routed_locally cfg) cfg.models)

unfoldable pub active_routed_models : Config → List ModelConfig
active_routed_models cfg = filter (λ model. ltb 0 model.weight) (routed_models cfg)

abbrev pub weigh : List ModelConfig → ℕ → ℕ
weigh [] total = total
weigh (model ∷ models) total = weigh models (saturating_add u64_max total model.weight)

-- the loop that finds the model of a slot
abbrev pub at_slot : List ModelConfig → ℕ → Option ModelConfig
at_slot [] slot = none
at_slot (model ∷ models) slot =
    let later = at_slot models (slot - model.weight) in
    if ltb slot model.weight then some model else later

unfoldable pub weighted_models : Config → List ModelConfig
weighted_models cfg =
    filter (λ model. ltb 0 model.weight && model_is_routed_locally cfg model) cfg.models

unfoldable pub weighted_model_for_request : Config → ℕ → Option ModelConfig
unfolding weighted_models
weighted_model_for_request cfg request_id =
    let models = weighted_models cfg in
    let total = weigh models 0 in if total == 0 then none else at_slot models (request_id % total)

-- the heavier first, and models of one weight by their aliases
abbrev pub heavier_before : ModelConfig → ModelConfig → Bool
heavier_before a b = elim (compare_nat b.weight a.weight) [
  | Ordering.lt ↦ true
  | Ordering.gt ↦ false
  | Ordering.eq ↦ alias_before a b
]

-- the models of `fallback_aliases`, in its order
unfoldable pub fallback_models : Config → String → List ModelConfig
fallback_models cfg selected =
    sort_by heavier_before (filter (λ model. not (str_eq model.alias selected)) (routed_models cfg))

unfoldable pub fallback_aliases : Config → String → List String
unfolding fallback_models
fallback_aliases cfg selected = map (λ model. model.alias) (fallback_models cfg selected)

abbrev pub or_model : Option ModelConfig → ModelConfig → ModelConfig
or_model none requested = requested
or_model (some model) requested = model

-- the `match` on the mode
abbrev pub upstream_in : Mode → Config → ModelConfig → ℕ → Option ModelConfig
upstream_in single cfg requested request_id = find (model_is_routed_locally cfg) cfg.models
upstream_in cold_swap cfg requested request_id = some requested
upstream_in hot_swap cfg requested request_id = some requested
upstream_in weighted cfg requested request_id =
    some (or_model (weighted_model_for_request cfg request_id) requested)
upstream_in fallback cfg requested request_id = some (
    if ltb 0 requested.weight
    then requested
    else or_model (weighted_model_for_request cfg request_id) requested)

abbrev pub fallbacks : Config → String → List String
fallbacks cfg upstream = elim cfg.mode [ fallback ↦ fallback_aliases cfg upstream | _ ↦ [] ]

-- the route to the upstream model, whose external provider may be configured
abbrev pub route_to : Config → String → ModelConfig → Option ExternalProviderRouteConfig → Resolved
route_to cfg requested_alias upstream (some route) =
    err (external_provider_routing_disabled route.provider)
route_to cfg requested_alias upstream none = ok (record {
  requested_alias = requested_alias;
  upstream_alias = upstream.alias;
  fallback_aliases = fallbacks cfg upstream.alias;
})

abbrev pub resolve_upstream : Config → String → Option ModelConfig → Resolved
resolve_upstream cfg requested_alias none = err no_configured_models
resolve_upstream cfg requested_alias (some upstream) =
    route_to cfg requested_alias upstream (route_for_model cfg.external_routes upstream.alias)

-- the model that was asked for, if the local node has it
unfoldable pub requested_model : Config → String → Option ModelConfig
requested_model cfg requested_alias =
    find (λ model. str_eq model.alias requested_alias && model_is_routed_locally cfg model)
      cfg.models

unfoldable pub resolve_model_route : Config → String → ℕ → Resolved
unfolding requested_model trim
resolve_model_route cfg requested_alias request_id =
    if is_empty cfg.models
    then (if str_eq (trim requested_alias) ""
        then err no_configured_models
        else ok (record {
          requested_alias = requested_alias;
          upstream_alias = requested_alias;
          fallback_aliases = [];
        }))
    else (elim (requested_model cfg requested_alias) [
      | none ↦ err (unknown_alias requested_alias)
      | some requested ↦
          resolve_upstream cfg requested_alias (upstream_in cfg.mode cfg requested request_id)
    ])
