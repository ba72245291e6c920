-- ===== src/Server/Routing/Examples.antt =====
-- Runs of the routing, and its theorems at a concrete configuration.
use rs_llmctl.Base.{ℕ, ◌*◌, ◌≤◌, ◌≡◌, refl, String, none, some, [], ◌∷◌, arith, str_eq, u64_max}
use rs_llmctl.Base.Sort
use rs_llmctl.Config.{ModelConfig, Config, fallback, route_for_model}
use rs_llmctl.Native.Placement
use rs_llmctl.Server.Routing.{
  ok, model_is_routed_locally, routed_models, weighted_models, weighted_model_for_request,
  fallback_models, fallback_aliases, requested_model, resolve_model_route,
}
use rs_llmctl.Server.Routing.Weights.{
  weight_where, total_weight, tally, picks, weighted_model_for_request-Share,
}
use rs_llmctl.Server.Routing.Routes.{RoutedRight, resolve_model_route-RoutedRight}

abbrev model : String → ℕ → ModelConfig
model alias weight = record {
  alias = alias;
  path = "model.gguf";
  role = "query";
  family = none;
  weight = weight;
}

-- one node, which has every model
abbrev cluster_of_one : Config
cluster_of_one = record {
  mode = fallback;
  server = record { host = "127.0.0.1"; port = 8080; worker_base_port = 9000; context_size = 4096 };
  cluster = record { node_id = "local"; nodes = [] };
  models = model "small" 1 ∷ model "large" 3 ∷ model "spare" 0 ∷ [];
  external_routes = [];
}

fourth_request : weighted_model_for_request cluster_of_one 7 ≡ some (model "large" 3)
unfolding weighted_model_for_request weighted_models model_is_routed_locally
    Placement.placement_plan_from_config Placement.placement_nodes
fourth_request = refl

route_of_spare :
    resolve_model_route cluster_of_one "spare" 4
    ≡ ok (record {
      requested_alias = "spare";
      upstream_alias = "small";
      fallback_aliases = "large" ∷ "spare" ∷ [];
    })
unfolding resolve_model_route requested_model weighted_model_for_request weighted_models
    model_is_routed_locally Placement.placement_plan_from_config Placement.placement_nodes
    fallback_aliases fallback_models routed_models Sort.sort_by Sort.insert_by route_for_model
route_of_spare = refl

weights_fit : total_weight (weighted_models cluster_of_one) ≤ u64_max
unfolding weighted_models model_is_routed_locally Placement.placement_plan_from_config
    Placement.placement_nodes
weights_fit = omega arith

weighted_model_for_request-Share_example :
    tally
      (λ id. picks (λ m. str_eq m.alias "large") (weighted_model_for_request cluster_of_one id))
      (2 * total_weight (weighted_models cluster_of_one))
      (total_weight (weighted_models cluster_of_one))
    ≡ weight_where (λ m. str_eq m.alias "large") (weighted_models cluster_of_one)
weighted_model_for_request-Share_example =
    weighted_model_for_request-Share cluster_of_one (λ m. str_eq m.alias "large") 2 weights_fit

resolve_model_route-RoutedRight_example :
    RoutedRight cluster_of_one "spare" 4 (resolve_model_route cluster_of_one "spare" 4)
resolve_model_route-RoutedRight_example =
    resolve_model_route-RoutedRight cluster_of_one "spare" 4 refl
