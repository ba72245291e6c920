-- ===== src/Native/Placement/Examples.antt =====
-- A placement on two nodes, and the theorem on selections there.
use Prim.Native.String.{◌++◌ as append_text}
use rs_llmctl.Base.{◌≡◌, refl, String, true, none, List, [], ◌∷◌}
use rs_llmctl.Base.Map
use rs_llmctl.Base.Texts
use mathlib.Core.List.{Memᴰ}
use rs_llmctl.Config.{ModelConfig, Config, single}
use rs_llmctl.Native.Placement.{
  NativePlacementNode, validate_placement_plan, valid, invalid, assigned_to_many,
  placement_plan_from_config, placement_nodes, placement_node, normalize_role, has_alias,
  route_selection_for_model, selection,
}
use rs_llmctl.Native.Placement.Candidates.{route_selection_for_model-valid}

abbrev coder : ModelConfig
coder = record { alias = "coder"; path = "coder.gguf"; role = "coding"; family = none; weight = 1 }

abbrev chat : ModelConfig
chat = record { alias = "chat"; path = "chat.gguf"; role = "query"; family = none; weight = 1 }

abbrev cluster_for : List String → Config
cluster_for aliases = record {
  mode = single;
  server = record { host = "127.0.0.1"; port = 8080; worker_base_port = 9000; context_size = 4096 };
  cluster = record {
    node_id = "a";
    nodes =
        record { id = "a"; base_url = "http://a/v1"; roles = " coding " ∷ []; model_aliases = [] }
        ∷ record { id = "b"; base_url = "http://b/v1"; roles = []; model_aliases = aliases }
        ∷ [];
  };
  models = coder ∷ chat ∷ [];
  external_routes = [];
}

chat_on_b : validate_placement_plan (placement_plan_from_config (cluster_for ("chat" ∷ []))) ≡ valid
unfolding validate_placement_plan placement_plan_from_config placement_nodes placement_node
    normalize_role Texts.trim Map.get Map.insert
chat_on_b = refl

coder_twice :
    validate_placement_plan (placement_plan_from_config (cluster_for ("chat" ∷ "coder" ∷ [])))
    ≡ invalid (assigned_to_many "coder" ("a" ∷ "b" ∷ []))
unfolding validate_placement_plan placement_plan_from_config placement_nodes placement_node
    normalize_role Texts.trim Map.get Map.insert
coder_twice = refl

route_selection_for_model-valid_example :
    (node : NativePlacementNode) × (route_selection_for_model
        (placement_plan_from_config (cluster_for ("chat" ∷ [])))
        "chat"
      ≡ selection (record { query = append_text "model:" "chat"; candidates = node ∷ [] }))
    × Memᴰ node (placement_plan_from_config (cluster_for ("chat" ∷ []))).nodes
    × (has_alias "chat" node ≡ true)
route_selection_for_model-valid_example =
    route_selection_for_model-valid (cluster_for ("chat" ∷ [])) chat chat_on_b
      (Memᴰ.tail (Memᴰ.head refl))
