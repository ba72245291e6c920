-- ===== src/Config.antt =====
-- src/config: the parts of the configuration that the other modules read. A path is a text. Left out
-- are the fields that nothing here reads (TLS, timeouts, CORS, the budget as a float).
use rs_llmctl.Base.{ℕ, String, Bool, Option, List, find, str_eq}

pub record ModelConfig : Type 0 where
  pub alias : String
  pub path : String
  pub role : String
  pub family : Option String
  pub weight : ℕ

pub record ServerConfig : Type 0 where
  pub host : String
  pub port : ℕ
  pub worker_base_port : ℕ
  pub context_size : ℕ

pub record ResourceConfig : Type 0 where
  pub cpu_only : Bool
  pub gpu_vendor : String
  pub llama_server_bin : Option String

pub data Mode : Type 0 where
  single cold_swap hot_swap weighted fallback : Mode

pub record ClusterNodeConfig : Type 0 where
  pub id : String
  pub base_url : String
  pub roles : List String
  pub model_aliases : List String

pub record ClusterConfig : Type 0 where
  pub node_id : String
  pub nodes : List ClusterNodeConfig

pub record ExternalProviderRouteConfig : Type 0 where
  pub model_alias : String
  pub provider : String

pub record Config : Type 0 where
  pub mode : Mode
  pub server : ServerConfig
  pub cluster : ClusterConfig
  pub models : List ModelConfig
  pub external_routes : List ExternalProviderRouteConfig

-- `ExternalProvidersConfig::route_for_model`
unfoldable pub route_for_model :
    List ExternalProviderRouteConfig → String → Option ExternalProviderRouteConfig
route_for_model routes alias = find (λ route. str_eq route.model_alias alias) routes
