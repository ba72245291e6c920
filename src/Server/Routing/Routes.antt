-- ===== src/Server/Routing/Routes.antt =====
-- How the resolution of a route ends.
use rs_llmctl.Base.{
  ℕ, ◌≡◌, ◌≢◌, ◌⊎◌, ◌<◌, ◌++◌, subst, map, List, [], ◌∷◌, refl, inl, inr, String, false, ◌&&◌,
  Option, none, some, find, is_empty, ltb, str_eq, arith, eq_iff, Bool-cases, Option-cases,
}
use mathlib.Core.List.{Memᴰ}
use rs_llmctl.Base.Members.{find-some, find-none, find-first}
use rs_llmctl.Config.{
  ModelConfig, Config, Mode, single, cold_swap, hot_swap, weighted, fallback,
  ExternalProviderRouteConfig, route_for_model,
}
use rs_llmctl.Server.Routing.{
  unknown_alias, external_provider_routing_disabled, no_configured_models, Resolved, ok, err,
  model_is_routed_locally, weighted_model_for_request, fallback_models, fallback_aliases,
  weighted_models, or_model, upstream_in, route_to, resolve_upstream, requested_model,
  resolve_model_route,
}
use rs_llmctl.Server.Routing.Weights.{Chosen, weighted_model_for_request-Chosen}
use rs_llmctl.Server.Routing.Fallbacks.{Served, Ranked, fallback_models-Ranked}

-- The weighted choice for a request, or the model that was asked for where no served model has a
-- weight.
abbrev pub PickedByWeight : Config → String → ℕ → ModelConfig → Type 0
PickedByWeight cfg alias request_id m =
    (weighted_model_for_request cfg request_id ≡ some m)
    ⊎ ((weighted_models cfg ≡ []) × (m.alias ≡ alias))

-- Which model a mode sends a request to: the first served one, the one that was asked for, the one
-- chosen by weight, or the one chosen by weight only where the one that was asked for has none.
abbrev pub Picked : Mode → Config → String → ℕ → ModelConfig → Type 0
Picked single cfg alias request_id m =
    (before : List ModelConfig) × (after : List ModelConfig) × (cfg.models ≡ before ++ m ∷ after)
    × ((k : ModelConfig) → Memᴰ k before → model_is_routed_locally cfg k ≡ false)
Picked cold_swap cfg alias request_id m = m.alias ≡ alias
Picked hot_swap cfg alias request_id m = m.alias ≡ alias
Picked weighted cfg alias request_id m = PickedByWeight cfg alias request_id m
Picked fallback cfg alias request_id m =
    ((m.alias ≡ alias) × (0 < m.weight))
    ⊎ ((requested : ModelConfig) × Served cfg requested
        × (requested.alias ≡ alias)
        × (requested.weight ≡ 0)
        × PickedByWeight cfg alias request_id m)

-- The fallbacks of a mode: only `fallback` has any.
abbrev pub FallsBack : Mode → Config → String → List String → Type 0
FallsBack single cfg selected aliases = aliases ≡ []
FallsBack cold_swap cfg selected aliases = aliases ≡ []
FallsBack hot_swap cfg selected aliases = aliases ≡ []
FallsBack weighted cfg selected aliases = aliases ≡ []
FallsBack fallback cfg selected aliases =
    (ms : List ModelConfig) × (aliases ≡ map (λ m. m.alias) ms) × Ranked cfg selected ms

-- How a resolution must end.
abbrev pub RoutedRight : Config → String → ℕ → Resolved → Type 0
RoutedRight cfg alias request_id (ok route) =
    (route.requested_alias ≡ alias)
    × ((upstream : ModelConfig) × Served cfg upstream
        × Picked cfg.mode cfg alias request_id upstream
        × (route.upstream_alias ≡ upstream.alias)
        × (route_for_model cfg.external_routes upstream.alias ≡ none)
        × FallsBack cfg.mode cfg upstream.alias route.fallback_aliases)
RoutedRight cfg alias request_id (err (unknown_alias a)) =
    (a ≡ alias) × ((m : ModelConfig) → Served cfg m → m.alias ≢ alias)
RoutedRight cfg alias request_id (err (external_provider_routing_disabled provider)) =
    (upstream : ModelConfig) × (route : ExternalProviderRouteConfig) × Served cfg upstream
    × Picked cfg.mode cfg alias request_id upstream
    × (route_for_model cfg.external_routes upstream.alias ≡ some route)
    × (route.provider ≡ provider)
RoutedRight cfg alias request_id (err no_configured_models) = ⊥

abbrev IsPicked : Mode → Config → String → ℕ → Option ModelConfig → Type 0
IsPicked mode cfg alias request_id none = ⊥
IsPicked mode cfg alias request_id (some m) = Served cfg m × Picked mode cfg alias request_id m

first-Picked :
    (cfg : Config) (alias : String) (request_id : ℕ) (m : ModelConfig) (o : Option ModelConfig)
    → Served cfg m
    → find (model_is_routed_locally cfg) cfg.models ≡ o
    → IsPicked single cfg alias request_id o
first-Picked cfg alias request_id m none s h =
    let no_match = find-none (model_is_routed_locally cfg) m cfg.models h s.0 in
    let yes_match = s.1 in absurd cc
first-Picked cfg alias request_id m (some k) s h = (
  find-some (model_is_routed_locally cfg) k cfg.models h,
  find-first (model_is_routed_locally cfg) k cfg.models h,
)

weighted-Picked :
    (cfg : Config) (requested : ModelConfig) (request_id : ℕ) (o : Option ModelConfig)
    → weighted_model_for_request cfg request_id ≡ o
    → Chosen cfg o
    → Served cfg requested
    → Served cfg (or_model o requested)
      × PickedByWeight cfg requested.alias request_id (or_model o requested)
weighted-Picked cfg requested request_id none e c s = (s, inr (c, refl))
weighted-Picked cfg requested request_id (some m) e c s = ((c.0, c.2), inl e)

upstream_in-Picked :
    (mode : Mode) (cfg : Config) (requested : ModelConfig) (request_id : ℕ)
    → Served cfg requested
    → IsPicked mode cfg requested.alias request_id (upstream_in mode cfg requested request_id)
upstream_in-Picked single cfg requested request_id s =
    first-Picked cfg requested.alias request_id requested _ s refl
upstream_in-Picked cold_swap cfg requested request_id s = (s, refl)
upstream_in-Picked hot_swap cfg requested request_id s = (s, refl)
upstream_in-Picked weighted cfg requested request_id s =
    weighted-Picked cfg requested request_id (weighted_model_for_request cfg request_id) refl
      (weighted_model_for_request-Chosen cfg request_id) s
upstream_in-Picked fallback cfg requested request_id s =
    let picked =
      weighted-Picked cfg requested request_id (weighted_model_for_request cfg request_id) refl
        (weighted_model_for_request-Chosen cfg request_id) s in
    elim (Bool-cases (ltb 0 requested.weight)) [
      | inl e ↦ rw e (s, inl (refl, ground arith))
      | inr e ↦ rw e (picked.0, inr (requested, s, refl, ground arith, picked.1))
    ]

fallbacks-FallsBack :
    (mode : Mode) (cfg : Config) (selected : String)
    → FallsBack mode cfg selected (elim mode [ fallback ↦ fallback_aliases cfg selected | _ ↦ [] ])
unfolding fallback_aliases
fallbacks-FallsBack single cfg selected = refl
fallbacks-FallsBack cold_swap cfg selected = refl
fallbacks-FallsBack hot_swap cfg selected = refl
fallbacks-FallsBack weighted cfg selected = refl
fallbacks-FallsBack fallback cfg selected =
    (fallback_models cfg selected, refl, fallback_models-Ranked cfg selected)

route_to-RoutedRight :
    (cfg : Config) (alias : String) (request_id : ℕ) (m : ModelConfig)
    (o : Option ExternalProviderRouteConfig)
    → IsPicked cfg.mode cfg alias request_id (some m)
    → route_for_model cfg.external_routes m.alias ≡ o
    → RoutedRight cfg alias request_id (route_to cfg alias m o)
route_to-RoutedRight cfg alias request_id m none s e =
    (refl, (m, s.0, s.1, refl, e, fallbacks-FallsBack cfg.mode cfg m.alias))
route_to-RoutedRight cfg alias request_id m (some route) s e = (m, route, s.0, s.1, e, refl)

resolve_upstream-RoutedRight :
    (cfg : Config) (alias : String) (request_id : ℕ) (o : Option ModelConfig)
    → IsPicked cfg.mode cfg alias request_id o
    → RoutedRight cfg alias request_id (resolve_upstream cfg alias o)
resolve_upstream-RoutedRight cfg alias request_id none s = absurd s
resolve_upstream-RoutedRight cfg alias request_id (some m) s =
    route_to-RoutedRight cfg alias request_id m _ s refl

requested_found :
    (cfg : Config) (alias : String) (m : ModelConfig)
    → requested_model cfg alias ≡ some m
    → Served cfg m × (m.alias ≡ alias)
unfolding requested_model
requested_found cfg alias m h =
    let r = find-some (λ k. str_eq k.alias alias && model_is_routed_locally cfg k) m cfg.models h in
    let passed = r.1 in ((r.0, ground arith), ground (arith, eq_iff m.alias alias))

requested_missing :
    (cfg : Config) (alias : String) (m : ModelConfig)
    → requested_model cfg alias ≡ none
    → Served cfg m
    → m.alias ≢ alias
unfolding requested_model
requested_missing cfg alias m h s same =
    let missed =
      find-none (λ k. str_eq k.alias alias && model_is_routed_locally cfg k) m cfg.models h s.0 in
    let here = s.1 in let e = (eq_iff m.alias alias).1 same in ground arith

-- Where models are configured: a route that is found keeps the alias that was asked for and leads to
-- a model that the local node has, for which no external provider is configured, and which is the
-- one of the mode: the first that the node has (single); the one that was asked for (cold-swap,
-- hot-swap); the weighted choice for the request, or the one that was asked for where no model of
-- the node has a weight (weighted); the one that was asked for if it has a weight, and as in
-- weighted if it has none (fallback). The fallbacks are, in the mode fallback, the aliases of
-- exactly the node's models under another alias, the heavier before the lighter, and none in the
-- other modes. The alias is unknown only where no model of that alias is on the local node; an
-- external provider is refused only where the chosen model is routed to that provider; and the
-- error that no models are configured does not occur.
pub resolve_model_route-RoutedRight :
    (cfg : Config) (alias : String) (request_id : ℕ)
    → is_empty cfg.models ≡ false
    → RoutedRight cfg alias request_id (resolve_model_route cfg alias request_id)
unfolding resolve_model_route
resolve_model_route-RoutedRight cfg alias request_id h =
    elim (Option-cases (requested_model cfg alias)) [
      | inl e ↦
          rw (h, resolve_model_route)
            (rw (e, resolve_model_route) (refl, λ m s. requested_missing cfg alias m e s))
      | inr (m, e) ↦
          let found = requested_found cfg alias m e in
          rw (h, resolve_model_route)
            (rw (e, resolve_model_route)
              (resolve_upstream-RoutedRight cfg alias request_id
                (upstream_in cfg.mode cfg m request_id)
                (subst
                  (λ a. IsPicked cfg.mode cfg a request_id (upstream_in cfg.mode cfg m request_id))
                  found.1 (upstream_in-Picked cfg.mode cfg m request_id found.0))))
    ]
