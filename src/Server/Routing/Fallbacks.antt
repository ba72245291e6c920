-- ===== src/Server/Routing/Fallbacks.antt =====
-- src/server/routing.rs: the models that the local node has, and the order of the fallbacks.
use rs_llmctl.Base.{
  ◌≡◌, ◌≢◌, List, refl, inl, inr, ◌↔◌, String, Bool, true, not, str_eq, arith, eq_iff, Bool-cases,
}
use mathlib.Core.List.{Memᴰ}
use rs_llmctl.Base.Members.{Mem-filter, filter-Mem, Mem-sort_by, sort_by-Mem}
use rs_llmctl.Base.Descending.{Descends, Descends-sort_by}
use rs_llmctl.Config.{ModelConfig, Config}
use rs_llmctl.Server.Routing.{
  model_is_routed_locally, routed_models, heavier_before, alias_before, fallback_models,
}

-- a model of the configuration that the local node has
abbrev pub Served : Config → ModelConfig → Type 0
Served cfg m = Memᴰ m cfg.models × (model_is_routed_locally cfg m ≡ true)

-- The models that the local node has under another alias, the heavier before the lighter.
abbrev pub Ranked : Config → String → List ModelConfig → Type 0
Ranked cfg selected ms =
    Descends (λ m. m.weight) ms
    × ((m : ModelConfig) → Memᴰ m ms ↔ (Served cfg m × (m.alias ≢ selected)))

abbrev other : String → ModelConfig → Bool
other selected m = not (str_eq m.alias selected)

-- The fallbacks of a model are exactly the models that the local node has under another alias, the
-- heavier before the lighter.
pub fallback_models-Ranked :
    (cfg : Config) (selected : String) → Ranked cfg selected (fallback_models cfg selected)
unfolding fallback_models routed_models
fallback_models-Ranked cfg selected = (
  Descends-sort_by (λ m. m.weight) heavier_before (λ a b h. ground arith) (λ a b h. ground arith) _,
  λ m. (
    λ h.
        let r =
          Mem-filter (other selected) m (routed_models cfg) (Mem-sort_by heavier_before m _ h) in
        let s =
          Mem-filter (model_is_routed_locally cfg) m cfg.models
            (Mem-sort_by alias_before m _ r.0) in
        (s, λ same. let e = (eq_iff m.alias selected).1 same in let passed = r.1 in ground arith),
    λ h.
        let routed =
          sort_by-Mem alias_before m _
            (filter-Mem (model_is_routed_locally cfg) m cfg.models h.0.0 h.0.1) in
        sort_by-Mem heavier_before m _ (
          filter-Mem (other selected) m (routed_models cfg) routed
            (elim (Bool-cases (str_eq m.alias selected)) [
              | inl e ↦ absurd (h.1 ((eq_iff m.alias selected).0 e))
              | inr e ↦ rw e refl
            ])),
  ),
)
