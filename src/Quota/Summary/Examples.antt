-- ===== src/Quota/Summary/Examples.antt =====
-- src/quota.rs: a report of three policies, one of which holds the largest limit.
use rs_llmctl.Base.{ℕ, String, some, List, [], ◌∷◌, ◌≡◌, refl, map, find, str_eq}
use rs_llmctl.Base.Map.{get, insert}
use rs_llmctl.Quota.{QuotaConfig}
use rs_llmctl.Quota.Summary.{summarize_quota_policies, add_to_team, add_quota}
use rs_llmctl.Quota.Summary.Totals.{reported, summarize_quota_policies-Totals}

abbrev policy : String → String → ℕ → List String → QuotaConfig
policy subject team tokens models = record {
  subject = subject;
  team = team;
  requests_per_minute = 10;
  tokens_per_day = tokens;
  max_concurrency = 2;
  allowed_models = models;
}

abbrev policies : List QuotaConfig
policies =
    policy "bob" "platform" 18446744073709551615 ("qwen" ∷ "llama" ∷ [])
    ∷ policy "eve" "data" 7 ("llama" ∷ [])
    ∷ policy "ann" "platform" 5 ("llama" ∷ [])
    ∷ []

test-subjects :
    map (λ s. s.subjects) (summarize_quota_policies policies).by_team
    ≡ ("eve" ∷ []) ∷ ("ann" ∷ "bob" ∷ []) ∷ []
unfolding summarize_quota_policies add_to_team add_quota insert get
test-subjects = refl

test-models :
    map (λ s. s.allowed_models) (summarize_quota_policies policies).by_subject
    ≡ ("llama" ∷ []) ∷ ("llama" ∷ "qwen" ∷ []) ∷ ("llama" ∷ []) ∷ []
unfolding summarize_quota_policies add_to_team add_quota insert get
test-models = refl

summarize_quota_policies-Totals_example :
    reported (find (λ s. str_eq s.team "platform") (summarize_quota_policies policies).by_team)
    ≡ some (2, 20, 18446744073709551615, 4)
summarize_quota_policies-Totals_example = summarize_quota_policies-Totals policies "platform"
