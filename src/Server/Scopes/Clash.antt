-- ===== src/Server/Scopes/Clash.antt =====
-- src/server/chat.rs with the semaphores of src/server/traffic.rs: two subjects of a team.
use Prim.Native.String.{◌++◌ as append, ◌∷◌ as prefix}
use Prim.Native.Char.{Char}
use rs_llmctl.Base.{ℕ, ◌<◌, String, none, ◌≢◌, List, [], ◌∷◌}
use rs_llmctl.Base.Map.{Map}
use rs_llmctl.Quota.{QuotaConfig}
use rs_llmctl.Quota.Rows.{Principal}

abbrev letter_s : Char
letter_s = "s"

abbrev letter_t : Char
letter_t = "t"

-- a policy for a subject of a team that limits how many requests run
abbrev pub policy : String → String → ℕ → QuotaConfig
policy subject team max_concurrency = record {
  subject = subject;
  team = team;
  requests_per_minute = 0;
  tokens_per_day = 0;
  max_concurrency = max_concurrency;
  allowed_models = [];
}

abbrev pub member : String → String → Principal
member subject team = record {
  subject = subject;
  team = team;
  scopes = "chat" ∷ [];
  key_id = none;
  key_owner = none;
  key_purpose = none;
  key_status = none;
}

abbrev pub team_scope : String → String
team_scope team = append "team:" team

abbrev pub two_policies : String → String → String → ℕ → ℕ → List QuotaConfig
two_policies a b team limit_a limit_b = policy a team limit_a ∷ policy b team limit_b ∷ []

module _ (a b team : String) (limit_a limit_b : ℕ) (two : a ≢ b) (named : team ≢ "")
    (positive_a : 0 < limit_a) (positive_b : 0 < limit_b) where
  abbrev quotas : List QuotaConfig
  quotas = two_policies a b team limit_a limit_b
