-- ===== src/Quota/Rows.antt =====
-- src/storage/decisions.rs and src/storage/usage.rs: the rows that quotas count, as lists, the
-- latest first, and the two counting queries (both SQL dialects select the same rows).
-- Here too `Principal` and `QuotaDecision` of src/quota.rs, which the rows are made from.
use rs_llmctl.Base.{
  ℕ, ◌+◌, String, Bool, ◌&&◌, ◌||◌, Option, List, [], ◌∷◌, if◌then◌else◌, ltb, leb, str_eq, any,
}
use text.Mathlib.Text.{starts_with}

pub record Principal : Type 0 where
  pub subject : String
  pub team : String
  pub scopes : List String
  pub key_id : Option String
  pub key_owner : Option String
  pub key_purpose : Option String
  pub key_status : Option String

-- `has_scope`
abbrev grants : String → String → Bool
grants scope s =
    str_eq s scope
    || str_eq s "admin"
    || (starts_with scope "models." && str_eq s "models")
    || (starts_with scope "chat." && str_eq s "chat")

pub has_scope : Principal → String → Bool
has_scope p scope = any (grants scope) p.scopes

pub data Label : Type 0 where
  of_subject of_team : String → Label

pub data Reason : Type 0 where
  no_quota_configured policy_allowed : Reason
  model_not_allowed : String → Label → Reason
  requests_exhausted tokens_exhausted : Label → ℕ → ℕ → Reason

pub record QuotaDecision : Type 0 where
  pub allowed : Bool
  pub reason : Reason

-- a row of `quota_decisions`
pub record QuotaDecisionRecord : Type 0 where
  pub at : ℕ
  pub actor : String
  pub team : String
  pub model : String
  pub allowed : Bool

-- a row of `usage_events`
pub record UsageEvent : Type 0 where
  pub at : ℕ
  pub actor : String
  pub team : String
  pub input_tokens : ℕ
  pub output_tokens : ℕ

pub record Storage : Type 0 where
  pub quota_decisions : List QuotaDecisionRecord
  pub usage_events : List UsageEvent

-- `actor = subject` or `team = team`, by the scope
abbrev pub in_scope : Principal → Bool → String → String → Bool
in_scope p subject_scoped actor team =
    if subject_scoped then str_eq actor p.subject else str_eq team p.team

-- `at >= from AND at < to`
abbrev pub within : ℕ → ℕ → ℕ → Bool
within from to at = leb from at && ltb at to

unfoldable pub count_rows : (QuotaDecisionRecord → Bool) → List QuotaDecisionRecord → ℕ
count_rows wanted [] = 0
count_rows wanted (r ∷ rs) = (if wanted r then 1 else 0) + count_rows wanted rs

abbrev pub counts_decision : Principal → Bool → ℕ → ℕ → QuotaDecisionRecord → Bool
counts_decision p subject_scoped from to r =
    r.allowed && within from to r.at && in_scope p subject_scoped r.actor r.team

unfoldable pub allowed_quota_decision_count : Storage → Principal → Bool → ℕ → ℕ → ℕ
allowed_quota_decision_count s p subject_scoped from to =
    count_rows (counts_decision p subject_scoped from to) s.quota_decisions

unfoldable pub sum_tokens : (UsageEvent → Bool) → List UsageEvent → ℕ
sum_tokens wanted [] = 0
sum_tokens wanted (e ∷ es) =
    (if wanted e then e.input_tokens + e.output_tokens else 0) + sum_tokens wanted es

unfoldable pub usage_tokens_total : Storage → Principal → Bool → ℕ → ℕ → ℕ
usage_tokens_total s p subject_scoped from to =
    sum_tokens (λ e. within from to e.at && in_scope p subject_scoped e.actor e.team) s.usage_events

-- `INSERT INTO quota_decisions`
unfoldable pub insert_quota_decision : QuotaDecisionRecord → Storage → Storage
insert_quota_decision r s = record s { quota_decisions = r ∷ s.quota_decisions }
