-- ===== src/Quota/Summary.antt =====
-- src/quota.rs: the report of the quota policies by team and by subject. A set of texts is a map to
-- units. The map whose keys are pairs is a map of the subjects to maps of their teams, which lists
-- the pairs in the same order.
pub mod Totals
mod Examples
use rs_llmctl.Base.{
  ℕ, zero, ◌+◌, String, Option, none, some, List, [], ◌∷◌, ◌++◌, length, map, saturating_add,
  u64_max,
}
use rs_llmctl.Base.Map.{Map, get, insert}
use rs_llmctl.Quota.{QuotaConfig}

pub record QuotaPolicyAccumulator : Type 0 where
  pub policy_count : ℕ
  pub subjects : Map {0} Unit
  pub allowed_models : Map {0} Unit
  pub total_requests_per_minute : ℕ
  pub total_tokens_per_day : ℕ
  pub total_max_concurrency : ℕ

pub record QuotaTeamPolicySummary : Type 0 where
  pub team : String
  pub policy_count : ℕ
  pub subjects : List String
  pub allowed_models : List String
  pub total_requests_per_minute : ℕ
  pub total_tokens_per_day : ℕ
  pub total_max_concurrency : ℕ

pub record QuotaSubjectPolicySummary : Type 0 where
  pub subject : String
  pub team : String
  pub policy_count : ℕ
  pub allowed_models : List String
  pub total_requests_per_minute : ℕ
  pub total_tokens_per_day : ℕ
  pub total_max_concurrency : ℕ

pub record QuotaPolicyReport : Type 0 where
  pub policy_count : ℕ
  pub total_requests_per_minute : ℕ
  pub total_tokens_per_day : ℕ
  pub total_max_concurrency : ℕ
  pub by_team : List QuotaTeamPolicySummary
  pub by_subject : List QuotaSubjectPolicySummary

abbrev pub default_accumulator : QuotaPolicyAccumulator
default_accumulator = record {
  policy_count = 0;
  subjects = [];
  allowed_models = [];
  total_requests_per_minute = 0;
  total_tokens_per_day = 0;
  total_max_concurrency = 0;
}

abbrev pub keys {ℓ} : {V : Type ℓ} → Map V → List String
keys [] = []
keys ((k, v) ∷ m) = k ∷ keys m

-- `extend` of a set
abbrev pub extend : Map {0} Unit → List String → Map {0} Unit
extend s [] = s
extend s (x ∷ xs) = extend (insert x tt s) xs

unfoldable pub add_quota : QuotaConfig → QuotaPolicyAccumulator → QuotaPolicyAccumulator
add_quota q a = record {
  subjects = a.subjects;
  policy_count = a.policy_count + 1;
  total_requests_per_minute =
      saturating_add u64_max a.total_requests_per_minute q.requests_per_minute;
  total_tokens_per_day = saturating_add u64_max a.total_tokens_per_day q.tokens_per_day;
  total_max_concurrency = saturating_add u64_max a.total_max_concurrency q.max_concurrency;
  allowed_models = extend a.allowed_models q.allowed_models;
}

-- `entry(key).or_default()`
abbrev pub or_default : Option QuotaPolicyAccumulator → QuotaPolicyAccumulator
or_default none = default_accumulator
or_default (some a) = a

-- `subjects.insert(subject)`
abbrev pub with_subject : String → QuotaPolicyAccumulator → QuotaPolicyAccumulator
with_subject subject a = record a { subjects = insert subject tt a.subjects }

unfoldable pub add_to_team : QuotaConfig → QuotaPolicyAccumulator → QuotaPolicyAccumulator
unfolding add_quota
add_to_team q a = with_subject q.subject (add_quota q a)

-- the two maps that the loop fills, and the totals
abbrev pub team_accumulators :
    List QuotaConfig → Map QuotaPolicyAccumulator → Map QuotaPolicyAccumulator
team_accumulators [] teams = teams
team_accumulators (q ∷ quotas) teams =
    team_accumulators quotas (insert q.team (add_to_team q (or_default (get q.team teams))) teams)

abbrev pub or_empty {ℓ} : {V : Type ℓ} → Option (Map V) → Map V
or_empty none = []
or_empty (some m) = m

abbrev pub add_to_subject : QuotaConfig → Map QuotaPolicyAccumulator → Map QuotaPolicyAccumulator
add_to_subject q teams = insert q.team (add_quota q (or_default (get q.team teams))) teams

abbrev pub subject_accumulators :
    List QuotaConfig → Map (Map QuotaPolicyAccumulator) → Map (Map QuotaPolicyAccumulator)
subject_accumulators [] subjects = subjects
subject_accumulators (q ∷ quotas) subjects =
    subject_accumulators quotas
      (insert q.subject (add_to_subject q (or_empty (get q.subject subjects))) subjects)

abbrev pub total : (QuotaConfig → ℕ) → ℕ → List QuotaConfig → ℕ
total f sum [] = sum
total f sum (q ∷ quotas) = total f (saturating_add u64_max sum (f q)) quotas

abbrev pub team_summary : String × QuotaPolicyAccumulator → QuotaTeamPolicySummary
team_summary (team, a) = record {
  team = team;
  policy_count = a.policy_count;
  subjects = keys a.subjects;
  allowed_models = keys a.allowed_models;
  total_requests_per_minute = a.total_requests_per_minute;
  total_tokens_per_day = a.total_tokens_per_day;
  total_max_concurrency = a.total_max_concurrency;
}

abbrev pub subject_summary : String → String × QuotaPolicyAccumulator → QuotaSubjectPolicySummary
subject_summary subject (team, a) = record {
  subject = subject;
  team = team;
  policy_count = a.policy_count;
  allowed_models = keys a.allowed_models;
  total_requests_per_minute = a.total_requests_per_minute;
  total_tokens_per_day = a.total_tokens_per_day;
  total_max_concurrency = a.total_max_concurrency;
}

abbrev pub subject_summaries : Map (Map QuotaPolicyAccumulator) → List QuotaSubjectPolicySummary
subject_summaries [] = []
subject_summaries ((subject, teams) ∷ subjects) =
    map (subject_summary subject) teams ++ subject_summaries subjects

unfoldable pub summarize_quota_policies : List QuotaConfig → QuotaPolicyReport
summarize_quota_policies quotas = record {
  policy_count = length quotas;
  total_requests_per_minute = total (λ q. q.requests_per_minute) 0 quotas;
  total_tokens_per_day = total (λ q. q.tokens_per_day) 0 quotas;
  total_max_concurrency = total (λ q. q.max_concurrency) 0 quotas;
  by_team = map team_summary (team_accumulators quotas []);
  by_subject = subject_summaries (subject_accumulators quotas []);
}
