-- ===== src/Quota.antt =====
-- src/quota.rs: principals, quota policies and the check of a request against them. Times are
-- nanoseconds since the epoch (UTC). The texts of a decision's reason are the data type
-- `Reason`: its constructors hold what `format!` puts in. The argument `fails` says which queries to
-- the database fail.
pub mod Rows
pub mod Policies
pub mod Admission
pub mod Summary
mod Examples
use rs_llmctl.Base.{
  ℕ, zero, suc, ◌+◌, ◌-◌, ◌*◌, ◌%◌, String, Bool, true, false, not, ◌&&◌, ◌||◌, Option, none, some,
  List, [], ◌∷◌, if◌then◌else◌, ltb, leb, str_eq, filter, any, is_empty, contains,
}
use Rows.{
  Principal, QuotaDecision, Reason, Label, of_subject, of_team, Storage,
  allowed_quota_decision_count, usage_tokens_total,
}

pub record QuotaConfig : Type 0 where
  pub subject : String
  pub team : String
  pub requests_per_minute : ℕ
  pub tokens_per_day : ℕ
  pub max_concurrency : ℕ
  pub allowed_models : List String

abbrev pub minute : ℕ
minute = 60000000000

abbrev pub day : ℕ
day = 86400000000000

abbrev pub quota_is_subject_scoped : QuotaConfig → Principal → Bool
quota_is_subject_scoped q p = str_eq q.subject p.subject

abbrev pub matches_principal : Principal → QuotaConfig → Bool
matches_principal p q =
    str_eq q.subject p.subject || (not (str_eq q.team "") && str_eq q.team p.team)

unfoldable pub matching_quota_policies : List QuotaConfig → Principal → List QuotaConfig
matching_quota_policies quotas p = filter (matches_principal p) quotas

pub matching_quota_policy : List QuotaConfig → Principal → Option QuotaConfig
unfolding matching_quota_policies
matching_quota_policy quotas p = elim (matching_quota_policies quotas p) [
  | [] ↦ none
  | q ∷ rest ↦ some q
]

abbrev pub quota_scope_label : QuotaConfig → Principal → Label
quota_scope_label q p = if quota_is_subject_scoped q p then of_subject p.subject else of_team p.team

abbrev pub deny : Reason → QuotaDecision
deny reason = record { allowed = false; reason = reason }

pub data QuotaResult (A : Type 0) : Type 0 where
  ok : A → QuotaResult A
  storage_error : QuotaResult A

-- what one policy says of the model
abbrev pub model_denied : String → QuotaConfig → Bool
model_denied model q = not (is_empty q.allowed_models) && not (contains model q.allowed_models)

-- the first loop
check_models : Principal → String → List QuotaConfig → Option QuotaDecision
check_models p model [] = none
check_models p model (q ∷ qs) =
    let rest = check_models p model qs in
    if model_denied model q
    then some (deny (Reason.model_not_allowed model (quota_scope_label q p)))
    else rest

-- the query of the second or the third loop for a policy
pub data Query : Type 0 where
  counts sums : QuotaConfig → Query

-- the second loop
check_requests :
    Storage → ℕ → (Query → Bool) → Principal → List QuotaConfig → QuotaResult (Option QuotaDecision)
check_requests storage now fails p [] = ok none
check_requests storage now fails p (q ∷ qs) =
    let rest = check_requests storage now fails p qs in
    let admitted =
      allowed_quota_decision_count storage p (quota_is_subject_scoped q p) (now - minute) now in
    if ltb 0 q.requests_per_minute
    then (if fails (counts q)
        then storage_error
        else (if leb q.requests_per_minute admitted
            then ok (
                some (
                  deny (
                    Reason.requests_exhausted (quota_scope_label q p) admitted
                      q.requests_per_minute)))
            else rest))
    else rest

-- midnight UTC
abbrev pub day_start : ℕ → ℕ
day_start now = now - now % day

-- the third loop
check_tokens :
    Storage → ℕ → (Query → Bool) → Principal → List QuotaConfig → QuotaResult (Option QuotaDecision)
check_tokens storage now fails p [] = ok none
check_tokens storage now fails p (q ∷ qs) =
    let rest = check_tokens storage now fails p qs in
    let used = usage_tokens_total storage p (quota_is_subject_scoped q p) (day_start now) now in
    if ltb 0 q.tokens_per_day
    then (if fails (sums q)
        then storage_error
        else (if leb q.tokens_per_day used
            then ok (
                some (deny (Reason.tokens_exhausted (quota_scope_label q p) used q.tokens_per_day)))
            else rest))
    else rest

abbrev allow_or :
    QuotaResult (Option QuotaDecision) → QuotaResult QuotaDecision → QuotaResult QuotaDecision
allow_or storage_error next = storage_error
allow_or (ok none) next = next
allow_or (ok (some decision)) next = ok decision

-- the checks of the matching policies, in the order of the source
check_matching :
    Storage → ℕ → (Query → Bool) → Principal → String → List QuotaConfig → QuotaResult QuotaDecision
unfolding check_models check_requests check_tokens
check_matching storage now fails p model matching =
    if is_empty matching
    then ok (record { allowed = true; reason = Reason.no_quota_configured })
    else (allow_or (ok (check_models p model matching)) (
        allow_or (check_requests storage now fails p matching) (
          allow_or (check_tokens storage now fails p matching)
            (ok (record { allowed = true; reason = Reason.policy_allowed })))))

pub check_quota :
    Storage → List QuotaConfig → Principal → String → ℕ → (Query → Bool) → QuotaResult QuotaDecision
unfolding check_matching matching_quota_policies
check_quota storage quotas p model now fails =
    check_matching storage now fails p model (matching_quota_policies quotas p)
