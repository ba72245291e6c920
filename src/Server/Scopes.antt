-- ===== src/Server/Scopes.antt =====
-- src/server/chat.rs: the scopes that a request takes permits for, with their limits, from the
-- quota policies of its principal. A `max_concurrency` is a `u64`, which a `usize` holds.
pub mod Tightest
pub mod Clash
mod Examples
use Prim.Native.String.{◌++◌ as append}
use rs_llmctl.Base.{
  ℕ, min, String, Bool, true, false, ◌&&◌, Option, none, some, List, [], ◌∷◌, if◌then◌else◌, ltb,
  str_eq, ◌==◌,
}
use rs_llmctl.Base.Map.{Map, get, insert}
use rs_llmctl.Quota.{QuotaConfig, quota_is_subject_scoped, matching_quota_policies}
use rs_llmctl.Quota.Rows.{Principal}

abbrev pub scope_of : Principal → QuotaConfig → String
scope_of p q =
    if quota_is_subject_scoped q p then append "subject:" p.subject else append "team:" p.team

-- `and_modify(min)` and `or_insert(limit)`
abbrev pub tightened : ℕ → Option ℕ → ℕ
tightened limit none = limit
tightened limit (some existing) = min existing limit

unfoldable pub add_scopes : Principal → List QuotaConfig → Map ℕ → Map ℕ
add_scopes p [] scopes = scopes
add_scopes p (q ∷ qs) scopes = add_scopes p qs (
    if q.max_concurrency == 0
    then scopes
    else insert (scope_of p q) (tightened q.max_concurrency (get (scope_of p q) scopes)) scopes)

unfoldable pub quota_admission_scopes : List QuotaConfig → Principal → Map ℕ
unfolding add_scopes
quota_admission_scopes quotas p = add_scopes p (matching_quota_policies quotas p) []
