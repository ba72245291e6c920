-- ===== src/Quota/Admission/Race.antt =====
-- src/quota.rs: a policy of a subject whose keys stand in two teams. The lock is the team's, so the
-- two admissions do not exclude each other.
use rs_llmctl.Base.{
  ℕ, ◌+◌, ◌≡◌, String, Bool, true, false, List, [], ◌∷◌, arith, str_eq, eq_iff, eq_refl,
}
use rs_llmctl.Quota.Rows.{
  Principal, Reason, count_rows, counts_decision, allowed_quota_decision_count,
}
use rs_llmctl.Quota.{QuotaConfig, Query, minute, ok, check_quota}
use rs_llmctl.Quota.Admission.{
  quota_admission_scope, lock_eq, Event, begins, commits, admissions_run,
}
use rs_llmctl.Quota.Admission.Limit.{no_admissions}

-- one request in a minute for a subject
abbrev pub one_per_minute : String → QuotaConfig
one_per_minute subject = record {
  subject = subject;
  team = "";
  requests_per_minute = 1;
  tokens_per_day = 0;
  max_concurrency = 0;
  allowed_models = [];
}

abbrev pub no_query_fails : Query → Bool
no_query_fails q = false

-- Both requests are checked before the first is recorded.
abbrev pub interleaved : Principal → Principal → String → ℕ → List (ℕ × Event)
interleaved p p' model t =
    (t, begins p model no_query_fails)
    ∷ (t + 1, begins p' model no_query_fails)
    ∷ (t + 2, commits 1 false)
    ∷ (t + 3, commits 0 false)
    ∷ []

check_quota-fresh :
    (p : Principal) (subject model : String) (now : ℕ)
    → p.subject ≡ subject
    → check_quota no_admissions.storage (one_per_minute subject ∷ []) p model now no_query_fails
      ≡ ok (record { allowed = true; reason = Reason.policy_allowed })
unfolding check_quota allowed_quota_decision_count count_rows
check_quota-fresh p subject model now e = rw (e, eq_refl)

lock_eq-teams :
    (p p' : Principal)
    → str_eq p.team p'.team ≡ false
    → lock_eq (quota_admission_scope p) (quota_admission_scope p') ≡ false
lock_eq-teams p p' h = ground (arith, eq_iff p.team p'.team, eq_iff p.team "", eq_iff p'.team "")

-- The limit of a subject is not kept under concurrency if its requests come from two teams: with
-- one request allowed in a minute, the interleaving in which both requests are checked before one
-- is recorded admits both of them in the minute.
pub admissions_run-two_teams :
    (p p' : Principal) (subject model : String) (t : ℕ)
    → p.subject ≡ subject
    → p'.subject ≡ subject
    → str_eq p.team p'.team ≡ false
    → (let s =
          admissions_run (one_per_minute subject ∷ []) (interleaved p p' model t) no_admissions in
        count_rows (counts_decision p true t (t + minute)) s.storage.quota_decisions ≡ 2)
unfolding admissions_run count_rows
admissions_run-two_teams p p' subject model t e e' h = rw (check_quota-fresh p subject model t e) (
    rw (lock_eq-teams p p' h) (
      rw (check_quota-fresh p' subject model (t + 1) e')
        (ground (arith, eq_iff p'.subject p.subject, eq_iff p.subject p.subject))))
