-- ===== src/Quota/Examples.antt =====
-- Runs of the quota checks, and the theorems at concrete policies and requests.
use rs_llmctl.Base.{ℕ, ◌+◌, ◌≤◌, ◌≡◌, refl, String, true, false, none, List, [], ◌∷◌, arith, str_eq}
use rs_llmctl.Quota.Rows.{
  Principal, Reason, of_team, Storage, count_rows, counts_decision, allowed_quota_decision_count,
}
use rs_llmctl.Quota.{QuotaConfig, minute, matching_quota_policies, ok, check_quota}
use rs_llmctl.Quota.Policies.{all, kept, Allows, check_quota-Allows}
use rs_llmctl.Quota.Admission.{Event, begins, commits, admissions_run}
use rs_llmctl.Quota.Admission.Window.{in_minute}
use rs_llmctl.Quota.Admission.Limit.{Follows, no_admissions, admissions_run-per_minute}
use rs_llmctl.Quota.Admission.Race.{
  one_per_minute, no_query_fails, interleaved, admissions_run-two_teams,
}

abbrev member : String → String → Principal
member subject team = record {
  subject = subject;
  team = team;
  scopes = "chat" ∷ [];
  key_id = none;
  key_owner = none;
  key_purpose = none;
  key_status = none;
}

abbrev team_policy : QuotaConfig
team_policy = record {
  subject = "team-default";
  team = "platform";
  requests_per_minute = 1;
  tokens_per_day = 100;
  max_concurrency = 0;
  allowed_models = "llama" ∷ [];
}

abbrev two_rows : Storage
two_rows = record {
  quota_decisions =
      record { at = 90000000000; actor = "bob"; team = "platform"; model = "llama"; allowed = true }
      ∷ [];
  usage_events = [];
}

-- Another member of the team has used up the minute.
denied :
    check_quota two_rows
      (team_policy ∷ [])
      (member "alice" "platform")
      "llama"
      100000000000
      no_query_fails
    ≡ ok (record { allowed = false; reason = Reason.requests_exhausted (of_team "platform") 1 1 })
unfolding check_quota allowed_quota_decision_count count_rows
denied = refl

check_quota-Allows_example :
    Allows
      (all
        (kept two_rows 100000000000 (member "alice" "platform") "llama")
        (matching_quota_policies (team_policy ∷ []) (member "alice" "platform")))
      (check_quota two_rows
        (team_policy ∷ [])
        (member "alice" "platform")
        "llama"
        100000000000
        no_query_fails)
check_quota-Allows_example =
    check_quota-Allows two_rows (team_policy ∷ []) (member "alice" "platform") "llama" 100000000000
      no_query_fails

-- Two members ask at once; the second waits for the lock and is checked when it is free.
abbrev requests : List (ℕ × Event)
requests =
    (10, begins (member "alice" "platform") "llama" no_query_fails)
    ∷ (11, begins (member "bob" "platform") "llama" no_query_fails)
    ∷ (12, commits 0 false)
    ∷ (13, begins (member "bob" "platform") "llama" no_query_fails)
    ∷ (14, commits 0 false)
    ∷ []

apart : str_eq "team-default" "alice" ≡ false
apart = refl

apart_too : str_eq "team-default" "bob" ≡ false
apart_too = refl

follows : Follows team_policy 0 requests
follows = (
  omega arith,
  (λ h. apart),
  (
    omega arith,
    (λ h. apart_too),
    (omega arith, tt, (omega arith, (λ h. apart_too), (omega arith, tt, tt))),
  ),
)

admissions_run-per_minute_example :
    count_rows
      (in_minute "platform" 5)
      (admissions_run (team_policy ∷ []) requests no_admissions).storage.quota_decisions
    ≤ 1
admissions_run-per_minute_example =
    admissions_run-per_minute team_policy [] [] refl (omega arith) 0 5 requests follows

admissions_run-two_teams_example :
    (let s =
        admissions_run
          (one_per_minute "alice" ∷ [])
          (interleaved (member "alice" "platform") (member "alice" "research") "llama" 7)
          no_admissions in
      count_rows
        (counts_decision (member "alice" "platform") true 7 (7 + minute))
        s.storage.quota_decisions
      ≡ 2)
admissions_run-two_teams_example =
    admissions_run-two_teams (member "alice" "platform") (member "alice" "research") "alice" "llama"
      7 refl refl refl
