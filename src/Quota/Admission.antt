-- ===== src/Quota/Admission.antt =====
-- src/quota.rs: `admit_request`, and concurrent admissions. A request checks and records under the
-- lock of its scope (`with_quota_admission` of src/storage/mod.rs), so an admission is two steps:
-- `begins` takes the lock and checks, `commits` inserts the row and releases the lock. Admissions
-- of different scopes interleave at these steps. A scope's text (`team:` or `subject:` and a name)
-- is the data type `LockScope`. Each step has its own time.
pub mod Window
pub mod Limit
pub mod Race
use rs_llmctl.Base.{
  ℕ, zero, suc, ◌+◌, String, Bool, true, false, ◌||◌, Option, none, some, List, [], ◌∷◌,
  if◌then◌else◌, str_eq, any, map,
}
use rs_llmctl.Quota.Rows.{
  Principal, QuotaDecision, QuotaDecisionRecord, Storage, insert_quota_decision,
}
use rs_llmctl.Quota.{QuotaConfig, Query, QuotaResult, ok, storage_error, check_quota}

pub data LockScope : Type 0 where
  team_lock subject_lock : String → LockScope

abbrev pub quota_admission_scope : Principal → LockScope
quota_admission_scope p = if str_eq p.team "" then subject_lock p.subject else team_lock p.team

abbrev pub lock_eq : LockScope → LockScope → Bool
lock_eq (team_lock a) (team_lock b) = str_eq a b
lock_eq (subject_lock a) (subject_lock b) = str_eq a b
lock_eq (team_lock a) (subject_lock b) = false
lock_eq (subject_lock a) (team_lock b) = false

-- `QuotaDecisionRecord::new`
abbrev pub decision_record : Principal → String → QuotaDecision → ℕ → QuotaDecisionRecord
decision_record p model d at = record {
  at = at;
  actor = p.subject;
  team = p.team;
  model = model;
  allowed = d.allowed;
}

-- `admit_request`, alone: the check at `now`, the row at `at`; `fails` are the queries that fail. A failed insert is an error and
-- leaves no row.
pub admit_request :
    List QuotaConfig
    → Principal
    → String
    → ℕ
    → (Query → Bool)
    → ℕ
    → Bool
    → Storage
    → Storage × QuotaResult QuotaDecision
unfolding insert_quota_decision
admit_request quotas p model now fails at insert_fails s =
    elim (check_quota s quotas p model now fails) [
      | storage_error ↦ (s, storage_error)
      | ok d ↦
          if insert_fails
          then (s, storage_error)
          else (insert_quota_decision (decision_record p model d at) s, ok d)
    ]

-- an admission that holds its lock and has been checked
pub record Pending : Type 0 where
  pub principal : Principal
  pub model : String
  pub checked : ℕ
  pub decision : QuotaDecision

pub record Admissions : Type 0 where
  pub storage : Storage
  pub pending : List Pending

abbrev pub locked : LockScope → List Pending → Bool
locked l ps = any (λ e. lock_eq (quota_admission_scope e.principal) l) ps

pub data Event : Type 0 where
  -- who, the model, and which queries fail
  begins : Principal → String → (Query → Bool) → Event
  -- which pending admission, and whether the insert fails
  commits : ℕ → Bool → Event

abbrev pub pick : ℕ → List Pending → Option (Pending × List Pending)
pick k [] = none
pick zero (e ∷ es) = some (e, es)
pick (suc k) (e ∷ es) = elim (pick k es) [ none ↦ none | some (f, fs) ↦ some (f, e ∷ fs) ]

begin_checked : Principal → String → ℕ → QuotaResult QuotaDecision → Admissions → Admissions
begin_checked p model now storage_error s = s
begin_checked p model now (ok d) s = record s {
  pending = record { principal = p; model = model; checked = now; decision = d } ∷ s.pending;
}

commit_picked : ℕ → Bool → Option (Pending × List Pending) → Admissions → Admissions
unfolding insert_quota_decision
commit_picked now insert_fails none s = s
commit_picked now insert_fails (some (e, others)) s = record {
  storage =
      if insert_fails
      then s.storage
      else insert_quota_decision (decision_record e.principal e.model e.decision now) s.storage;
  pending = others;
}

-- A request whose lock is held waits: the event does nothing.
pub admissions_step : List QuotaConfig → ℕ → Event → Admissions → Admissions
unfolding begin_checked commit_picked
admissions_step quotas now (begins p model fails) s =
    if locked (quota_admission_scope p) s.pending
    then s
    else begin_checked p model now (check_quota s.storage quotas p model now fails) s
admissions_step quotas now (commits k insert_fails) s =
    commit_picked now insert_fails (pick k s.pending) s

unfoldable pub admissions_run : List QuotaConfig → List (ℕ × Event) → Admissions → Admissions
unfolding admissions_step
admissions_run quotas [] s = s
admissions_run quotas ((now, e) ∷ es) s = admissions_run quotas es (admissions_step quotas now e s)
