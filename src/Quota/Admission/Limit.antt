-- ===== src/Quota/Admission/Limit.antt =====
-- The steps of the admissions keep the invariant of Quota/Admission/Window.antt.
use rs_llmctl.Base.{
  ℕ, suc, ◌-◌, ◌≤◌, ◌<◌, ◌≡◌, refl, sym, ◌∙◌, subst, inl, inr, String, Bool, true, false, Option,
  none, some, List, [], ◌∷◌, ◌++◌, arith, str_eq, eq_iff, Bool-cases, filter,
}
use rs_llmctl.Quota.Rows.{
  Principal, QuotaDecision, QuotaDecisionRecord, Storage, count_rows, counts_decision,
  allowed_quota_decision_count,
}
use rs_llmctl.Quota.{
  QuotaConfig, Query, minute, matches_principal, matching_quota_policies, QuotaResult, ok,
  storage_error, check_quota,
}
use rs_llmctl.Quota.Policies.{all, kept, Allows, check_quota-Allows}
use rs_llmctl.Quota.Admission.{
  quota_admission_scope, lock_eq, decision_record, Pending, Admissions, locked, Event, begins,
  commits, pick, begin_checked, commit_picked, admissions_step, admissions_run,
}
use rs_llmctl.Quota.Admission.Window.{
  since, in_minute, count-le, Spaced, Spaced-minute, AllBefore, AllBefore-mono, HasRoom, AllRoom,
  IsLimited, AllRoom-later, Picked, pick-Picked,
}

all-filter :
    (good f : QuotaConfig → Bool) (before after : List QuotaConfig) (q : QuotaConfig)
    → all good (filter f (before ++ q ∷ after)) ≡ true
    → f q ≡ true
    → good q ≡ true
all-filter good f [] after q h e = ground arith
all-filter good f (b ∷ before) after q h e = all-filter good f before after q (ground arith) e

-- Before `now`, the query counts every admitted request of the team from a time on.
since-counted :
    (p : Principal) (from now : ℕ) (rs : List QuotaDecisionRecord)
    → AllBefore now rs
    → count_rows (since p.team from) rs ≤ count_rows (counts_decision p false from now) rs
unfolding count_rows
since-counted p from now [] b = omega arith
since-counted p from now (r ∷ rs) b = ground (arith, since-counted p from now rs b.1)

Allows-ok :
    {good : Bool} {d : QuotaDecision} (r : QuotaResult QuotaDecision)
    → Allows good r
    → r ≡ ok d
    → d.allowed ≡ good
Allows-ok (ok d') a e = ground arith
Allows-ok storage_error a e = cc

-- The event's principal, if it is of the policy's team, is not the policy's subject.
abbrev pub UnderTeam : QuotaConfig → Event → Type 0
UnderTeam q (begins p model fails) =
    str_eq p.team q.team ≡ true → str_eq q.subject p.subject ≡ false
UnderTeam q (commits k insert_fails) = Unit

-- The times rise, and every event is under the team's policy.
abbrev pub Follows : QuotaConfig → ℕ → List (ℕ × Event) → Type 0
Follows q clock [] = Unit
Follows q clock ((now, e) ∷ es) = (clock < now) × UnderTeam q e × Follows q now es

abbrev pub no_admissions : Admissions
no_admissions = record {
  storage = record { quota_decisions = []; usage_events = [] };
  pending = [];
}

-- A policy of a team among the policies, with a limit on the requests of a minute.
module _ (q : QuotaConfig) (others later : List QuotaConfig) (named : str_eq q.team "" ≡ false)
    (limited : 0 < q.requests_per_minute) where
  kept-room :
      (s : Storage) (p : Principal) (model : String) (now : ℕ)
      → kept s now p model q ≡ true
      → str_eq p.team q.team ≡ true
      → str_eq q.subject p.subject ≡ false
      → AllBefore now s.quota_decisions
      → count_rows (since q.team (now - minute)) s.quota_decisions < q.requests_per_minute
  unfolding allowed_quota_decision_count
  kept-room s p model now k t u b =
      let counted =
        allowed_quota_decision_count s p (str_eq q.subject p.subject) (now - minute) now in
      let below : counted < q.requests_per_minute = ground arith in
      let scoped : count_rows (counts_decision p false (now - minute) now) s.quota_decisions
          < q.requests_per_minute =
        rw u at below in
      subst
        (λ team. count_rows (since team (now - minute)) s.quota_decisions < q.requests_per_minute)
        ((eq_iff p.team q.team).0 t)
        (omega (arith, scoped, since-counted p (now - minute) now s.quota_decisions b))

  begin_room :
      (s : Storage) (p : Principal) (model : String) (now : ℕ) (fails : Query → Bool)
      (d : QuotaDecision)
      → check_quota s (others ++ q ∷ later) p model now fails ≡ ok d
      → d.allowed ≡ true
      → str_eq p.team q.team ≡ true
      → str_eq q.subject p.subject ≡ false
      → AllBefore now s.quota_decisions
      → count_rows (since q.team (now - minute)) s.quota_decisions < q.requests_per_minute
  unfolding matching_quota_policies
  begin_room s p model now fails d e allowed t u b =
      let a = Allows-ok _ (check_quota-Allows s (others ++ q ∷ later) p model now fails) e in
      kept-room s p model now
        (all-filter (kept s now p model) (matches_principal p) others later q (sym a ∙ allowed)
          (ground (arith, eq_iff p.team q.team, eq_iff q.team p.team)))
        t u b

  -- Two admissions of the team share its lock.
  same_lock :
      (p p' : Principal)
      → str_eq p.team q.team ≡ true
      → str_eq p'.team q.team ≡ true
      → lock_eq (quota_admission_scope p) (quota_admission_scope p') ≡ true
  same_lock p p' t t' =
      let e : p.team ≡ q.team = (eq_iff p.team q.team).0 t in
      let e' : p'.team ≡ q.team = (eq_iff p'.team q.team).0 t' in
      rw (e, e') (ground (arith, eq_iff q.team q.team))

  -- A row of an admission with another lock takes no room.
  HasRoom-other :
      (clock : ℕ) (rs : List QuotaDecisionRecord) (r : QuotaDecisionRecord) (f : Pending)
      → (str_eq f.principal.team q.team ≡ true → str_eq r.team q.team ≡ false)
      → HasRoom q.team q.requests_per_minute clock rs f
      → HasRoom q.team q.requests_per_minute clock (r ∷ rs) f
  unfolding count_rows
  HasRoom-other clock rs r f h v = ground arith

  AllRoom-other :
      (clock now : ℕ) (rs : List QuotaDecisionRecord) (e : Pending) (es : List Pending)
      → locked (quota_admission_scope e.principal) es ≡ false
      → AllRoom q.team q.requests_per_minute clock rs es
      → AllRoom q.team q.requests_per_minute clock
          (decision_record e.principal e.model e.decision now ∷ rs)
          es
  AllRoom-other clock now rs e [] l v = tt
  AllRoom-other clock now rs e (f ∷ fs) l v = (
    HasRoom-other clock rs (decision_record e.principal e.model e.decision now) f
        (λ t. elim (Bool-cases (str_eq e.principal.team q.team)) [
          | inl t' ↦ ground (arith, same_lock f.principal e.principal t t')
          | inr n ↦ n
        ])
        v.0,
    AllRoom-other clock now rs e fs (ground arith) v.1,
  )

  abbrev Limited : ℕ → Admissions → Type 0
  Limited clock s = IsLimited q.team q.requests_per_minute clock s

  Limited-later : (a b : ℕ) (s : Admissions) → a ≤ b → Limited a s → Limited b s
  Limited-later a b s h v = record {
    spaced = v.spaced;
    before = AllBefore-mono (suc a) (suc b) s.storage.quota_decisions (omega arith) v.before;
    room =
        AllRoom-later q.team q.requests_per_minute a b s.storage.quota_decisions s.pending h v.room;
    exclusive = v.exclusive;
  }

  begin_checked-Limited :
      (clock now : ℕ) (p : Principal) (model : String) (fails : Query → Bool) (s : Admissions)
      (r : QuotaResult QuotaDecision)
      → clock < now
      → check_quota s.storage (others ++ q ∷ later) p model now fails ≡ r
      → UnderTeam q (begins p model fails)
      → locked (quota_admission_scope p) s.pending ≡ false
      → Limited clock s
      → Limited now (begin_checked p model now r s)
  unfolding begin_checked
  begin_checked-Limited clock now p model fails s storage_error h e u l v =
      Limited-later clock now s (omega arith) v
  begin_checked-Limited clock now p model fails s (ok d) h e u l v =
      let w = Limited-later clock now s (omega arith) v in
      let rows = s.storage.quota_decisions in
      let before = AllBefore-mono (suc clock) now rows h v.before in
      record {
        spaced = w.spaced;
        before = w.before;
        room = (
          (
            omega arith,
            λ c.
                begin_room s.storage p model now fails d e (ground arith) (ground arith)
                  (u (ground arith)) before,
          ),
          w.room,
        );
        exclusive = (l, w.exclusive);
      }

  commit_picked-Limited :
      (clock now : ℕ) (insert_fails : Bool) (o : Option (Pending × List Pending)) (s : Admissions)
      → clock < now
      → Picked q.team q.requests_per_minute clock s.storage.quota_decisions o
      → Limited clock s
      → Limited now (commit_picked now insert_fails o s)
  unfolding commit_picked
  commit_picked-Limited clock now b none s h p v = Limited-later clock now s (omega arith) v
  commit_picked-Limited clock now true (some (e, es)) s h p v =
      Limited-later clock now (record s { pending = es }) (omega arith)
        (record { spaced = v.spaced; before = v.before; room = p.1; exclusive = p.2 })
  commit_picked-Limited clock now false (some (e, es)) s h p v =
      let rows = s.storage.quota_decisions in
      let earlier =
        count-le (since q.team (now - minute)) (since q.team (e.checked - minute)) rows
          (λ x hx. ground arith) in
      record {
        spaced = (λ c. let room = p.0.1 (ground arith) in omega (arith, room, earlier), v.spaced);
        before = (omega arith, AllBefore-mono (suc clock) (suc now) rows (omega arith) v.before);
        room =
            AllRoom-later q.team q.requests_per_minute clock now _ es (omega arith)
              (AllRoom-other clock now rows e es p.3 p.1);
        exclusive = p.2;
      }

  admissions_step-Limited :
      (clock now : ℕ) (e : Event) (s : Admissions)
      → clock < now
      → UnderTeam q e
      → Limited clock s
      → Limited now (admissions_step (others ++ q ∷ later) now e s)
  unfolding admissions_step
  admissions_step-Limited clock now (begins p model fails) s h u v =
      elim (Bool-cases (locked (quota_admission_scope p) s.pending)) [
        | inl l ↦ rw l (Limited-later clock now s (omega arith) v)
        | inr l ↦ rw l (
            begin_checked-Limited clock now p model fails s
              (check_quota s.storage (others ++ q ∷ later) p model now fails) h refl u l v)
      ]
  admissions_step-Limited clock now (commits k insert_fails) s h u v =
      commit_picked-Limited clock now insert_fails (pick k s.pending) s h
        (pick-Picked q.team q.requests_per_minute k clock s.storage.quota_decisions s.pending v.room
          v.exclusive)
        v

  admissions_run-Limited :
      (clock : ℕ) (es : List (ℕ × Event)) (s : Admissions)
      → Follows q clock es
      → Limited clock s
      → Spaced q.team q.requests_per_minute
          (admissions_run (others ++ q ∷ later) es s).storage.quota_decisions
  unfolding admissions_run
  admissions_run-Limited clock [] s f v = v.spaced
  admissions_run-Limited clock ((now, e) ∷ es) s f v =
      admissions_run-Limited now es (admissions_step (others ++ q ∷ later) now e s) f.2
        (admissions_step-Limited clock now e s f.0 f.1 v)

  -- A policy of a team limits the requests of a minute (the limit is not zero). The requests of the
  -- team, whose subject is not the policy's, and of others are admitted in any interleaving, at
  -- times that rise, from a storage with no rows. Then in every minute at most as many requests of
  -- the team are admitted as the limit says.
  pub admissions_run-per_minute :
      (clock from : ℕ) (es : List (ℕ × Event))
      → Follows q clock es
      → count_rows
          (in_minute q.team from)
          (admissions_run (others ++ q ∷ later) es no_admissions).storage.quota_decisions
        ≤ q.requests_per_minute
  admissions_run-per_minute clock from es f = Spaced-minute q.team q.requests_per_minute from _ (
      admissions_run-Limited clock es no_admissions f
        (record { spaced = tt; before = tt; room = tt; exclusive = tt }))
