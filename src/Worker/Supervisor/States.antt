-- ===== src/Worker/Supervisor/States.antt =====
-- What each primitive of the supervisor does to a worker's state and to its gate.
use rs_llmctl.Base.{
  ℕ, ◌≡◌, refl, ap, ◌∙◌, inl, inr, String, Bool, true, false, Option, none, some, List, [], ◌∷◌,
  if◌then◌else◌, arith, eq_iff, str_eq, Option-cases,
}
use rs_llmctl.Base.Map.{get, insert}
use rs_llmctl.Base.Map.Laws.{get-insert}
use rs_llmctl.Worker.Gate.{WorkerAdmission, set_admitting}
use rs_llmctl.Worker.Supervisor.{
  WorkerState, starting, WorkerStatus, WorkerSupervisor, worker_state, gate_admits, is_admitting,
  insert_admission, stop_admitting, status_or_new, update_status, mark_starting, wait_drained,
  wait_gate,
}

abbrev pub state_in : Option WorkerStatus → Option WorkerState
state_in none = none
state_in (some status) = some status.state

state_in-if :
    (c : Bool) (a : WorkerStatus) (o : Option WorkerStatus)
    → state_in (if c then some a else o) ≡ (if c then some a.state else state_in o)
state_in-if true a o = refl
state_in-if false a o = refl

gate_admits-if :
    (c : Bool) (g : WorkerAdmission) (o : Option WorkerAdmission)
    → gate_admits (if c then some g else o) ≡ (if c then g.admitting else gate_admits o)
gate_admits-if true g o = refl
gate_admits-if false g o = refl

module _ {R : Type 0} where
  worker_state-in :
      (s : WorkerSupervisor R) (j : String) → worker_state s j ≡ state_in (get j s.statuses)
  unfolding worker_state
  worker_state-in s j = ground arith

  statuses-update_status :
      (id : String) (f : WorkerStatus → WorkerStatus) (s : WorkerSupervisor R)
      → (update_status id f s).0.statuses
        ≡ insert id (f (status_or_new id (get id s.statuses))) s.statuses
  unfolding update_status
  statuses-update_status id f s = ground arith

  pub admissions-update_status :
      (id : String) (f : WorkerStatus → WorkerStatus) (s : WorkerSupervisor R)
      → (update_status id f s).0.admissions ≡ s.admissions
  unfolding update_status
  admissions-update_status id f s = ground arith

  pub status-update_status :
      (id : String) (f : WorkerStatus → WorkerStatus) (s : WorkerSupervisor R)
      → (update_status id f s).1 ≡ f (status_or_new id (get id s.statuses))
  unfolding update_status
  status-update_status id f s = refl

  pub worker_state-update_status :
      (id j : String) (f : WorkerStatus → WorkerStatus) (s : WorkerSupervisor R)
      → worker_state (update_status id f s).0 j ≡ (
          if str_eq id j
          then some (f (status_or_new id (get id s.statuses))).state
          else worker_state s j)
  worker_state-update_status id j f s =
      let new = f (status_or_new id (get id s.statuses)) in
      worker_state-in (update_status id f s).0 j
      ∙ ap (λ m. state_in (get j m)) (statuses-update_status id f s)
      ∙ ap state_in (get-insert id j new s.statuses)
      ∙ state_in-if (str_eq id j) new (get j s.statuses)
      ∙ rw (worker_state-in s j) refl

  pub is_admitting-update_status :
      (id j : String) (f : WorkerStatus → WorkerStatus) (s : WorkerSupervisor R)
      → is_admitting (update_status id f s).0 j ≡ is_admitting s j
  unfolding is_admitting
  is_admitting-update_status id j f s =
      ap (λ m. gate_admits (get j m)) (admissions-update_status id f s)

  pub worker_state-stop_admitting :
      (id j : String) (s : WorkerSupervisor R)
      → worker_state (stop_admitting id s) j ≡ worker_state s j
  unfolding stop_admitting worker_state
  worker_state-stop_admitting id j s = ground arith

  pub is_admitting-stop_admitting :
      (id j : String) (s : WorkerSupervisor R)
      → is_admitting (stop_admitting id s) j ≡ (if str_eq id j then false else is_admitting s j)
  unfolding stop_admitting is_admitting
  is_admitting-stop_admitting id j s = elim (Option-cases (get id s.admissions)) [
    | inl e ↦ ground (arith, eq_iff id j)
    | inr (g, e) ↦
        rw (e, stop_admitting)
          (ap gate_admits (get-insert id j (set_admitting false g) s.admissions)
            ∙ gate_admits-if (str_eq id j) (set_admitting false g) (get j s.admissions))
  ]

  pub is_admitting-insert_admission :
      (id j : String) (g : WorkerAdmission) (s : WorkerSupervisor R)
      → is_admitting (insert_admission id g s) j
        ≡ (if str_eq id j then g.admitting else is_admitting s j)
  unfolding insert_admission is_admitting
  is_admitting-insert_admission id j g s =
      ap gate_admits (get-insert id j g s.admissions)
      ∙ gate_admits-if (str_eq id j) g (get j s.admissions)

  pub worker_state-insert_admission :
      (id j : String) (g : WorkerAdmission) (s : WorkerSupervisor R)
      → worker_state (insert_admission id g s) j ≡ worker_state s j
  unfolding insert_admission worker_state
  worker_state-insert_admission id j g s = refl

  pub worker_state-mark_starting :
      (id j : String) (s : WorkerSupervisor R)
      → worker_state (mark_starting id s) j
        ≡ (if str_eq id j then some starting else worker_state s j)
  unfolding mark_starting
  worker_state-mark_starting id j s =
      worker_state-in (mark_starting id s) j
      ∙ ap state_in (get-insert id j _ s.statuses)
      ∙ state_in-if (str_eq id j) _ (get j s.statuses)
      ∙ rw (worker_state-in s j) refl

  pub is_admitting-mark_starting :
      (id j : String) (s : WorkerSupervisor R)
      → is_admitting (mark_starting id s) j ≡ is_admitting s j
  unfolding mark_starting is_admitting
  is_admitting-mark_starting id j s = refl

admitting-wait_drained :
    (polls : List ℕ) (g : WorkerAdmission) → (wait_drained polls g).admitting ≡ g.admitting
unfolding wait_drained
admitting-wait_drained [] g = refl
admitting-wait_drained (n ∷ polls) g =
    ground (arith, admitting-wait_drained polls (record g { in_flight = n }))

module _ {R : Type 0} where
  pub worker_state-wait_gate :
      (id j : String) (polls : List ℕ) (s : WorkerSupervisor R)
      → worker_state (wait_gate id polls s) j ≡ worker_state s j
  unfolding wait_gate worker_state
  worker_state-wait_gate id j polls s = ground arith

  pub is_admitting-wait_gate :
      (id j : String) (polls : List ℕ) (s : WorkerSupervisor R)
      → is_admitting (wait_gate id polls s) j ≡ is_admitting s j
  unfolding wait_gate is_admitting
  is_admitting-wait_gate id j polls s = elim (Option-cases (get id s.admissions)) [
    | inl e ↦ rw (e, wait_gate) refl
    | inr (g, e) ↦
        rw (e, wait_gate)
          (ap gate_admits (get-insert id j (wait_drained polls g) s.admissions)
            ∙ gate_admits-if (str_eq id j) (wait_drained polls g) (get j s.admissions)
            ∙ rw (admitting-wait_drained polls g) (ground (arith, eq_iff id j)))
  ]
