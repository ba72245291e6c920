-- ===== src/Worker/Supervisor/Outcomes.antt =====
-- What the steps of the supervisor do: to their own worker, and that they touch no other.
use rs_llmctl.Base.{
  ℕ, ◌≡◌, refl, ap, ◌∙◌, ◌⊎◌, inl, inr, String, Bool, true, false, some, List, Bool-cases,
  Option-cases, str_eq, eq_refl,
}
use rs_llmctl.Base.Map.{get}
use rs_llmctl.Worker.Gate.{ready as ready_gate}
use rs_llmctl.Worker.Supervisor.{
  WorkerState, stopped, ready, draining, failed, WorkerStatus, WorkerSupervisor, worker_state,
  state_eq, is_admitting, insert_admission, stop_admitting, status_or_new, update_status,
  mark_starting, to_draining, wait_gate, drain,
}
use rs_llmctl.Worker.Supervisor.States.{
  status-update_status, worker_state-update_status, is_admitting-update_status,
  worker_state-stop_admitting, is_admitting-stop_admitting, is_admitting-insert_admission,
  worker_state-insert_admission, worker_state-mark_starting, is_admitting-mark_starting,
  worker_state-wait_gate, is_admitting-wait_gate,
}

-- From `s` to `s'` no worker but `id` changed its state or its gate.
pub record Only {R : Type 0} (id : String) (s s' : WorkerSupervisor R) : Type 0 where
  pub states : (j : String) → str_eq id j ≡ false → worker_state s' j ≡ worker_state s j
  pub gates : (j : String) → str_eq id j ≡ false → is_admitting s' j ≡ is_admitting s j

-- And `id` came to a state, with its gate open or shut.
pub record Changed {R : Type 0} (id : String) (state : WorkerState) (admits : Bool)
    (s s' : WorkerSupervisor R) : Type 0 where
  pub only : Only id s s'
  pub state_now : worker_state s' id ≡ some state
  pub gate_now : is_admitting s' id ≡ admits

-- A start ends in one of two ways, as its returned status says.
abbrev pub Started :
    {R : Type 0} → String → WorkerSupervisor R → WorkerSupervisor R × WorkerStatus → Type 0
Started id s (s', status) =
    (Changed id ready true s s' × (status.state ≡ ready))
    ⊎ (Changed id failed false s s' × (status.state ≡ failed))

-- And so does a stop.
abbrev pub Stopped :
    {R : Type 0} → String → WorkerSupervisor R → WorkerSupervisor R × WorkerStatus → Type 0
Stopped id s (s', status) =
    (Changed id stopped false s s' × (status.state ≡ stopped))
    ⊎ (Changed id failed false s s' × (status.state ≡ failed))

module _ {R : Type 0} where
  pub Only-trans :
      {id : String} {s t u : WorkerSupervisor R} → Only id s t → Only id t u → Only id s u
  Only-trans a b = record {
    states = λ j ne. b.states j ne ∙ a.states j ne;
    gates = λ j ne. b.gates j ne ∙ a.gates j ne;
  }

  pub Only-update_status :
      (id : String) (f : WorkerStatus → WorkerStatus) (s : WorkerSupervisor R)
      → Only id s (update_status id f s).0
  Only-update_status id f s = record {
    states = λ j ne. worker_state-update_status id j f s ∙ rw ne refl;
    gates = λ j ne. is_admitting-update_status id j f s;
  }

  pub Only-stop_admitting : (id : String) (s : WorkerSupervisor R) → Only id s (stop_admitting id s)
  Only-stop_admitting id s = record {
    states = λ j ne. worker_state-stop_admitting id j s;
    gates = λ j ne. is_admitting-stop_admitting id j s ∙ rw ne refl;
  }

  pub Only-insert_ready :
      (id : String) (s : WorkerSupervisor R) → Only id s (insert_admission id ready_gate s)
  Only-insert_ready id s = record {
    states = λ j ne. worker_state-insert_admission id j ready_gate s;
    gates = λ j ne. is_admitting-insert_admission id j ready_gate s ∙ rw ne refl;
  }

  pub Only-mark_starting : (id : String) (s : WorkerSupervisor R) → Only id s (mark_starting id s)
  Only-mark_starting id s = record {
    states = λ j ne. worker_state-mark_starting id j s ∙ rw ne refl;
    gates = λ j ne. is_admitting-mark_starting id j s;
  }

  pub Only-wait_gate :
      (id : String) (polls : List ℕ) (s : WorkerSupervisor R) → Only id s (wait_gate id polls s)
  Only-wait_gate id polls s = record {
    states = λ j ne. worker_state-wait_gate id j polls s;
    gates = λ j ne. is_admitting-wait_gate id j polls s;
  }

  -- the runner's state does not count
  pub Only-runner :
      (id : String) (s : WorkerSupervisor R) (r : R) → Only id s (record s { runner = r })
  unfolding worker_state is_admitting
  Only-runner id s r = record { states = λ j ne. refl; gates = λ j ne. refl }

  pub shut : (id : String) (s : WorkerSupervisor R) → is_admitting (stop_admitting id s) id ≡ false
  shut id s = is_admitting-stop_admitting id id s ∙ rw (eq_refl id) refl

  -- The last step of each operation is an update of the status.
  pub Changed-update_status :
      (id : String) (f : WorkerStatus → WorkerStatus) (state : WorkerState) (admits : Bool)
      (s s' : WorkerSupervisor R)
      → ((status : WorkerStatus) → (f status).state ≡ state)
      → Only id s s'
      → is_admitting s' id ≡ admits
      → Changed id state admits s (update_status id f s').0
        × ((update_status id f s').1.state ≡ state)
  Changed-update_status id f state admits s s' sets only gate = (
    record {
      only = Only-trans only (Only-update_status id f s');
      state_now =
          worker_state-update_status id id f s'
          ∙ rw (eq_refl id) (ap some (sets (status_or_new id (get id s'.statuses))));
      gate_now = is_admitting-update_status id id f s' ∙ gate;
    },
    ap (λ (t : WorkerStatus). t.state) (status-update_status id f s')
        ∙ sets (status_or_new id (get id s'.statuses)),
  )

  pub runner-update_status :
      (id : String) (f : WorkerStatus → WorkerStatus) (s : WorkerSupervisor R)
      → (update_status id f s).0.runner ≡ s.runner
  unfolding update_status
  runner-update_status id f s =
      elim (Bool-cases (
        state_eq (status_or_new id (get id s.statuses)).state
          (f (status_or_new id (get id s.statuses))).state)) [
            | inl e ↦ rw e refl
            | inr e ↦ rw e refl
          ]

  pub runner-stop_admitting :
      (id : String) (s : WorkerSupervisor R) → (stop_admitting id s).runner ≡ s.runner
  unfolding stop_admitting
  runner-stop_admitting id s = elim (Option-cases (get id s.admissions)) [
    | inl e ↦ rw (e, stop_admitting) refl
    | inr (g, e) ↦ rw (e, stop_admitting) refl
  ]

  pub is_admitting-runner :
      (s : WorkerSupervisor R) (r : R) (j : String)
      → is_admitting (record s { runner = r }) j ≡ is_admitting s j
  unfolding is_admitting
  is_admitting-runner s r j = refl

  -- `drain` closes the gate and leaves the worker draining, whatever its requests do meanwhile.
  pub drain-Changed :
      (id : String) (polls : List ℕ) (s : WorkerSupervisor R)
      → Changed id draining false s (drain id polls s).0
  unfolding drain
  drain-Changed id polls s =
      (Changed-update_status id to_draining draining false s
        (wait_gate id polls (stop_admitting id s)) (λ t. refl)
        (Only-trans (Only-stop_admitting id s) (Only-wait_gate id polls (stop_admitting id s)))
        (is_admitting-wait_gate id id polls (stop_admitting id s) ∙ shut id s)).0
