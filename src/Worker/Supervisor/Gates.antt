-- ===== src/Worker/Supervisor/Gates.antt =====
-- An open gate belongs to a ready worker whenever no operation is under way.
use rs_llmctl.Base.{
  ℕ, ◌≡◌, refl, ap, ◌∙◌, inl, inr, String, Bool, true, false, some, List, [], ◌∷◌, if◌then◌else◌,
  eq_iff, eq_refl, str_eq, Bool-cases, sym, subst,
}
use rs_llmctl.Base.Map.{get}
use rs_llmctl.Worker.Supervisor.{
  WorkerState, stopped, ready, draining, failed, WorkerStatus, WorkerRunner, PlannedWorker,
  WorkerSupervisor, new, worker_state, is_admitting, update_status, stop_admitting, to_failed,
  to_restarted, to_warming, mark_starting, starting, warming, start, start_all, start_each, drain,
  stop, reap_each, reap_crashed, restart, stop_each, stop_all, was_live, keys, state_eq,
}
use rs_llmctl.Worker.Supervisor.States.{
  is_admitting-update_status, is_admitting-mark_starting, worker_state-mark_starting,
  worker_state-update_status,
}
use rs_llmctl.Worker.Supervisor.Outcomes.{
  Only, Changed, Started, Stopped, drain-Changed, Only-update_status, Only-stop_admitting,
  Changed-update_status, shut,
}
use rs_llmctl.Worker.Supervisor.Answers.{start-Started, stop-Stopped}

module _ {R : Type 0} where
  -- Routing sends requests to ready workers only.
  pub record IsGated (s : WorkerSupervisor R) : Type 0 where
    pub at : (j : String) → is_admitting s j ≡ true → worker_state s j ≡ some ready

  -- No gate that is open belongs to another state.
  IsGated-Changed :
      {s s' : WorkerSupervisor R} (id : String) (state : WorkerState) (admits : Bool)
      → (admits ≡ true → state ≡ ready)
      → Changed id state admits s s'
      → IsGated s
      → IsGated s'
  IsGated-Changed {s} {s'} id state admits fits c v = record {
    at = λ j open_now. elim (Bool-cases (str_eq id j)) [
      | inl same ↦
          subst (λ k. worker_state s' k ≡ some ready) ((eq_iff id j).0 same)
            (c.state_now
              ∙ ap some (
                  fits (
                    sym c.gate_now
                    ∙ subst (λ k. is_admitting s' k ≡ true) (sym ((eq_iff id j).0 same)) open_now)))
      | inr other ↦ c.only.states j other ∙ v.at j (sym (c.only.gates j other) ∙ open_now)
    ];
  }

  pub IsGated-drain :
      (id : String) (polls : List ℕ) (s : WorkerSupervisor R)
      → IsGated s
      → IsGated (drain id polls s).0
  IsGated-drain id polls s v =
      IsGated-Changed id draining false (λ e. cc) (drain-Changed id polls s) v

  IsGated-Stopped :
      (id : String) (s : WorkerSupervisor R) (r : WorkerSupervisor R × WorkerStatus)
      → Stopped id s r
      → IsGated s
      → IsGated r.0
  IsGated-Stopped id s (s', status) (inl (c, e)) v = IsGated-Changed id stopped false (λ e'. cc) c v
  IsGated-Stopped id s (s', status) (inr (c, e)) v = IsGated-Changed id failed false (λ e'. cc) c v

  IsGated-Started :
      (id : String) (s : WorkerSupervisor R) (r : WorkerSupervisor R × WorkerStatus)
      → Started id s r
      → IsGated s
      → IsGated r.0
  IsGated-Started id s (s', status) (inl (c, e)) v = IsGated-Changed id ready true (λ e'. refl) c v
  IsGated-Started id s (s', status) (inr (c, e)) v = IsGated-Changed id failed false (λ e'. cc) c v

  IsGated-runner : (s : WorkerSupervisor R) (r : R) → IsGated s → IsGated (record s { runner = r })
  unfolding worker_state is_admitting
  IsGated-runner s r v = record { at = λ j e. v.at j e }

  IsGated-shut :
      {s s' : WorkerSupervisor R} (id : String)
      → Only id s s'
      → is_admitting s' id ≡ false
      → IsGated s
      → IsGated s'
  IsGated-shut {s} {s'} id only gate v = record {
    at = λ j open_now. elim (Bool-cases (str_eq id j)) [
      | inl same ↦ absurd (
          let closed : is_admitting s' j ≡ false =
            subst (λ k. is_admitting s' k ≡ false) ((eq_iff id j).0 same) gate in
          cc)
      | inr other ↦ only.states j other ∙ v.at j (sym (only.gates j other) ∙ open_now)
    ];
  }

  Stopped-shut :
      (id : String) (s : WorkerSupervisor R) (r : WorkerSupervisor R × WorkerStatus)
      → Stopped id s r
      → is_admitting r.0 id ≡ false
  Stopped-shut id s (s', status) (inl (c, e)) = c.gate_now
  Stopped-shut id s (s', status) (inr (c, e)) = c.gate_now

  IsGated-reap_one :
      (id : String) (error : String) (s : WorkerSupervisor R)
      → IsGated s
      → IsGated (update_status id (to_failed error) (stop_admitting id s)).0
  IsGated-reap_one id error s v =
      IsGated-Changed id failed false (λ e. cc)
        (Changed-update_status id (to_failed error) failed false s (stop_admitting id s) (λ t. refl)
          (Only-stop_admitting id s) (shut id s)).0
        v

  IsGated-if :
      (c : Bool) (s t : WorkerSupervisor R) → IsGated s → IsGated t → IsGated (if c then s else t)
  IsGated-if true s t v u = v
  IsGated-if false s t v u = u

  IsGated-reap_each :
      (ids : List String) (s : WorkerSupervisor R) → IsGated s → IsGated (reap_each ids s).0
  unfolding reap_each
  IsGated-reap_each [] s v = v
  IsGated-reap_each (id ∷ ids) s v = IsGated-reap_each ids _ (
      IsGated-if (was_live (worker_state s id)) _ s
        (IsGated-reap_one id "worker process exited unexpectedly" s v) v)

module _ {R P : Type 0} (w : WorkerRunner R P) where
  pub IsGated-stop : (id : String) (s : WorkerSupervisor R) → IsGated s → IsGated (stop w id s).0
  IsGated-stop id s v = IsGated-Stopped id s (stop w id s) (stop-Stopped w id s) v

  pub IsGated-start :
      (planned : PlannedWorker P) (s : WorkerSupervisor R)
      → IsGated s
      → IsGated (start w planned s).0
  IsGated-start planned s v =
      IsGated-Started planned.id s (start w planned s) (start-Started w planned s) v

  IsGated-start_each :
      (ps : List (PlannedWorker P)) (s : WorkerSupervisor R)
      → IsGated s
      → IsGated (start_each w ps s)
  unfolding start_each
  IsGated-start_each [] s v = v
  IsGated-start_each (p ∷ ps) s v = IsGated-start_each ps (start w p s).0 (IsGated-start p s v)

  IsGated-stop_each :
      (ids : List String) (s : WorkerSupervisor R) → IsGated s → IsGated (stop_each w ids s).0
  unfolding stop_each
  IsGated-stop_each [] s v = v
  IsGated-stop_each (id ∷ ids) s v = IsGated-stop_each ids (stop w id s).0 (IsGated-stop id s v)

  IsGated-restart :
      (planned : PlannedWorker P) (s : WorkerSupervisor R)
      → IsGated s
      → IsGated (restart w planned s).0
  unfolding restart
  IsGated-restart planned s v =
      let r = stop w planned.id s in
      let v' = IsGated-stop planned.id s v in
      elim (Bool-cases (state_eq r.1.state failed)) [
        | inl e ↦ rw e v'
        | inr e ↦ rw e (
            IsGated-start planned (update_status planned.id to_restarted r.0).0 (
              IsGated-shut planned.id (Only-update_status planned.id to_restarted r.0)
                (is_admitting-update_status planned.id planned.id to_restarted r.0
                  ∙ Stopped-shut planned.id s r (stop-Stopped w planned.id s))
                v'))
      ]

-- What the server asks of its supervisor.
pub data Operation (P : Type 0) : Type 0 where
  starts restarts : PlannedWorker P → Operation P
  start_alls : List (PlannedWorker P) → Operation P
  drains : String → List ℕ → Operation P
  stops : String → Operation P
  reaps stop_alls : Operation P

module _ {R P : Type 0} (w : WorkerRunner R P) where
  pub perform : Operation P → WorkerSupervisor R → WorkerSupervisor R
  perform (starts p) s = (start w p s).0
  perform (restarts p) s = (restart w p s).0
  perform (start_alls ps) s = (start_all w ps s).0
  perform (drains id polls) s = (drain id polls s).0
  perform (stops id) s = (stop w id s).0
  perform reaps s = (reap_crashed w s).0
  perform stop_alls s = (stop_all w s).0

  pub perform_all : List (Operation P) → WorkerSupervisor R → WorkerSupervisor R
  perform_all [] s = s
  perform_all (o ∷ os) s = perform_all os (perform o s)

  IsGated-perform : (o : Operation P) (s : WorkerSupervisor R) → IsGated s → IsGated (perform o s)
  unfolding perform reap_crashed stop_all start_all
  IsGated-perform (starts p) s v = IsGated-start w p s v
  IsGated-perform (restarts p) s v = IsGated-restart w p s v
  IsGated-perform (start_alls ps) s v = IsGated-start_each w ps s v
  IsGated-perform (drains id polls) s v = IsGated-drain id polls s v
  IsGated-perform (stops id) s v = IsGated-stop w id s v
  IsGated-perform reaps s v =
      let r = w.poll_exited s.runner in
      IsGated-reap_each r.1 (record s { runner = r.0 }) (IsGated-runner s r.0 v)
  IsGated-perform stop_alls s v = IsGated-stop_each w (keys s.statuses) s v

  perform_all-IsGated :
      (os : List (Operation P)) (s : WorkerSupervisor R) → IsGated s → IsGated (perform_all os s)
  unfolding perform_all
  perform_all-IsGated [] s v = v
  perform_all-IsGated (o ∷ os) s v = perform_all-IsGated os (perform o s) (IsGated-perform o s v)

  -- Whatever the runner answers and whatever the requests do during drains: after any sequence of
  -- completed operations on a new supervisor, a worker whose gate is open is in the state `ready`.
  pub perform_all-new :
      (os : List (Operation P)) (runner : R) → IsGated (perform_all os (new runner))
  unfolding new is_admitting get
  perform_all-new os runner = perform_all-IsGated os (new runner) (record { at = λ j e. cc })

module _ {R : Type 0} where
  -- What requests see while a start waits for the runner. If the gate of the worker was open, it
  -- stays open while the worker is `starting` and the runner spawns it, and while it is `warming` and
  -- the runner waits for it.
  pub mark_starting-admits :
      (id : String) (pid : ℕ) (s : WorkerSupervisor R)
      → is_admitting s id ≡ true
      → ((worker_state (mark_starting id s) id ≡ some starting)
          × (is_admitting (mark_starting id s) id ≡ true))
        × ((worker_state (update_status id (to_warming pid) (mark_starting id s)).0 id
              ≡ some warming)
            × (is_admitting (update_status id (to_warming pid) (mark_starting id s)).0 id ≡ true))
  mark_starting-admits id pid s open_now =
      let starts = worker_state-mark_starting id id s ∙ rw (eq_refl id) refl in
      let admits = is_admitting-mark_starting id id s ∙ open_now in
      let warms =
        worker_state-update_status id id (to_warming pid) (mark_starting id s)
        ∙ rw (eq_refl id) refl in
      (
        (starts, admits),
        (warms, is_admitting-update_status id id (to_warming pid) (mark_starting id s) ∙ admits),
      )
