-- ===== src/Worker/Swap/Ends.antt =====
-- How swaps end.
use rs_llmctl.Base.{
  ℕ, ◌≡◌, refl, ◌∙◌, ◌⊎◌, inl, inr, String, true, false, Option, some, List, [], ◌∷◌, if◌then◌else◌,
  arith, eq_iff, str_eq,
}
use rs_llmctl.Worker.Supervisor.{
  WorkerState, stopped, ready, failed, WorkerRunner, PlannedWorker, WorkerSupervisor, worker_state,
  is_admitting, start, drain, stop,
}
use rs_llmctl.Worker.Supervisor.Outcomes.{drain-Changed}
use rs_llmctl.Worker.Supervisor.Answers.{start-Started, stop-Stopped}
use rs_llmctl.Worker.Swap.{LifecycleStep, SwapExecution, execute_cold_swap, execute_hot_swap}

-- the last target that a plan gives a worker
abbrev pub target_of : String → Option WorkerState → List LifecycleStep → Option WorkerState
target_of id found [] = found
target_of id found (step ∷ steps) =
    target_of id (if str_eq step.worker_id id then some step.target else found) steps

-- A cold swap that did not stop the active worker leaves the replacement alone; else it started it.
abbrev pub ColdEnd :
    {R : Type 0}
    → String
    → String
    → WorkerSupervisor R
    → WorkerSupervisor R × SwapExecution
    → Type 0
ColdEnd a r s (s', e) =
    (is_admitting s' a ≡ false)
    × (((e.success ≡ true)
          × (worker_state s' a ≡ some stopped)
          × (worker_state s' r ≡ some ready)
          × (is_admitting s' r ≡ true))
        ⊎ ((e.success ≡ false)
            × (worker_state s' a ≡ some stopped)
            × (worker_state s' r ≡ some failed)
            × (is_admitting s' r ≡ false))
        ⊎ ((e.success ≡ false)
            × (worker_state s' a ≡ some failed)
            × (worker_state s' r ≡ worker_state s r)
            × (is_admitting s' r ≡ is_admitting s r)))

-- A hot swap whose replacement did not start leaves the active worker alone.
abbrev pub HotEnd :
    {R : Type 0}
    → String
    → String
    → WorkerSupervisor R
    → WorkerSupervisor R × SwapExecution
    → Type 0
HotEnd a r s (s', e) =
    ((e.success ≡ false)
      × (worker_state s' r ≡ some failed)
      × (is_admitting s' r ≡ false)
      × (worker_state s' a ≡ worker_state s a)
      × (is_admitting s' a ≡ is_admitting s a))
    ⊎ ((worker_state s' r ≡ some ready)
        × (is_admitting s' r ≡ true)
        × (is_admitting s' a ≡ false)
        × (((e.success ≡ true) × (worker_state s' a ≡ some stopped))
            ⊎ ((e.success ≡ false) × (worker_state s' a ≡ some failed))))

str_eq-sym : (a b : String) → str_eq a b ≡ false → str_eq b a ≡ false
str_eq-sym a b h = ground (arith, eq_iff a b, eq_iff b a)

module _ {R P : Type 0} (w : WorkerRunner R P) where
  -- A cold swap between two different workers shuts the active worker's gate in every case, starts
  -- the replacement only after the active worker has stopped, and reports success exactly when the
  -- active worker is stopped and the replacement is ready with its gate open. If the active worker
  -- did not stop, the replacement's state and gate are as they were.
  pub execute_cold_swap-ColdEnd :
      (a : String) (p : PlannedWorker P) (polls : List ℕ) (s : WorkerSupervisor R)
      → str_eq a p.id ≡ false
      → ColdEnd a p.id s (execute_cold_swap w a p polls s)
  unfolding execute_cold_swap
  execute_cold_swap-ColdEnd a p polls s ne =
      let ne' = str_eq-sym a p.id ne in
      let s₁ = (drain a polls s).0 in
      let o = (drain-Changed a polls s).only in
      let s₂ = (stop w a s₁).0 in
      elim (stop-Stopped w a s₁) [
        | inl (c, e) ↦ elim (start-Started w p s₂) [
          | inl (d, f) ↦
              rw (e, f)
                (
                  d.only.gates a ne' ∙ c.gate_now,
                  inl (refl, d.only.states a ne' ∙ c.state_now, d.state_now, d.gate_now),
                )
          | inr (d, f) ↦
              rw (e, f)
                (
                  d.only.gates a ne' ∙ c.gate_now,
                  inr (inl (refl, d.only.states a ne' ∙ c.state_now, d.state_now, d.gate_now)),
                )
        ]
        | inr (c, e) ↦ rw e (
          c.gate_now,
          inr (
              inr (
                refl,
                c.state_now,
                c.only.states p.id ne ∙ o.states p.id ne,
                c.only.gates p.id ne ∙ o.gates p.id ne,
              )),
        )
      ]

  -- A hot swap between two different workers: if the replacement does not become ready, it has
  -- failed with its gate shut, and the active worker keeps its state and its gate; else the
  -- replacement is ready with its gate open, the active worker's gate is shut, and success is
  -- reported exactly when the active worker has stopped.
  pub execute_hot_swap-HotEnd :
      (a : String) (p : PlannedWorker P) (polls : List ℕ) (s : WorkerSupervisor R)
      → str_eq a p.id ≡ false
      → HotEnd a p.id s (execute_hot_swap w a p polls s)
  unfolding execute_hot_swap
  execute_hot_swap-HotEnd a p polls s ne =
      let ne' = str_eq-sym a p.id ne in
      let s₁ = (start w p s).0 in
      let o = (drain-Changed a polls s₁).only in
      let s₂ = (drain a polls s₁).0 in
      elim (start-Started w p s) [
        | inl (d, f) ↦ elim (stop-Stopped w a s₂) [
          | inl (c, e) ↦
              rw (f, e)
                (inr (
                  c.only.states p.id ne ∙ o.states p.id ne ∙ d.state_now,
                  c.only.gates p.id ne ∙ o.gates p.id ne ∙ d.gate_now,
                  c.gate_now,
                  inl (refl, c.state_now),
                ))
          | inr (c, e) ↦
              rw (f, e)
                (inr (
                  c.only.states p.id ne ∙ o.states p.id ne ∙ d.state_now,
                  c.only.gates p.id ne ∙ o.gates p.id ne ∙ d.gate_now,
                  c.gate_now,
                  inr (refl, c.state_now),
                ))
        ]
        | inr (d, f) ↦
            rw f (inl (refl, d.state_now, d.gate_now, d.only.states a ne', d.only.gates a ne'))
      ]
