-- ===== src/Worker/Swap/Plans.antt =====
-- What a swap reports against what it does: its plan, its mode and the gates.
use rs_llmctl.Base.{
  ℕ, ◌+◌, ◌<◌, ◌≡◌, ap, sym, ◌∙◌, inl, inr, ◌⊎◌, String, true, false, Option, none, some, List,
  if◌then◌else◌, arith, eq_iff, str_eq, eq_refl, Bool-cases, leb, u64_max,
}
use rs_llmctl.Worker.Supervisor.{
  stopped, ready, WorkerRunner, PlannedWorker, WorkerSupervisor, worker_state, state_eq, start,
  drain, stop,
}
use rs_llmctl.Worker.Supervisor.Gates.{IsGated, IsGated-drain, IsGated-stop, IsGated-start}
use rs_llmctl.Worker.Swap.{
  SwapMode, cold, hot, SwapExecution, SwapPlan, cold_plan, hot_plan, SwapBudget, effective_mode,
  execute_cold_swap, execute_hot_swap, execute_swap_with_budget, execute_mode,
}
use rs_llmctl.Worker.Swap.Ends.{target_of, execute_cold_swap-ColdEnd, execute_hot_swap-HotEnd}

plan-cold :
    (a r : String)
    → str_eq a r ≡ false
    → (target_of a none (cold_plan a r).steps ≡ some stopped)
      × (target_of r none (cold_plan a r).steps ≡ some ready)
unfolding cold_plan
plan-cold a r ne = ground (arith, eq_refl a, eq_refl r, eq_iff a r, eq_iff r a)

plan-hot :
    (a r : String)
    → str_eq a r ≡ false
    → (target_of a none (hot_plan a r).steps ≡ some stopped)
      × (target_of r none (hot_plan a r).steps ≡ some ready)
unfolding hot_plan
plan-hot a r ne = ground (arith, eq_refl a, eq_refl r, eq_iff a r, eq_iff r a)

effective_mode-fits :
    (mode : SwapMode) (budget : SwapBudget)
    → budget.budget_bytes < u64_max
    → effective_mode mode (some budget) ≡ (
        if leb (budget.active_bytes + budget.replacement_bytes) budget.budget_bytes
        then mode
        else cold)
unfolding effective_mode
effective_mode-fits cold budget small = ground arith
effective_mode-fits hot budget small = ground arith

-- The plan that a swap reports ends in the states that the workers have.
abbrev pub Reached : {R : Type 0} → String → String → WorkerSupervisor R × SwapExecution → Type 0
Reached a r (s', e) =
    (worker_state s' a ≡ target_of a none e.plan.steps)
    × (worker_state s' r ≡ target_of r none e.plan.steps)

-- the mode that a budget leaves of the mode that was asked for
abbrev pub mode_within : SwapMode → SwapBudget → SwapMode
mode_within mode budget =
    if leb (budget.active_bytes + budget.replacement_bytes) budget.budget_bytes then mode else cold

abbrev pub plan_for : SwapMode → String → String → SwapPlan
plan_for cold a r = cold_plan a r
plan_for hot a r = hot_plan a r

abbrev pub Decided :
    {R : Type 0}
    → SwapMode
    → SwapBudget
    → String
    → String
    → WorkerSupervisor R × SwapExecution
    → Type 0
Decided mode budget a r (s', e) =
    (e.mode ≡ mode_within mode budget)
    × (e.plan ≡ plan_for (mode_within mode budget) a r)
    × ((e.success ≡ false) ⊎ Reached a r (s', e))

module _ {R P : Type 0} (w : WorkerRunner R P) where
  plan-execute_cold_swap :
      (a : String) (p : PlannedWorker P) (polls : List ℕ) (s : WorkerSupervisor R)
      → (execute_cold_swap w a p polls s).1.plan ≡ cold_plan a p.id
  unfolding execute_cold_swap
  plan-execute_cold_swap a p polls s = ground arith

  plan-execute_hot_swap :
      (a : String) (p : PlannedWorker P) (polls : List ℕ) (s : WorkerSupervisor R)
      → (execute_hot_swap w a p polls s).1.plan ≡ hot_plan a p.id
  unfolding execute_hot_swap
  plan-execute_hot_swap a p polls s = ground arith

  cold-Reached :
      (a : String) (p : PlannedWorker P) (polls : List ℕ) (s : WorkerSupervisor R)
      → str_eq a p.id ≡ false
      → (execute_cold_swap w a p polls s).1.success ≡ true
      → Reached a p.id (execute_cold_swap w a p polls s)
  cold-Reached a p polls s ne done =
      let t = plan-cold a p.id ne in
      rw (plan-execute_cold_swap a p polls s) (elim (execute_cold_swap-ColdEnd w a p polls s ne).1 [
        | inl c ↦ (c.1 ∙ sym t.0, c.2 ∙ sym t.1)
        | inr (inl c) ↦ cc (c.0)
        | inr (inr c) ↦ cc (c.0)
      ])

  hot-Reached :
      (a : String) (p : PlannedWorker P) (polls : List ℕ) (s : WorkerSupervisor R)
      → str_eq a p.id ≡ false
      → (execute_hot_swap w a p polls s).1.success ≡ true
      → Reached a p.id (execute_hot_swap w a p polls s)
  hot-Reached a p polls s ne done =
      let t = plan-hot a p.id ne in
      rw (plan-execute_hot_swap a p polls s) (elim (execute_hot_swap-HotEnd w a p polls s ne) [
        | inl c ↦ cc (c.0)
        | inr c ↦ elim c.3 [ inl d ↦ (d.1 ∙ sym t.0, c.0 ∙ sym t.1) | inr d ↦ cc (d.0) ]
      ])

  mode-Reached :
      (mode : SwapMode) (a : String) (p : PlannedWorker P) (polls : List ℕ) (s : WorkerSupervisor R)
      → str_eq a p.id ≡ false
      → (execute_mode w mode a p polls s).1.success ≡ true
      → Reached a p.id (execute_mode w mode a p polls s)
  mode-Reached cold a p polls s ne done = cold-Reached a p polls s ne done
  mode-Reached hot a p polls s ne done = hot-Reached a p polls s ne done

  mode-execute_mode :
      (mode : SwapMode) (a : String) (p : PlannedWorker P) (polls : List ℕ) (s : WorkerSupervisor R)
      → (execute_mode w mode a p polls s).1.mode ≡ mode
  unfolding execute_cold_swap execute_hot_swap
  mode-execute_mode cold a p polls s = ground arith
  mode-execute_mode hot a p polls s = ground arith

  plan-execute_mode :
      (mode : SwapMode) (a : String) (p : PlannedWorker P) (polls : List ℕ) (s : WorkerSupervisor R)
      → (execute_mode w mode a p polls s).1.plan ≡ plan_for mode a p.id
  plan-execute_mode cold a p polls s = plan-execute_cold_swap a p polls s
  plan-execute_mode hot a p polls s = plan-execute_hot_swap a p polls s

  -- A swap under a budget below u64::MAX runs in the mode that was asked for if the two footprints
  -- together are within the budget, and cold otherwise. It reports that mode and the plan of that
  -- mode; and if it reports success between two different workers, each has come to the last state
  -- that the plan gives it.
  pub execute_swap_with_budget-Decided :
      (mode : SwapMode) (budget : SwapBudget) (a : String) (p : PlannedWorker P) (polls : List ℕ)
      (s : WorkerSupervisor R)
      → budget.budget_bytes < u64_max
      → str_eq a p.id ≡ false
      → Decided mode budget a p.id (execute_swap_with_budget w mode (some budget) a p polls s)
  unfolding execute_swap_with_budget
  execute_swap_with_budget-Decided mode budget a p polls s small ne =
      let used = effective_mode mode (some budget) in
      let fits = effective_mode-fits mode budget small in
      (
        mode-execute_mode used a p polls s ∙ fits,
        plan-execute_mode used a p polls s ∙ ap (λ m. plan_for m a p.id) fits,
        elim (Bool-cases (execute_mode w used a p polls s).1.success) [
          | inl done ↦ inr (mode-Reached used a p polls s ne done)
          | inr missed ↦ inl missed
        ],
      )

  IsGated-execute_mode :
      (mode : SwapMode) (a : String) (p : PlannedWorker P) (polls : List ℕ) (s : WorkerSupervisor R)
      → IsGated s
      → IsGated (execute_mode w mode a p polls s).0
  unfolding execute_cold_swap execute_hot_swap
  IsGated-execute_mode cold a p polls s v =
      let s₁ = (drain a polls s).0 in
      let h = stop w a s₁ in
      let v₂ = IsGated-stop w a s₁ (IsGated-drain a polls s v) in
      elim (Bool-cases (state_eq h.1.state stopped)) [
        | inl e ↦ rw e (IsGated-start w p h.0 v₂)
        | inr e ↦ rw e v₂
      ]
  IsGated-execute_mode hot a p polls s v =
      let st = start w p s in
      let s₂ = (drain a polls st.0).0 in
      let v₁ = IsGated-start w p s v in
      elim (Bool-cases (state_eq st.1.state ready)) [
        | inl e ↦ rw e (IsGated-stop w a s₂ (IsGated-drain a polls st.0 v₁))
        | inr e ↦ rw e v₁
      ]

  -- A swap keeps it that an open gate belongs to a ready worker.
  pub IsGated-execute_swap_with_budget :
      (mode : SwapMode) (budget : Option SwapBudget) (a : String) (p : PlannedWorker P)
      (polls : List ℕ) (s : WorkerSupervisor R)
      → IsGated s
      → IsGated (execute_swap_with_budget w mode budget a p polls s).0
  unfolding execute_swap_with_budget
  IsGated-execute_swap_with_budget mode budget a p polls s v =
      IsGated-execute_mode (effective_mode mode budget) a p polls s v
