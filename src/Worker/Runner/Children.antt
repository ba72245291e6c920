-- ===== src/Worker/Runner/Children.antt =====
-- Which children the runner keeps after each call.
use rs_llmctl.Base.{
  ℕ, ◌≡◌, refl, sym, ◌∙◌, ap, inl, inr, String, Bool, true, false, Option, none, some, List, [],
  ◌∷◌, if◌then◌else◌, arith, eq_iff, str_eq, eq_refl, Bool-cases, Option-cases, contains,
}
use rs_llmctl.Base.Map.{get}
use rs_llmctl.Base.Map.Laws.{get-insert, get-remove}
use rs_llmctl.Worker.Launch as Launch
use rs_llmctl.Worker.Launch.{is_in_process}
use rs_llmctl.Worker.Supervisor.{Outcome, ok, err, PlannedWorker}
use rs_llmctl.Worker.Runner.{
  Processes, TokioWorkerRunner, Waited, running, exited, wait_failed, keys, pid_or_zero,
  kill_existing, killed, poll_found, spawned, spawn, stop, polled, poll_child, poll_each,
  poll_exited,
}

abbrev pub is_some {ℓ} : {A : Type ℓ} → Option A → Bool
is_some none = false
is_some (some a) = true

-- whether the runner keeps a child for a worker
abbrev pub has : {O C : Type 0} → TokioWorkerRunner O C → String → Bool
has r id = is_some (get id r.children)

module _ {O C : Type 0} (p : Processes O C) where
  -- What a spawn must have done for a worker whose command is run.
  abbrev pub Spawned : String → TokioWorkerRunner O C → TokioWorkerRunner O C × Outcome ℕ → Type 0
  Spawned id r (r', ok pid) =
      ((child : C) × (get id r'.children ≡ some child) × (pid ≡ pid_or_zero (p.id child)))
      × ((j : String) → str_eq id j ≡ false → get j r'.children ≡ get j r.children)
  Spawned id r (r', err error) =
      (get id r'.children ≡ none)
      × ((j : String) → str_eq id j ≡ false → get j r'.children ≡ get j r.children)

  killed-get :
      (id j : String) (r : TokioWorkerRunner O C) (o : Option C)
      → get id r.children ≡ o
      → get j (killed p id r o).children ≡ (if str_eq id j then none else get j r.children)
  killed-get id j r none e = elim (Bool-cases (str_eq id j)) [
    | inl same ↦ rw same (ap (λ k. get k r.children) (sym ((eq_iff id j).0 same)) ∙ e)
    | inr other ↦ rw other refl
  ]
  killed-get id j r (some c) e = get-remove id j r.children

  spawned-Spawned :
      (id : String) (r r' : TokioWorkerRunner O C) (answer : O × Outcome C)
      → ((j : String) → get j r'.children ≡ (if str_eq id j then none else get j r.children))
      → Spawned id r (spawned p id r' answer)
  spawned-Spawned id r r' (os, ok child) h = (
    (child, get-insert id id child r'.children ∙ rw (eq_refl id) refl, refl),
    λ j other. get-insert id j child r'.children ∙ rw other (h j ∙ rw other refl),
  )
  spawned-Spawned id r r' (os, err error) h =
      (h id ∙ rw (eq_refl id) refl, λ j other. h j ∙ rw other refl)

  -- A worker that runs in the process is refused and changes nothing. For any other the runner
  -- keeps, after the call, the new child and answers with its process id (zero if it has none), or
  -- answers with an error and keeps no child for the worker, not the prior one either. The children
  -- of the other workers stay.
  pub spawn-Spawned :
      (r : TokioWorkerRunner O C) (planned : PlannedWorker Launch.PlannedWorker)
      → (is_in_process planned.plan.launch ≡ true → (spawn p r planned).0 ≡ r)
        × (is_in_process planned.plan.launch ≡ false → Spawned planned.id r (spawn p r planned))
  unfolding spawn
  spawn-Spawned r planned = (
    λ e. rw (e, spawn) refl,
    λ e.
        rw (e, spawn)
          (spawned-Spawned planned.id r (kill_existing p planned.id r)
            (p.spawn (kill_existing p planned.id r).os planned.plan.command)
            (λ j. killed-get planned.id j r (get planned.id r.children) refl)),
  )

  -- What polling a worker's child must have done.
  abbrev Polled : String → String → TokioWorkerRunner O C → TokioWorkerRunner O C × Bool → Type 0
  Polled id j r (r', gone) =
      has r' j ≡ (if gone then (if str_eq id j then false else has r j) else has r j)

  is_some-if :
      {A : Type 0} (c : Bool) (a b : Option A)
      → is_some (if c then a else b) ≡ (if c then is_some a else is_some b)
  is_some-if true a b = refl
  is_some-if false a b = refl

  polled-Polled :
      (id j : String) (r : TokioWorkerRunner O C) (answer : O × C × Waited)
      → has r id ≡ true
      → Polled id j r (polled p id r answer)
  polled-Polled id j r (os, child, running) h =
      ap is_some (get-insert id j child r.children)
      ∙ is_some-if (str_eq id j) (some child) (get j r.children)
      ∙ elim (Bool-cases (str_eq id j)) [
        | inl same ↦ rw same (sym h ∙ ap (has r) ((eq_iff id j).0 same))
        | inr other ↦ rw other refl
      ]
  polled-Polled id j r (os, child, exited) h =
      ap is_some (get-remove id j r.children) ∙ is_some-if (str_eq id j) none (get j r.children)
  polled-Polled id j r (os, child, wait_failed) h =
      ap is_some (get-remove id j r.children) ∙ is_some-if (str_eq id j) none (get j r.children)

  poll_found-Polled :
      (id j : String) (r : TokioWorkerRunner O C) (o : Option C)
      → get id r.children ≡ o
      → Polled id j r (poll_found p id r o)
  poll_found-Polled id j r none e = refl
  poll_found-Polled id j r (some c) e = polled-Polled id j r (p.try_wait r.os c) (ap is_some e)

  report :
      (gone : Bool) (id j : String) (others : List String) (before middle after : Bool)
      → middle ≡ (if gone then (if str_eq id j then false else before) else before)
      → after ≡ (if contains j others then false else middle)
      → after ≡ (if contains j (if gone then id ∷ others else others) then false else before)
  report true id j others before middle after h k = ground (arith, h, k)
  report false id j others before middle after h k = ground (arith, h, k)

  poll_each-has :
      (ids : List String) (r : TokioWorkerRunner O C) (j : String)
      → has (poll_each p ids r).0 j ≡ (if contains j (poll_each p ids r).1 then false else has r j)
  poll_each-has [] r j = refl
  poll_each-has (id ∷ ids) r j =
      let r' = poll_child p id r in
      report r'.1 id j (poll_each p ids r'.0).1 (has r j) (has r'.0 j)
        (has (poll_each p ids r'.0).0 j) (poll_found-Polled id j r (get id r.children) refl)
        (poll_each-has ids r'.0 j)

  -- After a poll the runner keeps a child for exactly those workers that it had one for and that the
  -- poll does not report as exited.
  pub poll_exited-has :
      (r : TokioWorkerRunner O C) (j : String)
      → has (poll_exited p r).0 j ≡ (if contains j (poll_exited p r).1 then false else has r j)
  unfolding poll_exited
  poll_exited-has r j = poll_each-has (keys r.children) r j

  stop-children :
      (r : TokioWorkerRunner O C) (id j : String)
      → get j (stop p r id).0.children ≡ (if str_eq id j then none else get j r.children)
  unfolding stop
  stop-children r id j = elim (Option-cases (get id r.children)) [
    | inl e ↦ rw (e, stop) (killed-get id j r none e)
    | inr (c, e) ↦ rw (e, stop) (get-remove id j r.children)
  ]

  stop-absent :
      (r : TokioWorkerRunner O C) (id : String)
      → get id r.children ≡ none
      → stop p r id ≡ (r, ok tt)
  unfolding stop
  stop-absent r id e = rw (e, stop) refl

  -- Whatever `kill` answers, a stop forgets the child of its worker and keeps those of the others,
  -- so a second stop of the worker, also after one that failed, kills nothing, changes nothing and
  -- succeeds.
  pub stop-again :
      (r : TokioWorkerRunner O C) (id : String)
      → ((j : String)
          → get j (stop p r id).0.children ≡ (if str_eq id j then none else get j r.children))
        × (stop p (stop p r id).0 id ≡ ((stop p r id).0, ok tt))
  stop-again r id = (
    stop-children r id,
    stop-absent (stop p r id).0 id (stop-children r id id ∙ rw (eq_refl id) refl),
  )
