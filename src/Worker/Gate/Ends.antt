-- ===== src/Worker/Gate/Ends.antt =====
-- The requests of a closed gate end, so the wait of `drain` ends.
use rs_llmctl.Base.{
  ℕ, zero, suc, ◌+◌, ◌-◌, max, ◌≤◌, ◌<◌, ◌≡◌, refl, ◌∙◌, ◌⊎◌, inl, inr, Bool, true, false, List, [],
  ◌∷◌, arith, length, ◌==◌,
}
use rs_llmctl.Worker.Gate.{
  WorkerAdmission, usize_mod, Position, outside, checked, entered, rejected, inside, advance,
  advance_at, World, Action, moves, closes, act, schedule,
}
use rs_llmctl.Worker.Gate.Drained.{
  counted, opened, closed-act, closed-closes, act-IsCounted, schedule-IsCounted, IsCounted-opened,
  length-advance_at, length-all_outside,
}

-- the moves that a thread has left before it is outside a closed gate
abbrev pub left : Position → ℕ
left outside = 0
left checked = 3
left entered = 2
left rejected = 1
left inside = 1

abbrev pub left_at : ℕ → List Position → ℕ
left_at k [] = 0
left_at zero (p ∷ ps) = left p
left_at (suc k) (p ∷ ps) = left_at k ps

-- how many times a thread moves in a schedule
abbrev pub once : Bool → ℕ
once true = 1
once false = 0

abbrev pub moved : ℕ → List Action → ℕ
moved k [] = 0
moved k (moves j ∷ as') = once (j == k) + moved k as'
moved k (closes ∷ as') = moved k as'

left-three : (p : Position) → left p ≤ 3
left-three outside = omega arith
left-three checked = omega arith
left-three entered = omega arith
left-three rejected = omega arith
left-three inside = omega arith

left_at-three : (k : ℕ) (ps : List Position) → left_at k ps ≤ 3
left_at-three k [] = omega arith
left_at-three zero (p ∷ ps) = left-three p
left_at-three (suc k) (p ∷ ps) = left_at-three k ps

left_at-none : (k : ℕ) (ps : List Position) → length ps ≤ k → left_at k ps ≡ 0
left_at-none k [] h = refl
left_at-none zero (p ∷ ps) h = absurd (omega arith)
left_at-none (suc k) (p ∷ ps) h = left_at-none k ps (omega arith)

left-advance :
    (g : WorkerAdmission) (p : Position)
    → g.admitting ≡ false
    → left (advance g p).1 + 1 ≤ max (left p) 1
unfolding advance
left-advance g outside c = rw c (omega arith)
left-advance g checked c = omega arith
left-advance g entered c = rw c (omega arith)
left-advance g rejected c = omega arith
left-advance g inside c = omega arith

left_at-advance_at :
    (k j : ℕ) (g : WorkerAdmission) (ps : List Position)
    → g.admitting ≡ false
    → left_at k (advance_at j g ps).1 ≤ left_at k ps - once (j == k)
unfolding advance_at
left_at-advance_at k j g [] c = omega arith
left_at-advance_at zero zero g (p ∷ ps) c = omega (arith, left-advance g p c)
left_at-advance_at zero (suc j) g (p ∷ ps) c = ground arith
left_at-advance_at (suc k) zero g (p ∷ ps) c = ground arith
left_at-advance_at (suc k) (suc j) g (p ∷ ps) c = ground (arith, left_at-advance_at k j g ps c)

left_at-schedule :
    (k : ℕ) (w : World) (as' : List Action)
    → w.gate.admitting ≡ false
    → left_at k (schedule w as').threads ≤ left_at k w.threads - moved k as'
unfolding schedule act
left_at-schedule k w [] c = omega arith
left_at-schedule k w (moves j ∷ as') c = omega (
  arith,
  left_at-schedule k (act w (moves j)) as' (closed-act w (moves j) c),
  left_at-advance_at k j w.gate w.threads c,
)
left_at-schedule k w (closes ∷ as') c =
    left_at-schedule k (act w closes) as' (closed-act w closes c)

length-schedule :
    (w : World) (as' : List Action) → length (schedule w as').threads ≡ length w.threads
unfolding schedule act
length-schedule w [] = refl
length-schedule w (moves j ∷ as') =
    length-schedule (act w (moves j)) as' ∙ length-advance_at j w.gate w.threads
length-schedule w (closes ∷ as') = length-schedule (act w closes) as'

counted-left : (ps : List Position) → ((k : ℕ) → left_at k ps ≡ 0) → counted ps ≡ 0
counted-left [] h = refl
counted-left (outside ∷ ps) h = omega (arith, counted-left ps (λ k. h (suc k)))
counted-left (checked ∷ ps) h = absurd (omega (arith, h 0))
counted-left (entered ∷ ps) h = absurd (omega (arith, h 0))
counted-left (rejected ∷ ps) h = absurd (omega (arith, h 0))
counted-left (inside ∷ ps) h = absurd (omega (arith, h 0))

threads-closes : (w : World) → length (act w closes).threads ≡ length w.threads
unfolding act
threads-closes w = refl

le_or_lt : (a b : ℕ) → (a ≤ b) ⊎ (b < a)
le_or_lt a b = ground arith

-- A drain ends. After any schedule on a fresh gate that is shared by fewer than 2^64 threads the gate
-- is closed, and then the threads go on in any interleaving. Once each of them has moved at least three
-- times since (a request that holds a guard ends by its next move), `in_flight` is zero.
pub schedule-in_flight :
    (n : ℕ) (before after : List Action)
    → n < usize_mod
    → ((k : ℕ) → k < n → 3 ≤ moved k after)
    → (schedule (act (schedule (opened n) before) closes) after).gate.in_flight ≡ 0
schedule-in_flight n before after few enough =
    let w₀ = schedule (opened n) before in
    let w = act w₀ closes in
    let v =
      schedule-IsCounted w after
        (act-IsCounted w₀ closes (schedule-IsCounted (opened n) before (IsCounted-opened n few))) in
    v.exact
    ∙ counted-left (schedule w after).threads (λ k. elim (le_or_lt n k) [
      | inl beyond ↦ left_at-none k (schedule w after).threads (
          omega (
            arith,
            length-schedule w after,
            threads-closes w₀,
            length-schedule (opened n) before,
            length-all_outside n,
          ))
      | inr within ↦ omega (
        arith,
        left_at-schedule k w after (closed-closes w₀),
        left_at-three k w.threads,
        enough k within,
      )
    ])
