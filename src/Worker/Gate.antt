-- ===== src/Worker/Gate.antt =====
-- src/worker/admission.rs: `WorkerAdmission`, shared by the supervisor and the request path without
-- a lock. Each atomic load, store, add or subtract is one step, and request threads interleave at
-- these steps with the supervisor. The atomics are sequentially consistent in the source.
pub mod Drained
pub mod Ends
mod Examples
use rs_llmctl.Base.{
  ℕ, zero, suc, ◌+◌, ◌-◌, ◌%◌, Bool, true, false, List, [], ◌∷◌, if◌then◌else◌, ◌==◌,
}

pub record WorkerAdmission : Type 0 where
  pub admitting : Bool
  pub in_flight : ℕ

abbrev pub usize_mod : ℕ
usize_mod = 18446744073709551616

unfoldable pub ready : WorkerAdmission
ready = record { admitting = true; in_flight = 0 }

unfoldable pub set_admitting : Bool → WorkerAdmission → WorkerAdmission
set_admitting value g = record g { admitting = value }

-- `fetch_add` and `fetch_sub` wrap around
abbrev pub fetch_add : WorkerAdmission → WorkerAdmission
fetch_add g = record g { in_flight = (g.in_flight + 1) % usize_mod }

abbrev pub fetch_sub : WorkerAdmission → WorkerAdmission
fetch_sub g = record g { in_flight = (g.in_flight + usize_mod - 1) % usize_mod }

-- Where a request thread stands in `try_enter`, and after it: `checked` is past the first check,
-- `entered` past the increment, `rejected` past a second check that failed; `inside` holds the guard.
pub data Position : Type 0 where
  outside checked entered rejected inside : Position

-- The next atomic step of a thread. From `inside` it is the drop of the guard.
pub advance : WorkerAdmission → Position → WorkerAdmission × Position
advance g outside = (g, if g.admitting then checked else outside)
advance g checked = (fetch_add g, entered)
advance g entered = (g, if g.admitting then inside else rejected)
advance g rejected = (fetch_sub g, outside)
advance g inside = (fetch_sub g, outside)

pub record World : Type 0 where
  pub gate : WorkerAdmission
  pub threads : List Position

pub advance_at : ℕ → WorkerAdmission → List Position → WorkerAdmission × List Position
unfolding advance
advance_at k g [] = (g, [])
advance_at zero g (p ∷ ps) = let (g', p') = advance g p in (g', p' ∷ ps)
advance_at (suc k) g (p ∷ ps) = let (g', ps') = advance_at k g ps in (g', p ∷ ps')

-- A request thread moves, or the supervisor closes the gate.
pub data Action : Type 0 where
  moves : ℕ → Action
  closes : Action

pub act : World → Action → World
unfolding advance_at set_admitting
act w (moves k) = let (g, ps) = advance_at k w.gate w.threads in record { gate = g; threads = ps }
act w closes = record w { gate = set_admitting false w.gate }

pub schedule : World → List Action → World
schedule w [] = w
schedule w (a ∷ as') = schedule (act w a) as'
