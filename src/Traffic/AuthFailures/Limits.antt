-- ===== src/Traffic/AuthFailures/Limits.antt =====
-- When a source is limited.
use rs_llmctl.Base.{
  ℕ, ◌-◌, ◌+◌, ◌≤◌, ◌<◌, ◌≡◌, ◌∙◌, String, true, false, ◌&&◌, none, some, List, [], ◌∷◌,
  if◌then◌else◌, arith, str_eq, eq_refl, ltb, leb, length, min, u32_max,
}
use rs_llmctl.Base.Map.{get, Distinct}
use rs_llmctl.Base.Map.Laws.{get-remove}
use rs_llmctl.Traffic.AuthFailures.{
  AuthFailureLimiter, window_ms, is_limited, prune_stale_auth_windows, record_failure,
  record_success,
}
use rs_llmctl.Traffic.AuthFailures.Window.{
  is_limited-current, get-prune_live, get-prune_none, Distinct-record_failure, get-record_failure,
}

-- failures of one source at the given times, in order
unfoldable pub fail_all : String → ℕ → List ℕ → AuthFailureLimiter → AuthFailureLimiter
fail_all key limit [] l = l
fail_all key limit (t ∷ ts) l = fail_all key limit ts (record_failure key limit t l)

-- Every time falls in the window that starts at `start`.
abbrev pub WithinWindow : ℕ → List ℕ → Type 0
WithinWindow start [] = Unit
WithinWindow start (t ∷ ts) = (t - start < window_ms) × WithinWindow start ts

pub record_failure-window :
    (key : String) (limit now start n : ℕ) (l : AuthFailureLimiter)
    → Distinct l.failures
    → 0 < limit
    → 0 < n
    → now - start < window_ms
    → get key l.failures ≡ some (record { started = start; count = n })
    → get key (record_failure key limit now l).failures
      ≡ some (record { started = start; count = min u32_max (n + 1) })
record_failure-window key limit now start n l d pos some_failure within e =
    get-record_failure key limit now l pos
    ∙ rw
        (get-prune_live now key l.failures (record { started = start; count = n }) d e some_failure
          within)
        (ground arith)

fail_all-window :
    (key : String) (limit start n : ℕ) (ts : List ℕ) (l : AuthFailureLimiter)
    → Distinct l.failures
    → 0 < limit
    → 0 < n
    → n ≤ u32_max
    → WithinWindow start ts
    → get key l.failures ≡ some (record { started = start; count = n })
    → get key (fail_all key limit ts l).failures
      ≡ some (record { started = start; count = min u32_max (n + length ts) })
unfolding fail_all
fail_all-window key limit start n [] l d pos some_failure fits h e = e ∙ ground arith
fail_all-window key limit start n (t ∷ ts) l d pos some_failure fits h e =
    fail_all-window key limit start (min u32_max (n + 1)) ts (record_failure key limit t l)
      (Distinct-record_failure key limit t l d) pos (omega arith) (omega arith) h.1
      (record_failure-window key limit t start n l d pos some_failure h.0 e)
    ∙ ground arith

pub first_failure :
    (key : String) (limit now : ℕ) (l : AuthFailureLimiter)
    → Distinct l.failures
    → 0 < limit
    → get key l.failures ≡ none
    → get key (record_failure key limit now l).failures ≡ some (record { started = now; count = 1 })
first_failure key limit now l d pos e =
    get-record_failure key limit now l pos
    ∙ rw (get-prune_none now key l.failures d e) (ground arith)

-- A source with no window fails first at `start` and then at the times `ts`, all in the minute
-- that starts there. Then it is limited at a time exactly when that minute is not over and the
-- failures (counted up to u32::MAX) have reached the limit, which is not zero.
pub is_limited-fail_all :
    (key : String) (limit start now : ℕ) (ts : List ℕ) (l : AuthFailureLimiter)
    → Distinct l.failures
    → 0 < limit
    → get key l.failures ≡ none
    → WithinWindow start ts
    → (is_limited key limit now (fail_all key limit ts (record_failure key limit start l))).1
      ≡ ltb (now - start) window_ms && leb limit (min u32_max (1 + length ts))
is_limited-fail_all key limit start now ts l d pos e h =
    let l' = record_failure key limit start l in
    is_limited-current key limit now (fail_all key limit ts l') pos
    ∙ rw
        (fail_all-window key limit start 1 ts l' (Distinct-record_failure key limit start l d) pos
          (omega arith) (omega arith) h (first_failure key limit start l d pos e))
        (ground arith)

-- A recorded success forgets the source's failures: it is not limited, whatever the limit and the
-- time, it has no window, and every other source keeps its window.
pub is_limited-record_success :
    (key j : String) (limit now : ℕ) (l : AuthFailureLimiter)
    → ((is_limited key limit now (record_success key l)).1 ≡ false)
      × (get j (record_success key l).failures ≡ (if str_eq key j then none else get j l.failures))
unfolding is_limited record_success
is_limited-record_success key j limit now l =
    (ground (arith, get-remove key key l.failures, eq_refl key), get-remove key j l.failures)

-- A window with no failures that started at `start` is not the same as no window: with a limit of
-- one, after one failure at `now` in the minute of `start`, and at a time `later` that is past the
-- minute of `start` and in the minute of `now`, the source with that window is not limited and a
-- source with no window is. (The pruning at `now` finds nothing to remove beside that window.)
pub is_limited-empty_window :
    (key : String) (start now later : ℕ) (l m : AuthFailureLimiter)
    → Distinct l.failures
    → Distinct m.failures
    → prune_stale_auth_windows now l.failures ≡ l.failures
    → get key l.failures ≡ some (record { started = start; count = 0 })
    → get key m.failures ≡ none
    → now - start < window_ms
    → window_ms ≤ later - start
    → later - now < window_ms
    → ((is_limited key 1 later (record_failure key 1 now l)).1 ≡ false)
      × ((is_limited key 1 later (record_failure key 1 now m)).1 ≡ true)
is_limited-empty_window key start now later l m d d' small e e' within over still = (
  is_limited-current key 1 later (record_failure key 1 now l) (omega arith)
      ∙ rw (get-record_failure key 1 now l (omega arith)) (rw small (rw e (ground arith))),
  is_limited-current key 1 later (record_failure key 1 now m) (omega arith)
      ∙ rw (first_failure key 1 now m d' (omega arith) e') (ground arith),
)
