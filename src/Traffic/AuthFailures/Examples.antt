-- ===== src/Traffic/AuthFailures/Examples.antt =====
-- Runs of the limiter, and its theorems at concrete sources.
use rs_llmctl.Base.{ℕ, ◌≡◌, refl, arith, true, false, [], ◌∷◌, List}
use rs_llmctl.Base.Map
use rs_llmctl.Traffic.AuthFailures.{
  AuthFailureLimiter, is_limited, prune_stale_auth_windows, record_failure,
}
use rs_llmctl.Traffic.AuthFailures.Limits.{fail_all, is_limited-empty_window}

abbrev no_failures : AuthFailureLimiter
no_failures = record { failures = []; emitted = [] }

abbrev later_failures : List ℕ
later_failures = 2000 ∷ 3000 ∷ []

limited_after_three :
    (is_limited "src" 3 4000
      (fail_all "src" 3 later_failures (record_failure "src" 3 1000 no_failures))).1
    ≡ true
unfolding fail_all is_limited record_failure Map.get Map.insert
limited_after_three = refl

abbrev one_source : AuthFailureLimiter
one_source = record { failures = ("src", record { started = 0; count = 5 }) ∷ []; emitted = [] }

abbrev emptied : AuthFailureLimiter
emptied = record { failures = ("src", record { started = 0; count = 0 }) ∷ []; emitted = [] }

is_limited-empty_window_example :
    ((is_limited "src" 1 60000 (record_failure "src" 1 59000 emptied)).1 ≡ false)
    × ((is_limited "src" 1 60000 (record_failure "src" 1 59000 no_failures)).1 ≡ true)
unfolding prune_stale_auth_windows Map.get
is_limited-empty_window_example =
    is_limited-empty_window "src" 0 59000 60000 emptied no_failures (refl, tt) tt refl refl refl
      (omega arith) (omega arith) (omega arith)
