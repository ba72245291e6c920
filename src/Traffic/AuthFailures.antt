-- ===== src/Traffic/AuthFailures.antt =====
-- src/server/traffic.rs: `AuthFailureLimiter`, the failed authentications of each source in a
-- window of 60 seconds. Times are milliseconds and `now` is an argument; `elapsed()` saturates at
-- zero, as `-` does. The counter metric is the list `emitted`, the latest first.
pub mod Window
pub mod Limits
mod Examples
use rs_llmctl.Base.{
  ℕ, zero, suc, ◌-◌, String, Bool, true, false, ◌&&◌, not, Option, none, some, List, [], ◌∷◌,
  if◌then◌else◌, ltb, leb, ◌==◌, saturating_add, u32_max,
}
use rs_llmctl.Base.Map.{Map, get, insert, remove, retain, size}

pub record AuthFailureWindow : Type 0 where
  pub started : ℕ
  pub count : ℕ

pub record AuthFailureLimiter : Type 0 where
  pub failures : Map AuthFailureWindow
  -- the attribute `limited` of each `llmctl_auth_failures_total` that was added
  pub emitted : List Bool

abbrev pub auth_failure_max_tracked : ℕ
auth_failure_max_tracked = 8192

abbrev pub window_ms : ℕ
window_ms = 60000

-- `if window.started.elapsed() >= 60s { window.started = now; window.count = 0 }`
abbrev pub reset_expired : ℕ → AuthFailureWindow → AuthFailureWindow
reset_expired now w =
    if leb window_ms (now - w.started) then record { started = now; count = 0 } else w

pub is_limited : String → ℕ → ℕ → AuthFailureLimiter → AuthFailureLimiter × Bool
is_limited key limit now l = if limit == 0 then (l, false) else elim (get key l.failures) [
  | none ↦ (l, false)
  | some w ↦ (
    record l { failures = insert key (reset_expired now w) l.failures },
    leb limit (reset_expired now w).count,
  )
]

pub prune_stale_auth_windows : ℕ → Map AuthFailureWindow → Map AuthFailureWindow
prune_stale_auth_windows now failures =
    if ltb (size failures) auth_failure_max_tracked
    then failures
    else retain (λ w. ltb 0 w.count && ltb (now - w.started) window_ms) failures

-- `failures.entry(key).or_insert(..)`, read
abbrev pub or_started : ℕ → Option AuthFailureWindow → AuthFailureWindow
or_started now none = record { started = now; count = 0 }
or_started now (some w) = w

abbrev pub counted : AuthFailureWindow → AuthFailureWindow
counted w = record w { count = saturating_add u32_max w.count 1 }

pub record_failure : String → ℕ → ℕ → AuthFailureLimiter → AuthFailureLimiter
unfolding prune_stale_auth_windows
record_failure key limit now l =
    if limit == 0
    then l
    else (let pruned = prune_stale_auth_windows now l.failures in
        let window = counted (reset_expired now (or_started now (get key pruned))) in
        record {
          failures = insert key window pruned;
          emitted = leb limit window.count ∷ l.emitted;
        })

pub record_success : String → AuthFailureLimiter → AuthFailureLimiter
record_success key l = record l { failures = remove key l.failures }
