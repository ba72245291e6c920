-- ===== src/Traffic/Breaker/Opens.antt =====
-- When a breaker opens, and that an open breaker lets one probe through.
use rs_llmctl.Base.{
  ℕ, ◌+◌, ◌-◌, ◌≤◌, ◌<◌, ◌≡◌, refl, ap, ◌∙◌, String, true, false, none, some, List, [], ◌∷◌, arith,
  str_eq, eq_iff, length, min, u32_max, eq_refl,
}
use rs_llmctl.Base.Map.{Distinct}
use rs_llmctl.Traffic.Breaker.{
  CircuitBreakerState, CircuitBreakers, allow_request, record_success, failed, record_failure,
}
use rs_llmctl.Traffic.Breaker.Lookup.{
  state_of, allows, allow_request-answer, state_of-allow_request, state_of-record_success,
  state_of-record_failure, Distinct-record_success, Distinct-record_failure,
}
use rs_llmctl.Traffic.Breaker.Refines.{Call, allow, success, failure, step, Distinct-step}

-- failures of one upstream at the given times, in order
pub fail_all : String → ℕ → List ℕ → CircuitBreakers → CircuitBreakers
fail_all u threshold [] b = b
fail_all u threshold (t ∷ ts) b = fail_all u threshold ts (record_failure u threshold t b)

state_of-record_failure_self :
    (u : String) (threshold now : ℕ) (b : CircuitBreakers)
    → Distinct b.states
    → state_of (record_failure u threshold now b) u ≡ failed threshold now (state_of b u)
state_of-record_failure_self u threshold now b d =
    state_of-record_failure u u threshold now b d ∙ rw (eq_refl u) refl

pub Distinct-fail_all :
    (u : String) (threshold : ℕ) (ts : List ℕ) (b : CircuitBreakers)
    → Distinct b.states
    → Distinct (fail_all u threshold ts b).states
unfolding fail_all
Distinct-fail_all u threshold [] b d = d
Distinct-fail_all u threshold (t ∷ ts) b d =
    Distinct-fail_all u threshold ts _ (Distinct-record_failure u threshold t b d)

abbrev failures : CircuitBreakers → String → ℕ
failures b u = (state_of b u).consecutive_failures

failures-record_failure :
    (u : String) (threshold now : ℕ) (b : CircuitBreakers)
    → Distinct b.states
    → failures (record_failure u threshold now b) u ≡ min u32_max (failures b u + 1)
failures-record_failure u threshold now b d =
    ap (λ (s : CircuitBreakerState). s.consecutive_failures)
      (state_of-record_failure_self u threshold now b d)

failures-fail_all :
    (u : String) (threshold : ℕ) (ts : List ℕ) (b : CircuitBreakers)
    → Distinct b.states
    → min u32_max (length ts + failures b u) ≤ failures (fail_all u threshold ts b) u
unfolding fail_all
failures-fail_all u threshold [] b d = omega arith
failures-fail_all u threshold (t ∷ ts) b d = omega (
  arith,
  failures-record_failure u threshold t b d,
  failures-fail_all u threshold ts (record_failure u threshold t b)
      (Distinct-record_failure u threshold t b d),
)

failed-blocks :
    (threshold last reset_after now : ℕ) (s : CircuitBreakerState)
    → 0 < threshold
    → threshold ≤ min u32_max (s.consecutive_failures + 1)
    → now - last < reset_after
    → allows reset_after now (failed threshold last s) ≡ false
failed-blocks threshold last reset_after now s pos reached early = ground arith

-- When an upstream has failed at least `threshold` times in a row (0 < threshold ≤ u32::MAX), no
-- request to it is allowed until `reset_after` has passed since the last failure, whatever the
-- breakers held before.
pub allow_request-fail_all :
    (u : String) (threshold reset_after now last : ℕ) (ts : List ℕ) (b : CircuitBreakers)
    → Distinct b.states
    → 0 < threshold
    → threshold ≤ u32_max
    → threshold ≤ length ts + 1
    → now - last < reset_after
    → (allow_request u reset_after now
        (record_failure u threshold last (fail_all u threshold ts b))).1
      ≡ false
allow_request-fail_all u threshold reset_after now last ts b d pos fits enough early =
    let b' = fail_all u threshold ts b in
    let d' = Distinct-fail_all u threshold ts b d in
    allow_request-answer u reset_after now (record_failure u threshold last b')
    ∙ ap (allows reset_after now) (state_of-record_failure_self u threshold last b' d')
    ∙ failed-blocks threshold last reset_after now (state_of b' u) pos
        (omega (arith, failures-fail_all u threshold ts b d)) early

-- closed with at most `n` failures
abbrev ClosedBelow : ℕ → CircuitBreakerState → Type 0
ClosedBelow n s = (s.opened_at ≡ none) × (s.consecutive_failures ≤ n)

ClosedBelow-failed :
    (n threshold now : ℕ) (s : CircuitBreakerState)
    → n + 1 < threshold
    → ClosedBelow n s
    → ClosedBelow (n + 1) (failed threshold now s)
ClosedBelow-failed n threshold now s h c = ground arith

ClosedBelow-fail_all :
    (u : String) (n threshold : ℕ) (ts : List ℕ) (b : CircuitBreakers)
    → Distinct b.states
    → n + length ts < threshold
    → ClosedBelow n (state_of b u)
    → ClosedBelow (n + length ts) (state_of (fail_all u threshold ts b) u)
unfolding fail_all
ClosedBelow-fail_all u n threshold [] b d h c = (c.0, omega arith)
ClosedBelow-fail_all u n threshold (t ∷ ts) b d h c =
    let b' = record_failure u threshold t b in
    let rest =
      ClosedBelow-fail_all u (n + 1) threshold ts b' (Distinct-record_failure u threshold t b d)
        (omega arith)
        (rw (state_of-record_failure_self u threshold t b d)
          (ClosedBelow-failed n threshold t (state_of b u) (omega arith) c)) in
    (rest.0, omega arith)

closed-allows :
    (reset_after now n : ℕ) (s : CircuitBreakerState)
    → ClosedBelow n s
    → allows reset_after now s ≡ true
closed-allows reset_after now n s c = rw c.0 refl

-- After a success, fewer than `threshold` failures in a row leave the upstream open to requests,
-- at every time.
pub allow_request-below_threshold :
    (u : String) (threshold reset_after now : ℕ) (ts : List ℕ) (b : CircuitBreakers)
    → Distinct b.states
    → length ts < threshold
    → (allow_request u reset_after now (fail_all u threshold ts (record_success u b))).1 ≡ true
allow_request-below_threshold u threshold reset_after now ts b d h =
    let b' = record_success u b in
    allow_request-answer u reset_after now (fail_all u threshold ts b')
    ∙ closed-allows reset_after now (0 + length ts) (state_of (fail_all u threshold ts b') u) (
        ClosedBelow-fail_all u 0 threshold ts b' (Distinct-record_success u b d) (omega arith)
          (rw (state_of-record_success u u b d, eq_refl u) (refl, omega arith)))

-- A probe of the upstream is under way.
pub record IsProbing (u : String) (b : CircuitBreakers) : Type 0 where
  pub distinct : Distinct b.states
  pub since : ℕ
  pub opened : (state_of b u).opened_at ≡ some since
  pub probe : (state_of b u).half_open_probe_in_flight ≡ true

-- The call records no result of this upstream.
abbrev pub NotRecorded : String → Call → Type 0
NotRecorded u (allow j r t) = Unit
NotRecorded u (success j) = str_eq j u ≡ false
NotRecorded u (failure j n t) = str_eq j u ≡ false

abbrev pub AllNotRecorded : String → List Call → Type 0
AllNotRecorded u [] = Unit
AllNotRecorded u (c ∷ cs) = NotRecorded u c × AllNotRecorded u cs

pub run : List Call → CircuitBreakers → CircuitBreakers
run [] b = b
run (c ∷ cs) b = run cs (step c b).0

state_of-step :
    (u : String) (c : Call) (b : CircuitBreakers)
    → IsProbing u b
    → NotRecorded u c
    → state_of (step c b).0 u ≡ state_of b u
unfolding step
state_of-step u (allow j r t) b p h =
    ground (arith, state_of-allow_request j u r t b, eq_iff j u, p.probe, p.opened)
state_of-step u (success j) b p h = state_of-record_success j u b p.distinct ∙ rw h refl
state_of-step u (failure j n t) b p h = state_of-record_failure j u n t b p.distinct ∙ rw h refl

pub IsProbing-step :
    (u : String) (c : Call) (b : CircuitBreakers)
    → IsProbing u b
    → NotRecorded u c
    → IsProbing u (step c b).0
IsProbing-step u c b p h = record {
  distinct = Distinct-step c b p.distinct;
  since = p.since;
  opened = rw (state_of-step u c b p h) p.opened;
  probe = rw (state_of-step u c b p h) p.probe;
}

pub IsProbing-run :
    (u : String) (cs : List Call) (b : CircuitBreakers)
    → IsProbing u b
    → AllNotRecorded u cs
    → IsProbing u (run cs b)
unfolding run
IsProbing-run u [] b p h = p
IsProbing-run u (c ∷ cs) b p h = IsProbing-run u cs (step c b).0 (IsProbing-step u c b p h.0) h.1

pub IsProbing-blocks :
    (u : String) (reset_after now : ℕ) (b : CircuitBreakers)
    → IsProbing u b
    → (allow_request u reset_after now b).1 ≡ false
IsProbing-blocks u reset_after now b p =
    ground (arith, allow_request-answer u reset_after now b, p.opened, p.probe)

pub IsProbing-allow_request :
    (u : String) (opened reset_after now : ℕ) (b : CircuitBreakers)
    → Distinct b.states
    → (state_of b u).opened_at ≡ some opened
    → (allow_request u reset_after now b).1 ≡ true
    → IsProbing u (allow_request u reset_after now b).0
unfolding step
IsProbing-allow_request u opened reset_after now b d o ok = record {
  distinct = Distinct-step (allow u reset_after now) b d;
  since = opened;
  opened = ground (
    arith,
    state_of-allow_request u u reset_after now b,
    allow_request-answer u reset_after now b,
    eq_refl u,
  );
  probe = ground (
    arith,
    state_of-allow_request u u reset_after now b,
    allow_request-answer u reset_after now b,
    eq_refl u,
  );
}

-- Once an open breaker has let a request through, it lets no other through, at any time and
-- whatever happens to other upstreams, until a success or a failure of this upstream is recorded.
pub allow_request-one_probe :
    (u : String) (opened reset_after now reset' now' : ℕ) (cs : List Call) (b : CircuitBreakers)
    → Distinct b.states
    → (state_of b u).opened_at ≡ some opened
    → (allow_request u reset_after now b).1 ≡ true
    → AllNotRecorded u cs
    → (allow_request u reset' now' (run cs (allow_request u reset_after now b).0)).1 ≡ false
allow_request-one_probe u opened reset_after now reset' now' cs b d o ok h =
    IsProbing-blocks u reset' now' _
      (IsProbing-run u cs _ (IsProbing-allow_request u opened reset_after now b d o ok) h)
