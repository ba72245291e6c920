-- ===== src/Quota/Policies.antt =====
-- The check against its specification: every matching policy is kept.
use rs_llmctl.Base.{
  ℕ, ◌-◌, ◌≡◌, refl, inl, inr, String, Bool, true, false, not, ◌&&◌, ◌||◌, Option, none, some, List,
  [], ◌∷◌, arith, ltb, leb, Bool-cases,
}
use rs_llmctl.Quota.Rows.{
  Principal, QuotaDecision, Storage, allowed_quota_decision_count, usage_tokens_total,
}
use rs_llmctl.Quota.{
  QuotaConfig, Query, counts, sums, minute, quota_is_subject_scoped, matching_quota_policies,
  QuotaResult, ok, storage_error, model_denied, check_models, check_requests, check_tokens,
  day_start, check_matching, check_quota, allow_or,
}

abbrev pub all {ℓ} : {A : Type ℓ} → (A → Bool) → List A → Bool
all p [] = true
all p (x ∷ xs) = p x && all p xs

abbrev pub model_kept : String → QuotaConfig → Bool
model_kept model q = not (model_denied model q)

-- The requests of the last minute are below the limit; zero is no limit.
abbrev pub requests_kept : Storage → ℕ → Principal → QuotaConfig → Bool
requests_kept s now p q =
    not (ltb 0 q.requests_per_minute)
    || ltb (allowed_quota_decision_count s p (quota_is_subject_scoped q p) (now - minute) now)
        q.requests_per_minute

-- The tokens since midnight are below the limit; zero is no limit.
abbrev pub tokens_kept : Storage → ℕ → Principal → QuotaConfig → Bool
tokens_kept s now p q =
    not (ltb 0 q.tokens_per_day)
    || ltb (usage_tokens_total s p (quota_is_subject_scoped q p) (day_start now) now)
        q.tokens_per_day

-- A policy is kept by a request for a model.
abbrev pub kept : Storage → ℕ → Principal → String → QuotaConfig → Bool
kept s now p model q = model_kept model q && requests_kept s now p q && tokens_kept s now p q

ltb-leb : (a b : ℕ) → ltb a b ≡ not (leb b a)
ltb-leb a b = ground arith

abbrev Denies : Bool → Option QuotaDecision → Type 0
Denies good none = good ≡ true
Denies good (some d) = (good ≡ false) × (d.allowed ≡ false)

check_models-Denies :
    (p : Principal) (model : String) (qs : List QuotaConfig)
    → Denies (all (model_kept model) qs) (check_models p model qs)
unfolding check_models
check_models-Denies p model [] = refl
check_models-Denies p model (q ∷ qs) = elim (Bool-cases (model_denied model q)) [
  | inl e ↦ rw e (refl, refl)
  | inr e ↦ rw e (check_models-Denies p model qs)
]

-- what a loop has found; a query that failed says nothing
abbrev DeniesResult : Bool → QuotaResult (Option QuotaDecision) → Type 0
DeniesResult good (ok o) = Denies good o
DeniesResult good storage_error = Unit

module _ (s : Storage) (now : ℕ) (fails : Query → Bool) (p : Principal) where
  check_requests-Denies :
      (qs : List QuotaConfig)
      → DeniesResult (all (requests_kept s now p) qs) (check_requests s now fails p qs)
  unfolding check_requests
  check_requests-Denies [] = refl
  check_requests-Denies (q ∷ qs) =
      let n = allowed_quota_decision_count s p (quota_is_subject_scoped q p) (now - minute) now in
      elim (Bool-cases (ltb 0 q.requests_per_minute)) [
        | inl e ↦ elim (Bool-cases (fails (counts q))) [
          | inl x ↦ rw (e, x) tt
          | inr x ↦ elim (Bool-cases (leb q.requests_per_minute n)) [
            | inl f ↦ rw (e, x, f, ltb-leb n q.requests_per_minute) (rw f (refl, refl))
            | inr f ↦
                rw (e, x, f, ltb-leb n q.requests_per_minute) (rw f (check_requests-Denies qs))
          ]
        ]
        | inr e ↦ rw e (check_requests-Denies qs)
      ]

  check_tokens-Denies :
      (qs : List QuotaConfig)
      → DeniesResult (all (tokens_kept s now p) qs) (check_tokens s now fails p qs)
  unfolding check_tokens
  check_tokens-Denies [] = refl
  check_tokens-Denies (q ∷ qs) =
      let n = usage_tokens_total s p (quota_is_subject_scoped q p) (day_start now) now in
      elim (Bool-cases (ltb 0 q.tokens_per_day)) [
        | inl e ↦ elim (Bool-cases (fails (sums q))) [
          | inl x ↦ rw (e, x) tt
          | inr x ↦ elim (Bool-cases (leb q.tokens_per_day n)) [
            | inl f ↦ rw (e, x, f, ltb-leb n q.tokens_per_day) (rw f (refl, refl))
            | inr f ↦ rw (e, x, f, ltb-leb n q.tokens_per_day) (rw f (check_tokens-Denies qs))
          ]
        ]
        | inr e ↦ rw e (check_tokens-Denies qs)
      ]

abbrev pub Allows : Bool → QuotaResult QuotaDecision → Type 0
Allows good (ok d) = d.allowed ≡ good
Allows good storage_error = Unit

Allows-allow_or :
    (good rest : Bool) (r : QuotaResult (Option QuotaDecision)) (next : QuotaResult QuotaDecision)
    → DeniesResult good r
    → Allows rest next
    → Allows (good && rest) (allow_or r next)
Allows-allow_or good rest (ok none) next h n = rw h n
Allows-allow_or good rest (ok (some d)) next h n = rw h.0 h.1
Allows-allow_or good rest storage_error next h n = tt

shuffle :
    (a b c x y z : Bool)
    → ((a && b && c) && (x && (y && (z && true)))) ≡ ((a && x) && ((b && y) && ((c && z) && true)))
shuffle a b c x y z = ground arith

all-kept :
    (s : Storage) (now : ℕ) (p : Principal) (model : String) (qs : List QuotaConfig)
    → all (kept s now p model) qs ≡ (
        all (model_kept model) qs
        && (all (requests_kept s now p) qs && (all (tokens_kept s now p) qs && true)))
all-kept s now p model [] = refl
all-kept s now p model (q ∷ qs) = rw (all-kept s now p model qs) (
    shuffle (model_kept model q) (requests_kept s now p q) (tokens_kept s now p q)
      (all (model_kept model) qs) (all (requests_kept s now p) qs) (all (tokens_kept s now p) qs))

check_matching-Allows :
    (s : Storage) (now : ℕ) (fails : Query → Bool) (p : Principal) (model : String)
    (qs : List QuotaConfig)
    → Allows (all (kept s now p model) qs) (check_matching s now fails p model qs)
unfolding check_matching
check_matching-Allows s now fails p model [] = refl
check_matching-Allows s now fails p model (q ∷ qs) = rw (all-kept s now p model (q ∷ qs)) (
    Allows-allow_or (all (model_kept model) (q ∷ qs)) _ (ok (check_models p model (q ∷ qs))) _
      (check_models-Denies p model (q ∷ qs))
      (Allows-allow_or (all (requests_kept s now p) (q ∷ qs)) _
        (check_requests s now fails p (q ∷ qs)) _ (check_requests-Denies s now fails p (q ∷ qs))
        (Allows-allow_or (all (tokens_kept s now p) (q ∷ qs)) true
          (check_tokens s now fails p (q ∷ qs)) _ (check_tokens-Denies s now fails p (q ∷ qs))
          refl)))

-- Whichever queries fail, a decision that the check returns allows the request exactly when every
-- policy that matches the principal is kept: the model is allowed by it (an empty list allows all),
-- and in its scope the requests of the last minute and the tokens since midnight are below its
-- limits (a limit of zero is none).
pub check_quota-Allows :
    (s : Storage) (quotas : List QuotaConfig) (p : Principal) (model : String) (now : ℕ)
    (fails : Query → Bool)
    → Allows
        (all (kept s now p model) (matching_quota_policies quotas p))
        (check_quota s quotas p model now fails)
unfolding check_quota
check_quota-Allows s quotas p model now fails =
    check_matching-Allows s now fails p model (matching_quota_policies quotas p)

abbrev pub is_ok : {A : Type 0} → QuotaResult A → Bool
is_ok (ok a) = true
is_ok storage_error = false

module _ (s : Storage) (now : ℕ) (fails : Query → Bool) (p : Principal)
    (none_fails : (q : Query) → fails q ≡ false) where
  check_requests-is_ok : (qs : List QuotaConfig) → is_ok (check_requests s now fails p qs) ≡ true
  unfolding check_requests
  check_requests-is_ok [] = refl
  check_requests-is_ok (q ∷ qs) =
      rw (none_fails (counts q)) (ground (arith, check_requests-is_ok qs))

  check_tokens-is_ok : (qs : List QuotaConfig) → is_ok (check_tokens s now fails p qs) ≡ true
  unfolding check_tokens
  check_tokens-is_ok [] = refl
  check_tokens-is_ok (q ∷ qs) = rw (none_fails (sums q)) (ground (arith, check_tokens-is_ok qs))

  allow_or-is_ok :
      (r : QuotaResult (Option QuotaDecision)) (next : QuotaResult QuotaDecision)
      → is_ok r ≡ true
      → is_ok next ≡ true
      → is_ok (allow_or r next) ≡ true
  allow_or-is_ok (ok none) next h n = n
  allow_or-is_ok (ok (some d)) next h n = refl
  allow_or-is_ok storage_error next h n = h

  check_matching-is_ok :
      (model : String) (qs : List QuotaConfig)
      → is_ok (check_matching s now fails p model qs) ≡ true
  unfolding check_matching
  check_matching-is_ok model [] = refl
  check_matching-is_ok model (q ∷ qs) = allow_or-is_ok (ok (check_models p model (q ∷ qs))) _ refl (
      allow_or-is_ok (check_requests s now fails p (q ∷ qs)) _ (check_requests-is_ok (q ∷ qs))
        (allow_or-is_ok (check_tokens s now fails p (q ∷ qs)) _ (check_tokens-is_ok (q ∷ qs)) refl))

  -- Where no query fails, the check returns a decision.
  pub check_quota-is_ok :
      (quotas : List QuotaConfig) (model : String)
      → is_ok (check_quota s quotas p model now fails) ≡ true
  unfolding check_quota
  check_quota-is_ok quotas model = check_matching-is_ok model (matching_quota_policies quotas p)
