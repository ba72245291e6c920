-- ===== src/Server/Scopes/Tightest.antt =====
-- src/server/chat.rs: the limit of each scope.
use rs_llmctl.Base.{
  ℕ, min, String, Bool, true, false, not, ◌&&◌, Option, none, some, ◌≡◌, refl, sym, ap, ◌∙◌, inl,
  inr, List, [], ◌∷◌, if◌then◌else◌, str_eq, ◌==◌, eq_iff, arith, Bool-cases, filter,
}
use rs_llmctl.Base.Map.{Map, get, insert}
use rs_llmctl.Base.Map.Laws.{get-insert}
use rs_llmctl.Quota.{QuotaConfig, matching_quota_policies, matches_principal}
use rs_llmctl.Quota.Rows.{Principal}
use rs_llmctl.Server.Scopes.{scope_of, tightened, add_scopes, quota_admission_scopes}

-- the smaller of two limits, where there are any
abbrev pub min_opt : Option ℕ → Option ℕ → Option ℕ
min_opt none other = other
min_opt (some a) none = some a
min_opt (some a) (some b) = some (min a b)

-- a positive limit for the scope that is looked for
abbrev pub wanted : Bool → String → ℕ → String → Option ℕ
wanted false s n scope = none
wanted true s n scope = if str_eq s scope && not (n == 0) then some n else none

-- what one policy asks of a scope
abbrev pub asked : Principal → String → QuotaConfig → Option ℕ
asked p scope q = wanted (matches_principal p q) (scope_of p q) q.max_concurrency scope

-- the smallest limit that a policy asks for
abbrev pub tightest : Principal → String → List QuotaConfig → Option ℕ
tightest p scope [] = none
tightest p scope (q ∷ qs) = min_opt (asked p scope q) (tightest p scope qs)

min_opt_assoc : (a b c : Option ℕ) → min_opt (min_opt a b) c ≡ min_opt a (min_opt b c)
min_opt_assoc none b c = refl
min_opt_assoc (some a) none c = refl
min_opt_assoc (some a) (some b) none = refl
min_opt_assoc (some a) (some b) (some c) = ap some (omega arith)

min_opt-none : (a : Option ℕ) → min_opt a none ≡ a
min_opt-none none = refl
min_opt-none (some a) = refl

tightened-min_opt : (n : ℕ) (o : Option ℕ) → some (tightened n o) ≡ min_opt o (some n)
tightened-min_opt n none = refl
tightened-min_opt n (some m) = refl

get-added :
    (s scope : String) (n : ℕ) (scopes : Map ℕ)
    → get scope (if n == 0 then scopes else insert s (tightened n (get s scopes)) scopes)
      ≡ min_opt (get scope scopes) (wanted true s n scope)
get-added s scope n scopes = elim (Bool-cases (n == 0)) [
  | inl zero_limit ↦ elim (Bool-cases (str_eq s scope)) [
    | inl same ↦ rw (zero_limit, same) (sym (min_opt-none (get scope scopes)))
    | inr other ↦ rw (zero_limit, other) (sym (min_opt-none (get scope scopes)))
  ]
  | inr limited ↦ elim (Bool-cases (str_eq s scope)) [
    | inl same ↦
        rw (limited, same)
          (get-insert s scope (tightened n (get s scopes)) scopes
            ∙ rw same (
                tightened-min_opt n (get s scopes)
                ∙ ap (λ k. min_opt (get k scopes) (some n)) ((eq_iff s scope).0 same)))
    | inr other ↦
        rw (limited, other)
          (get-insert s scope (tightened n (get s scopes)) scopes
            ∙ rw other (sym (min_opt-none (get scope scopes))))
  ]
]

module _ (p : Principal) (q : QuotaConfig) (qs : List QuotaConfig) where
  filter-true :
      matches_principal p q ≡ true
      → filter (matches_principal p) (q ∷ qs) ≡ q ∷ filter (matches_principal p) qs
  filter-true m = rw m

  filter-false :
      matches_principal p q ≡ false
      → filter (matches_principal p) (q ∷ qs) ≡ filter (matches_principal p) qs
  filter-false m = rw m

get-add_scopes :
    (p : Principal) (scope : String) (qs : List QuotaConfig) (scopes : Map ℕ)
    → get scope (add_scopes p (filter (matches_principal p) qs) scopes)
      ≡ min_opt (get scope scopes) (tightest p scope qs)
unfolding add_scopes
get-add_scopes p scope [] scopes = sym (min_opt-none (get scope scopes))
get-add_scopes p scope (q ∷ qs) scopes = elim (Bool-cases (matches_principal p q)) [
  | inl m ↦
      ap (λ l. get scope (add_scopes p l scopes)) (filter-true p q qs m)
      ∙ get-add_scopes p scope qs _
      ∙ ap (λ o. min_opt o (tightest p scope qs))
          (get-added (scope_of p q) scope q.max_concurrency scopes)
      ∙ min_opt_assoc (get scope scopes) _ (tightest p scope qs)
      ∙ ap
          (λ b.
            min_opt (get scope scopes)
              (min_opt (wanted b (scope_of p q) q.max_concurrency scope) (tightest p scope qs)))
          (sym m)
  | inr m ↦
      ap (λ l. get scope (add_scopes p l scopes)) (filter-false p q qs m)
      ∙ get-add_scopes p scope qs scopes
      ∙ ap
          (λ b.
            min_opt (get scope scopes)
              (min_opt (wanted b (scope_of p q) q.max_concurrency scope) (tightest p scope qs)))
          (sym m)
]

-- The limit of a scope is the smallest positive `max_concurrency` among the policies that match the
-- principal and stand for that scope, and a scope that no such policy stands for is not asked for.
pub quota_admission_scopes-tightest :
    (quotas : List QuotaConfig) (p : Principal) (scope : String)
    → get scope (quota_admission_scopes quotas p) ≡ tightest p scope quotas
unfolding quota_admission_scopes matching_quota_policies get
quota_admission_scopes-tightest quotas p scope = get-add_scopes p scope quotas []
