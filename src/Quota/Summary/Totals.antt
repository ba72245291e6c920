-- ===== src/Quota/Summary/Totals.antt =====
-- src/quota.rs: what the report says of each team.
use rs_llmctl.Base.{
  ℕ, ◌+◌, min, String, Bool, true, false, Option, none, some, List, [], ◌∷◌, ◌≡◌, refl, ap, ◌∙◌,
  ◌≤◌, length, map, arith, u64_max, saturating_add, find, filter, str_eq, if◌then◌else◌, eq_iff,
}
use rs_llmctl.Base.Map.{Map, get, insert}
use rs_llmctl.Base.Map.Laws.{get-insert}
use rs_llmctl.Quota.{QuotaConfig}
use rs_llmctl.Quota.Summary.{
  QuotaPolicyAccumulator, QuotaTeamPolicySummary, default_accumulator, or_default, add_quota,
  add_to_team, team_accumulators, team_summary, total, summarize_quota_policies,
}

abbrev pub of_team : String → QuotaConfig → Bool
of_team team q = str_eq q.team team

-- What a team's policies add up to, one after another.
abbrev pub add_all :
    List QuotaConfig → Option QuotaPolicyAccumulator → Option QuotaPolicyAccumulator
add_all [] o = o
add_all (q ∷ quotas) o = add_all quotas (some (add_to_team q (or_default o)))

abbrev pub sum_of : (QuotaConfig → ℕ) → List QuotaConfig → ℕ
sum_of f [] = 0
sum_of f (q ∷ quotas) = f q + sum_of f quotas

add_all-step :
    (b : Bool) (q : QuotaConfig) (rest : List QuotaConfig) (o p : Option QuotaPolicyAccumulator)
    → (b ≡ true → p ≡ o)
    → add_all rest (if b then some (add_to_team q (or_default p)) else o)
      ≡ add_all (if b then q ∷ rest else rest) o
add_all-step true q rest o p h =
    ap (λ x. add_all rest (some (add_to_team q (or_default x)))) (h refl)
add_all-step false q rest o p h = refl

-- The entry of a team is what its own policies add up to, in their order.
get-team_accumulators :
    (team : String) (quotas : List QuotaConfig) (teams : Map QuotaPolicyAccumulator)
    → get team (team_accumulators quotas teams)
      ≡ add_all (filter (of_team team) quotas) (get team teams)
get-team_accumulators team [] teams = refl
get-team_accumulators team (q ∷ quotas) teams =
    get-team_accumulators team quotas
      (insert q.team (add_to_team q (or_default (get q.team teams))) teams)
    ∙ ap (add_all (filter (of_team team) quotas)) (get-insert q.team team _ teams)
    ∙ add_all-step (str_eq q.team team) q (filter (of_team team) quotas) (get team teams)
        (get q.team teams) (λ e. ap (λ t. get t teams) ((eq_iff q.team team).0 e))

total-sum :
    (f : QuotaConfig → ℕ) (quotas : List QuotaConfig) (sum : ℕ)
    → sum ≤ u64_max
    → total f sum quotas ≡ min u64_max (sum + sum_of f quotas)
total-sum f [] sum h = omega arith
total-sum f (q ∷ quotas) sum h =
    let bounded : saturating_add u64_max sum (f q) ≤ u64_max = omega arith in
    total-sum f quotas (saturating_add u64_max sum (f q)) bounded ∙ omega arith

-- The number of policies, and the sums of their requests, tokens and concurrency.
abbrev pub Totals : Type 0
Totals = ℕ × ℕ × ℕ × ℕ

abbrev pub capped : (QuotaConfig → ℕ) → List QuotaConfig → ℕ
capped f quotas = min u64_max (sum_of f quotas)

abbrev pub totals_of : List QuotaConfig → Totals
totals_of own = (
  length own,
  capped (λ q. q.requests_per_minute) own,
  capped (λ q. q.tokens_per_day) own,
  capped (λ q. q.max_concurrency) own,
)

abbrev counted : ℕ → ℕ → ℕ → ℕ → Option Totals
counted n r t c = some (n, r, t, c)

Totals-eq :
    {n n' r r' t t' c c' : ℕ}
    → n ≡ n'
    → r ≡ r'
    → t ≡ t'
    → c ≡ c'
    → counted n r t c ≡ counted n' r' t' c'
Totals-eq {n' = n'} {r = r} {r' = r'} {t = t} {t' = t'} {c = c} e f g h =
    ap (λ x. counted x r t c) e
    ∙ ap (λ x. counted n' x t c) f
    ∙ ap (λ x. counted n' r' x c) g
    ∙ ap (λ x. counted n' r' t' x) h

capped-total :
    (f : QuotaConfig → ℕ) (quotas : List QuotaConfig) → total f 0 quotas ≡ capped f quotas
capped-total f quotas = total-sum f quotas 0 (omega arith) ∙ omega arith

abbrev pub expected : List QuotaConfig → Option Totals
expected [] = none
expected (q ∷ own) = some (totals_of (q ∷ own))

abbrev pub accumulated : Option QuotaPolicyAccumulator → Option Totals
accumulated none = none
accumulated (some a) =
    some
      (a.policy_count, a.total_requests_per_minute, a.total_tokens_per_day, a.total_max_concurrency)

abbrev pub reported : Option QuotaTeamPolicySummary → Option Totals
reported none = none
reported (some t) =
    some
      (t.policy_count, t.total_requests_per_minute, t.total_tokens_per_day, t.total_max_concurrency)

-- A team's summary is found where the map holds its accumulator.
reported-find :
    (team : String) (m : Map QuotaPolicyAccumulator)
    → reported (find (λ s. str_eq s.team team) (map team_summary m)) ≡ accumulated (get team m)
unfolding get
reported-find team [] = refl
reported-find team ((k, a) ∷ m) = ground (arith, reported-find team m)

accumulated-add_all :
    (own : List QuotaConfig) (a : QuotaPolicyAccumulator)
    → accumulated (add_all own (some a))
      ≡ some (
        a.policy_count + length own,
        total (λ q. q.requests_per_minute) a.total_requests_per_minute own,
        total (λ q. q.tokens_per_day) a.total_tokens_per_day own,
        total (λ q. q.max_concurrency) a.total_max_concurrency own,
      )
unfolding add_to_team add_quota
accumulated-add_all [] a = Totals-eq (omega arith) refl refl refl
accumulated-add_all (q ∷ own) a =
    accumulated-add_all own (add_to_team q a) ∙ Totals-eq (omega arith) refl refl refl

accumulated-expected : (own : List QuotaConfig) → accumulated (add_all own none) ≡ expected own
unfolding add_to_team add_quota
accumulated-expected [] = refl
accumulated-expected (q ∷ own) =
    accumulated-add_all own (add_to_team q default_accumulator)
    ∙ Totals-eq (omega arith) (capped-total _ (q ∷ own)) (capped-total _ (q ∷ own))
        (capped-total _ (q ∷ own))

-- The report has an entry for a team exactly when a policy names the team. The entry has the number
-- of the policies that name it, and the sums of their limits, each cut off at the largest 64-bit number.
pub summarize_quota_policies-Totals :
    (quotas : List QuotaConfig) (team : String)
    → reported (find (λ s. str_eq s.team team) (summarize_quota_policies quotas).by_team)
      ≡ expected (filter (of_team team) quotas)
unfolding summarize_quota_policies get
summarize_quota_policies-Totals quotas team =
    reported-find team (team_accumulators quotas [])
    ∙ ap accumulated (get-team_accumulators team quotas [])
    ∙ accumulated-expected (filter (of_team team) quotas)
