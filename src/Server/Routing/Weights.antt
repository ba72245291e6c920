-- ===== src/Server/Routing/Weights.antt =====
-- How often the weighted choice takes each model.
use rs_llmctl.Base.{
  ℕ, zero, suc, ◌+◌, ◌-◌, ◌*◌, ◌%◌, ◌≤◌, ◌<◌, ◌≡◌, refl, ◌∙◌, ap, inl, inr, Bool, true, false, ◌&&◌,
  Option, none, some, List, [], ◌∷◌, if◌then◌else◌, ltb, ◌==◌, arith, saturating_add, u64_max,
  Bool-cases,
}
use native.Mathlib.Nat.{mul-add-mod_self_right, mod-eq_of_lt, mod-lt}
use mathlib.Core.List.{Memᴰ}
use rs_llmctl.Base.Members.{Mem-filter}
use rs_llmctl.Config.{ModelConfig, Config}
use rs_llmctl.Server.Routing.{
  weigh, at_slot, weighted_models, weighted_model_for_request, model_is_routed_locally,
}

-- the sum of the weights of the models that a test takes
abbrev pub weight_where : (ModelConfig → Bool) → List ModelConfig → ℕ
weight_where p [] = 0
weight_where p (m ∷ ms) = (if p m then m.weight else 0) + weight_where p ms

abbrev pub total_weight : List ModelConfig → ℕ
total_weight ms = weight_where (λ m. true) ms

-- how many of the `n` numbers from `start` on pass a test
abbrev pub tally : (ℕ → Bool) → ℕ → ℕ → ℕ
tally f start zero = 0
tally f start (suc n) = (if f start then 1 else 0) + tally f (suc start) n

abbrev pub picks : (ModelConfig → Bool) → Option ModelConfig → Bool
picks p none = false
picks p (some m) = p m

tally-shift :
    (f g : ℕ → Bool) (s t n : ℕ)
    → ((i j : ℕ) → s ≤ i → i < s + n → i + t ≡ j + s → f i ≡ g j)
    → tally f s n ≡ tally g t n
tally-shift f g s t zero h = refl
tally-shift f g s t (suc n) h =
    let e = h s t (omega arith) (omega arith) (omega arith) in
    let rest =
      tally-shift f g (suc s) (suc t) n
        (λ i j low high same. h i j (omega arith) (omega arith) (omega arith)) in
    rw e (omega (arith, rest))

tally-add : (f : ℕ → Bool) (s a b : ℕ) → tally f s (a + b) ≡ tally f s a + tally f (s + a) b
tally-add f s zero b =
    let e : zero + b ≡ b = omega arith in
    let e' : s + zero ≡ s = omega arith in rw e (rw e' (omega arith))
tally-add f s (suc a) b =
    let e : suc a + b ≡ suc (a + b) = omega arith in
    let e' : s + suc a ≡ suc s + a = omega arith in
    let ih = tally-add f (suc s) a b in rw e (rw e' (omega (arith, ih)))

tally-const : (c : Bool) (s n : ℕ) → tally (λ i. c) s n ≡ (if c then n else 0)
tally-const true s zero = refl
tally-const false s zero = refl
tally-const true s (suc n) = omega (arith, tally-const true (suc s) n)
tally-const false s (suc n) = omega (arith, tally-const false (suc s) n)

pub weigh-total :
    (ms : List ModelConfig) (n : ℕ)
    → n + total_weight ms ≤ u64_max
    → weigh ms n ≡ n + total_weight ms
weigh-total [] n h = omega arith
weigh-total (m ∷ ms) n h =
    let e : saturating_add u64_max n m.weight ≡ n + m.weight = omega arith in
    rw e (weigh-total ms (n + m.weight) (omega arith) ∙ omega arith)

at_slot-first :
    (m : ModelConfig) (ms : List ModelConfig) (i : ℕ) → i < m.weight → at_slot (m ∷ ms) i ≡ some m
at_slot-first m ms i h = ground arith

at_slot-later :
    (m : ModelConfig) (ms : List ModelConfig) (i j : ℕ)
    → i ≡ m.weight + j
    → at_slot (m ∷ ms) i ≡ at_slot ms j
at_slot-later m ms i j h =
    let e : i - m.weight ≡ j = omega arith in
    let e' : ltb i m.weight ≡ false = ground arith in rw e' (rw e refl)

-- Of the slots below the total weight, a test on the models takes as many as the weights of the
-- models that pass it.
pub tally-at_slot :
    (p : ModelConfig → Bool) (ms : List ModelConfig)
    → tally (λ i. picks p (at_slot ms i)) 0 (total_weight ms) ≡ weight_where p ms
tally-at_slot p [] = refl
tally-at_slot p (m ∷ ms) =
    let f = λ (i : ℕ). picks p (at_slot (m ∷ ms) i) in
    let own =
      tally-shift f (λ i. p m) 0 0 m.weight
        (λ i j low high same. ap (picks p) (at_slot-first m ms i (omega arith)))
      ∙ tally-const (p m) 0 m.weight in
    let rest =
      tally-shift f (λ i. picks p (at_slot ms i)) (0 + m.weight) 0 (total_weight ms)
        (λ i j low high same. ap (picks p) (at_slot-later m ms i j (omega arith)))
      ∙ tally-at_slot p ms in
    tally-add f 0 m.weight (total_weight ms) ∙ omega (arith, own, rest)

weight_where-le :
    (p : ModelConfig → Bool) (ms : List ModelConfig) → weight_where p ms ≤ total_weight ms
weight_where-le p [] = omega arith
weight_where-le p (m ∷ ms) = ground (arith, weight_where-le p ms)

weighted_at :
    (cfg : Config) (q i id : ℕ)
    → total_weight (weighted_models cfg) ≤ u64_max
    → i < total_weight (weighted_models cfg)
    → id ≡ q * total_weight (weighted_models cfg) + i
    → weighted_model_for_request cfg id ≡ at_slot (weighted_models cfg) i
unfolding weighted_model_for_request
weighted_at cfg q i id bound low same =
    let ms = weighted_models cfg in
    let total : weigh ms 0 ≡ total_weight ms = weigh-total ms 0 (omega arith) ∙ omega arith in
    let nonzero : (total_weight ms == 0) ≡ false = ground arith in
    let slot : id % total_weight ms ≡ i =
      ap (λ n. n % total_weight ms) same
      ∙ mul-add-mod_self_right q (total_weight ms) i
      ∙ mod-eq_of_lt low in
    rw total (rw nonzero (rw slot refl))

-- Where the weights of the models of positive weight that the local node has do not sum past
-- 2^64 - 1: in every run of as many request numbers as that sum, from a multiple of it on, a test
-- on the models is passed by the chosen model as often as the weights of those models that pass it
-- sum to. So each model serves its weight's share.
pub weighted_model_for_request-Share :
    (cfg : Config) (p : ModelConfig → Bool) (q : ℕ)
    → total_weight (weighted_models cfg) ≤ u64_max
    → tally
        (λ id. picks p (weighted_model_for_request cfg id))
        (q * total_weight (weighted_models cfg))
        (total_weight (weighted_models cfg))
      ≡ weight_where p (weighted_models cfg)
weighted_model_for_request-Share cfg p q bound =
    let ms = weighted_models cfg in
    tally-shift (λ id. picks p (weighted_model_for_request cfg id)) (λ i. picks p (at_slot ms i))
      (q * total_weight ms) 0 (total_weight ms)
      (λ id i low high same.
        ap (picks p) (weighted_at cfg q i id bound (omega arith) (omega arith)))
    ∙ tally-at_slot p ms

weigh-bounds :
    (ms : List ModelConfig) (n : ℕ)
    → n ≤ u64_max
    → (weigh ms n ≤ n + total_weight ms) × (n ≤ weigh ms n)
weigh-bounds [] n h = (omega arith, omega arith)
weigh-bounds (m ∷ ms) n h =
    let ih = weigh-bounds ms (saturating_add u64_max n m.weight) (omega arith) in
    (let a = ih.0 in omega arith, let b = ih.1 in omega arith)

at_slot-some :
    (ms : List ModelConfig) (i : ℕ)
    → i < total_weight ms
    → (m : ModelConfig) × (at_slot ms i ≡ some m) × Memᴰ m ms
at_slot-some [] i h = absurd (omega arith)
at_slot-some (m ∷ ms) i h = elim (Bool-cases (ltb i m.weight)) [
  | inl e ↦ (m, rw e refl, Memᴰ.head refl)
  | inr e ↦
      let (found, at, within) = at_slot-some ms (i - m.weight) (ground arith) in
      (found, rw e at, Memᴰ.tail within)
]

-- What a choice must be.
abbrev pub Chosen : Config → Option ModelConfig → Type 0
Chosen cfg none = weighted_models cfg ≡ []
Chosen cfg (some m) = Memᴰ m cfg.models × (0 < m.weight) × (model_is_routed_locally cfg m ≡ true)

pub weighted_models-Mem :
    (cfg : Config) (m : ModelConfig) → Memᴰ m (weighted_models cfg) → Chosen cfg (some m)
unfolding weighted_models
weighted_models-Mem cfg m h =
    let r = Mem-filter (λ k. ltb 0 k.weight && model_is_routed_locally cfg k) m cfg.models h in
    let passed = r.1 in (r.0, ground arith, ground arith)

no_weight :
    (ms : List ModelConfig)
    → ((m : ModelConfig) → Memᴰ m ms → 0 < m.weight)
    → weigh ms 0 ≡ 0
    → ms ≡ []
no_weight [] positive h = refl
no_weight (m ∷ ms) positive h =
    let w = positive m (Memᴰ.head refl) in
    let bounds = weigh-bounds ms (saturating_add u64_max 0 m.weight) (omega arith) in
    absurd (let b = bounds.1 in omega arith)

-- For every request number, also where the sum of the weights saturates: the chosen model stands
-- in the configuration, has a positive weight and is one that the local node has; no model is
-- chosen only where there is no such model.
pub weighted_model_for_request-Chosen :
    (cfg : Config) (request_id : ℕ) → Chosen cfg (weighted_model_for_request cfg request_id)
unfolding weighted_model_for_request
weighted_model_for_request-Chosen cfg request_id =
    let ms = weighted_models cfg in
    elim (Bool-cases (weigh ms 0 == 0)) [
      | inl e ↦
          rw (e, weighted_model_for_request)
            (no_weight ms (λ m within. (weighted_models-Mem cfg m within).1) (ground arith))
      | inr e ↦
          let bounds = weigh-bounds ms 0 (omega arith) in
          let positive : 0 < weigh ms 0 = ground arith in
          let below = mod-lt request_id positive in
          let (m, at, within) =
            at_slot-some ms (request_id % weigh ms 0) (let b = bounds.0 in omega arith) in
          rw (e, weighted_model_for_request) (rw at (weighted_models-Mem cfg m within))
    ]
