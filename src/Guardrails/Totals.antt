-- ===== src/Guardrails/Totals.antt =====
-- src/guardrails.rs: the counts of the findings.
use rs_llmctl.Base.{
  ℕ, ◌+◌, String, true, ◌&&◌, List, [], ◌∷◌, ◌≡◌, refl, ◌∙◌, if◌then◌else◌, str_eq, eq_iff, arith,
}
use rs_llmctl.Guardrails.{
  Matcher, PiiPattern, PiiHit, GuardrailsConfig, Gathered, category_selected, pii_patterns,
  is_active, add_hit, add_hits, scan_pii, scan, gather, gather_all, conclude, evaluate,
  nothing_gathered,
}
use rs_llmctl.Guardrails.Verdict.{evaluate-active}

-- the count of a category: that of its first hit
abbrev pub count_of : String → List PiiHit → ℕ
count_of category [] = 0
count_of category (h ∷ hits) =
    if str_eq h.category category then h.count else count_of category hits

-- the count of a category over all of its hits
abbrev sum_of : String → List PiiHit → ℕ
sum_of category [] = 0
sum_of category (h ∷ hits) =
    (if str_eq h.category category then h.count else 0) + sum_of category hits

count_of-add_hit :
    (category : String) (h : PiiHit) (t : List PiiHit)
    → count_of category (add_hit h t)
      ≡ count_of category t + (if str_eq h.category category then h.count else 0)
count_of-add_hit category h [] = ground arith
count_of-add_hit category h (x ∷ xs) = ground (
  arith,
  count_of-add_hit category h xs,
  eq_iff x.category h.category,
  eq_iff x.category category,
  eq_iff h.category category,
)

count_of-add_hits :
    (category : String) (hs t : List PiiHit)
    → count_of category (add_hits hs t) ≡ count_of category t + sum_of category hs
count_of-add_hits category [] t = omega arith
count_of-add_hits category (h ∷ hs) t =
    omega (arith, count_of-add_hits category hs (add_hit h t), count_of-add_hit category h t)

module _ (m : Matcher) where
  -- the matches of a category's patterns in a text, if the category is selected
  abbrev pub matches : String → List String → List PiiPattern → String → ℕ
  matches category selected [] text = 0
  matches category selected ((c, pattern) ∷ patterns) text =
      (if str_eq c category && category_selected c selected then m.find_count pattern text else 0)
      + matches category selected patterns text

  -- the same over the messages
  abbrev pub all_matches : String → List String → List (ℕ × String) → ℕ
  all_matches category selected [] = 0
  all_matches category selected ((index, text) ∷ messages) =
      matches category selected pii_patterns text + all_matches category selected messages

  sum_of-scan_pii :
      (category : String) (selected : List String) (patterns : List PiiPattern) (text : String)
      → sum_of category (scan_pii m patterns text selected)
        ≡ matches category selected patterns text
  unfolding scan_pii
  sum_of-scan_pii category selected [] text = refl
  sum_of-scan_pii category selected ((c, pattern) ∷ patterns) text =
      ground (arith, sum_of-scan_pii category selected patterns text)

  gather_all-count :
      (cfg : GuardrailsConfig) (category : String) (messages : List (ℕ × String)) (g : Gathered)
      → is_active cfg.pii.action ≡ true
      → count_of category (gather_all m cfg messages g).pii
        ≡ count_of category g.pii + all_matches category cfg.pii.categories messages
  unfolding gather_all gather scan
  gather_all-count cfg category [] g a = omega arith
  gather_all-count cfg category ((index, text) ∷ messages) g a =
      let hits = scan_pii m pii_patterns text cfg.pii.categories in
      gather_all-count cfg category messages (gather m cfg (index, text) g) a
      ∙ rw a (
          omega (
            arith,
            count_of-add_hits category hits g.pii,
            sum_of-scan_pii category cfg.pii.categories pii_patterns text,
          ))

  -- Where the guardrail for personal data is active, the count of a category in the findings is the
  -- number of matches of its pattern in all messages, and zero for a category that is not selected.
  pub evaluate-count :
      (cfg : GuardrailsConfig) (category : String) (messages : List (ℕ × String))
      → (is_active cfg.pii.action ≡ true)
      → count_of category (evaluate m messages cfg).findings.pii
        ≡ all_matches category cfg.pii.categories messages
  unfolding conclude
  evaluate-count cfg category messages a =
      rw (evaluate-active m cfg messages (ground arith))
        (gather_all-count cfg category messages nothing_gathered a ∙ omega arith)
