-- ===== src/Guardrails/Verdict.antt =====
-- src/guardrails.rs: which requests are blocked and which messages are redacted.
use mathlib.Core.List.{append_assoc, append-nil}
use rs_llmctl.Base.{
  ℕ, String, Bool, true, false, not, ◌&&◌, ◌||◌, List, [], ◌∷◌, ◌++◌, ◌≡◌, refl, sym, ap, ap₂, ◌∙◌,
  inl, inr, any, contains, filter, map, is_empty, if◌then◌else◌, ltb, arith, Bool-cases,
}
use rs_llmctl.Guardrails.{
  GuardrailAction, Matcher, PiiPattern, PiiHit, GuardrailsConfig, Gathered, category_selected,
  pii_patterns, is_active, is_redact, is_block, guardrails_active, default_jailbreak_phrases,
  add_hit, add_hits, add_phrases, scan_pii, scan_phrases, phrase_found, scan, redact_pii, gather,
  gather_all, conclude, evaluate, is_blocked, has_findings, nothing_gathered, no_verdict, reason_if,
}

add_hit-is_empty : (h : PiiHit) (t : List PiiHit) → is_empty (add_hit h t) ≡ false
add_hit-is_empty h [] = refl
add_hit-is_empty h (x ∷ xs) = ground arith

add_hits-is_empty : (hs t : List PiiHit) → is_empty (add_hits hs t) ≡ is_empty hs && is_empty t
add_hits-is_empty [] t = refl
add_hits-is_empty (h ∷ hs) t =
    add_hits-is_empty hs (add_hit h t) ∙ ground (arith, add_hit-is_empty h t)

add_phrases-is_empty :
    (ps t : List String) → is_empty (add_phrases ps t) ≡ is_empty ps && is_empty t
add_phrases-is_empty [] t = refl
add_phrases-is_empty (p ∷ ps) t =
    add_phrases-is_empty ps (if contains p t then t else t ++ p ∷ []) ∙ grown t
  where
    grown :
        (u : List String)
        → is_empty ps && is_empty (if contains p u then u else u ++ p ∷ []) ≡ false
    grown [] = ground arith
    grown (x ∷ xs) = ground arith

-- Where matches are redacted, a message is redacted exactly when a match was found.
found_redacts :
    (action : GuardrailAction) (none_found found : Bool)
    → none_found ≡ not (is_active action && found)
    → not none_found && is_redact action ≡ is_redact action && found
found_redacts GuardrailAction.off a b h = ground arith
found_redacts GuardrailAction.flag a b h = ground arith
found_redacts GuardrailAction.redact a b h = ground arith
found_redacts GuardrailAction.block a b h = ground arith

found_blocks :
    (action : GuardrailAction) (none_found found : Bool)
    → none_found ≡ not (is_active action && found)
    → not none_found && is_block action ≡ is_block action && found
found_blocks GuardrailAction.off a b h = ground arith
found_blocks GuardrailAction.flag a b h = ground arith
found_blocks GuardrailAction.redact a b h = ground arith
found_blocks GuardrailAction.block a b h = ground arith

module _ (a b : GuardrailAction) where
  off_blocks :
      (found said : Bool)
      → is_active a || is_active b ≡ false
      → false ≡ (is_block a && found) || (is_block b && said)
  off_blocks found said h = ground arith

  off_finds :
      (found said : Bool)
      → is_active a || is_active b ≡ false
      → false ≡ (is_active a && found) || (is_active b && said)
  off_finds found said h = ground arith

  off_redacts :
      (l : List (ℕ × String))
      → is_active a || is_active b ≡ false
      → [] ≡ (if is_redact a then l else [])
  off_redacts l h = ground arith

reasons : (a b : Bool) → not (is_empty (reason_if a "pii" ++ reason_if b "jailbreak")) ≡ a || b
reasons true b = refl
reasons false true = refl
reasons false false = refl

module _ (m : Matcher) where
  -- whether a selected pattern matches
  abbrev pub pii_in : GuardrailsConfig → ℕ × String → Bool
  pii_in cfg (index, text) =
      any
        (λ ((category, pattern) : PiiPattern).
          category_selected category cfg.pii.categories && ltb 0 (m.find_count pattern text))
        pii_patterns

  -- whether a built-in or a configured phrase is found
  abbrev pub jailbreak_in : GuardrailsConfig → ℕ × String → Bool
  jailbreak_in cfg (index, text) =
      any (phrase_found m text) (default_jailbreak_phrases ++ cfg.jailbreak.phrases)

  abbrev pub redacted : GuardrailsConfig → ℕ × String → ℕ × String
  redacted cfg (index, text) = (index, redact_pii m text cfg.pii.categories)

  scan_pii-is_empty :
      (ps : List PiiPattern) (text : String) (categories : List String)
      → is_empty (scan_pii m ps text categories)
        ≡ not (
            any
              (λ ((category, pattern) : PiiPattern).
                category_selected category categories && ltb 0 (m.find_count pattern text))
              ps)
  unfolding scan_pii
  scan_pii-is_empty [] text categories = refl
  scan_pii-is_empty ((category, pattern) ∷ ps) text categories =
      elim (Bool-cases
        (category_selected category categories && ltb 0 (m.find_count pattern text))) [
          | inl e ↦ rw e
          | inr e ↦ rw e (scan_pii-is_empty ps text categories)
        ]

  scan_phrases-is_empty :
      (ps : List String) (text : String)
      → is_empty (scan_phrases m ps text) ≡ not (any (phrase_found m text) ps)
  unfolding scan_phrases
  scan_phrases-is_empty [] text = refl
  scan_phrases-is_empty (p ∷ ps) text = elim (Bool-cases (phrase_found m text p)) [
    | inl e ↦ rw e
    | inr e ↦ rw e (scan_phrases-is_empty ps text)
  ]

  module _ (cfg : GuardrailsConfig) where
    scan-pii :
        (message : ℕ × String)
        → is_empty (scan m message.1 cfg).pii ≡ not (is_active cfg.pii.action && pii_in cfg message)
    unfolding scan
    scan-pii (index, text) = elim (Bool-cases (is_active cfg.pii.action)) [
      | inl e ↦ rw e (scan_pii-is_empty pii_patterns text cfg.pii.categories)
      | inr e ↦ rw e
    ]

    scan-phrases :
        (message : ℕ × String)
        → is_empty (scan m message.1 cfg).jailbreak_phrases
          ≡ not (is_active cfg.jailbreak.action && jailbreak_in cfg message)
    unfolding scan
    scan-phrases (index, text) = elim (Bool-cases (is_active cfg.jailbreak.action)) [
      | inl e ↦
          rw e (scan_phrases-is_empty (default_jailbreak_phrases ++ cfg.jailbreak.phrases) text)
      | inr e ↦ rw e
    ]

    gather_all-pii :
        (messages : List (ℕ × String)) (g : Gathered)
        → is_empty (gather_all m cfg messages g).pii
          ≡ is_empty g.pii && not (is_active cfg.pii.action && any (pii_in cfg) messages)
    unfolding gather_all gather
    gather_all-pii [] g = ground arith
    gather_all-pii (message ∷ messages) g =
        gather_all-pii messages (gather m cfg message g)
        ∙ ground (arith, add_hits-is_empty (scan m message.1 cfg).pii g.pii, scan-pii message)

    gather_all-phrases :
        (messages : List (ℕ × String)) (g : Gathered)
        → is_empty (gather_all m cfg messages g).jailbreak_phrases
          ≡ is_empty g.jailbreak_phrases
            && not (is_active cfg.jailbreak.action && any (jailbreak_in cfg) messages)
    unfolding gather_all gather
    gather_all-phrases [] g = ground arith
    gather_all-phrases (message ∷ messages) g =
        gather_all-phrases messages (gather m cfg message g)
        ∙ ground (
          arith,
          add_phrases-is_empty (scan m message.1 cfg).jailbreak_phrases g.jailbreak_phrases,
          scan-phrases message,
        )

    abbrev redacted_if : Bool → ℕ × String → List (ℕ × String)
    redacted_if found message = if found then redacted cfg message ∷ [] else []

    appended_if :
        (found : Bool) (message : ℕ × String) (before : List (ℕ × String))
        → (if found then before ++ redacted cfg message ∷ [] else before)
          ≡ before ++ redacted_if found message
    appended_if true message before = refl
    appended_if false message before = sym (append-nil before)

    gather-redactions :
        (message : ℕ × String) (g : Gathered)
        → (gather m cfg message g).redactions
          ≡ g.redactions ++ redacted_if (is_redact cfg.pii.action && pii_in cfg message) message
    unfolding gather
    gather-redactions message g =
        let same : not (is_empty (scan m message.1 cfg).pii) && is_redact cfg.pii.action
            ≡ is_redact cfg.pii.action && pii_in cfg message =
          found_redacts cfg.pii.action (is_empty (scan m message.1 cfg).pii) (pii_in cfg message)
            (scan-pii message) in
        rw same (appended_if (is_redact cfg.pii.action && pii_in cfg message) message g.redactions)

    -- The messages that are redacted, in order.
    abbrev pub redactions_of : List (ℕ × String) → List (ℕ × String)
    redactions_of messages =
        if is_redact cfg.pii.action then map (redacted cfg) (filter (pii_in cfg) messages) else []

    redactions_of-cons :
        (message : ℕ × String) (messages : List (ℕ × String))
        → redactions_of (message ∷ messages)
          ≡ redacted_if (is_redact cfg.pii.action && pii_in cfg message) message
            ++ redactions_of messages
    redactions_of-cons message messages = elim (Bool-cases (is_redact cfg.pii.action)) [
      | inr r ↦ rw r
      | inl r ↦ elim (Bool-cases (pii_in cfg message)) [ inl e ↦ rw (r, e) | inr e ↦ rw (r, e) ]
    ]

    gather_all-redactions :
        (messages : List (ℕ × String)) (g : Gathered)
        → (gather_all m cfg messages g).redactions ≡ g.redactions ++ redactions_of messages
    unfolding gather_all
    gather_all-redactions [] g = elim (Bool-cases (is_redact cfg.pii.action)) [
      | inl r ↦ rw r (sym (append-nil g.redactions))
      | inr r ↦ rw r (sym (append-nil g.redactions))
    ]
    gather_all-redactions (message ∷ messages) g =
        gather_all-redactions messages (gather m cfg message g)
        ∙ ap (λ l. l ++ redactions_of messages) (gather-redactions message g)
        ∙ append_assoc g.redactions _ (redactions_of messages)
        ∙ ap (λ l. g.redactions ++ l) (sym (redactions_of-cons message messages))

  conclude-is_blocked :
      (cfg : GuardrailsConfig) (g : Gathered) (found said : Bool)
      → is_empty g.pii ≡ not (is_active cfg.pii.action && found)
      → is_empty g.jailbreak_phrases ≡ not (is_active cfg.jailbreak.action && said)
      → is_blocked (conclude cfg g)
        ≡ (is_block cfg.pii.action && found) || (is_block cfg.jailbreak.action && said)
  unfolding conclude
  conclude-is_blocked cfg g found said p q =
      reasons (not (is_empty g.pii) && is_block cfg.pii.action) _
      ∙ ap₂ ◌||◌ (found_blocks cfg.pii.action _ found p)
          (found_blocks cfg.jailbreak.action _ said q)

  conclude-has_findings :
      (cfg : GuardrailsConfig) (g : Gathered) (found said : Bool)
      → is_empty g.pii ≡ not (is_active cfg.pii.action && found)
      → is_empty g.jailbreak_phrases ≡ not (is_active cfg.jailbreak.action && said)
      → has_findings (conclude cfg g)
        ≡ (is_active cfg.pii.action && found) || (is_active cfg.jailbreak.action && said)
  unfolding conclude
  conclude-has_findings cfg g found said p q = ground arith

  pub evaluate-active :
      (cfg : GuardrailsConfig) (messages : List (ℕ × String))
      → guardrails_active cfg ≡ true
      → evaluate m messages cfg ≡ conclude cfg (gather_all m cfg messages nothing_gathered)
  unfolding evaluate
  evaluate-active cfg messages active = rw active

  pub evaluate-inactive :
      (cfg : GuardrailsConfig) (messages : List (ℕ × String))
      → guardrails_active cfg ≡ false
      → evaluate m messages cfg ≡ no_verdict
  unfolding evaluate
  evaluate-inactive cfg messages inactive = rw inactive

  -- What the verdict says of a request, with `pii_in` for "a selected pattern matches the text" and
  -- `jailbreak_in` for "the text contains a built-in or configured phrase": it is blocked exactly
  -- when a guardrail whose action is to block has found something in some message; it has findings
  -- exactly when an active guardrail has; and the redactions are exactly the messages with a match,
  -- in order, with their indexes and their redacted texts, if the action is to redact, and none else.
  pub evaluate-verdict :
      (cfg : GuardrailsConfig) (messages : List (ℕ × String))
      → (is_blocked (evaluate m messages cfg)
          ≡ (is_block cfg.pii.action && any (pii_in cfg) messages)
            || (is_block cfg.jailbreak.action && any (jailbreak_in cfg) messages))
        × (has_findings (evaluate m messages cfg)
            ≡ (is_active cfg.pii.action && any (pii_in cfg) messages)
              || (is_active cfg.jailbreak.action && any (jailbreak_in cfg) messages))
        × ((evaluate m messages cfg).redactions ≡ redactions_of cfg messages)
  unfolding conclude
  evaluate-verdict cfg messages =
      let g = gather_all m cfg messages nothing_gathered in
      let p = gather_all-pii cfg messages nothing_gathered in
      let q = gather_all-phrases cfg messages nothing_gathered in
      let r = gather_all-redactions cfg messages nothing_gathered in
      elim (Bool-cases (guardrails_active cfg)) [
        | inl active ↦
            rw (evaluate-active cfg messages active)
              (conclude-is_blocked cfg g _ _ p q, conclude-has_findings cfg g _ _ p q, r)
        | inr inactive ↦ rw (evaluate-inactive cfg messages inactive) (
          off_blocks cfg.pii.action cfg.jailbreak.action _ _ inactive,
          off_finds cfg.pii.action cfg.jailbreak.action _ _ inactive,
          off_redacts cfg.pii.action cfg.jailbreak.action _ inactive,
        )
      ]
