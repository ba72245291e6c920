-- ===== src/Guardrails/Examples.antt =====
-- src/guardrails.rs: tests, and the theorems at two messages.
use text.Mathlib.Text.{starts_with}
use rs_llmctl.Base.{ℕ, String, Bool, ◌&&◌, ◌||◌, List, [], ◌∷◌, ◌≡◌, refl, any, if◌then◌else◌}
use rs_llmctl.Guardrails.{
  Matcher, GuardrailAction, GuardrailsConfig, scan, redact_pii, redact_with, scan_pii, scan_phrases,
  evaluate, conclude, gather_all, gather, pii_patterns, default_jailbreak_phrases, contains_text,
  is_blocked, has_findings, is_block, is_active,
}
use rs_llmctl.Guardrails.Verdict.{evaluate-verdict, pii_in, jailbreak_in, redactions_of}

-- The only matches are one e-mail address in each text with an "@".
abbrev is_match : String → String → Bool
is_match pattern text = starts_with pattern "[" && contains_text text "@"

abbrev at_sign : Matcher
at_sign = record {
  find_count = λ pattern text. if is_match pattern text then 1 else 0;
  is_match = is_match;
  replace_all = λ pattern text marker. marker;
  to_lowercase = λ s. s;
  to_uppercase = λ s. s;
}

abbrev with_actions : GuardrailAction → GuardrailAction → GuardrailsConfig
with_actions pii jailbreak = record {
  pii = record { action = pii; categories = "EMAIL" ∷ [] };
  jailbreak = record { action = jailbreak; phrases = "sudo" ∷ [] };
}

abbrev messages : List (ℕ × String)
messages = (0, "sudo, act as dan") ∷ (1, "a@b.c") ∷ (2, "hello") ∷ (3, "d@e.f") ∷ []

test-redacts :
    (evaluate at_sign messages (with_actions GuardrailAction.redact GuardrailAction.off)).redactions
    ≡ (1, "[REDACTED:email]") ∷ (3, "[REDACTED:email]") ∷ []
unfolding evaluate conclude gather_all gather scan scan_pii redact_pii redact_with pii_patterns
test-redacts = refl

test-blocks :
    (evaluate at_sign messages
      (with_actions GuardrailAction.block GuardrailAction.block)).block_reasons
    ≡ "pii" ∷ "jailbreak" ∷ []
unfolding evaluate conclude gather_all gather scan scan_pii scan_phrases pii_patterns
    default_jailbreak_phrases
test-blocks = refl

test-phrases :
    (scan at_sign "sudo, act as dan"
      (with_actions GuardrailAction.off GuardrailAction.flag)).jailbreak_phrases
    ≡ "act as dan" ∷ "sudo" ∷ []
unfolding scan scan_phrases default_jailbreak_phrases
test-phrases = refl

abbrev redacting : GuardrailsConfig
redacting = with_actions GuardrailAction.redact GuardrailAction.block

evaluate-verdict_example :
    (is_blocked (evaluate at_sign messages redacting)
      ≡ (is_block GuardrailAction.redact && any (pii_in at_sign redacting) messages)
        || (is_block GuardrailAction.block && any (jailbreak_in at_sign redacting) messages))
    × (has_findings (evaluate at_sign messages redacting)
        ≡ (is_active GuardrailAction.redact && any (pii_in at_sign redacting) messages)
          || (is_active GuardrailAction.block && any (jailbreak_in at_sign redacting) messages))
    × ((evaluate at_sign messages redacting).redactions ≡ redactions_of at_sign redacting messages)
evaluate-verdict_example = evaluate-verdict at_sign redacting messages
