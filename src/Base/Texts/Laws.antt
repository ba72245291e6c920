-- ===== src/Base/Texts/Laws.antt =====
-- What `strip_prefix` strips.
use Prim.Native.Char.{code}
use Prim.Native.String.{String, [], ◌∷◌, ◌++◌}
use mathlib.Core.Path.{◌≡◌, sym, ap, ap₂, ◌∙◌}
use mathlib.Core.Logic.{inl, inr}
use mathlib.Core.Bool.{true}
use mathlib.Core.Option.{none, some}
use native.Mathlib.Omega.{arith}
use text.Mathlib.TextEquality.{Char-path}
use text.Mathlib.TextLemmas.{cons-append, nil-append}
use rs_llmctl.Base.Tests.{◌==◌, Bool-cases}
use rs_llmctl.Base.Texts.{strip_prefix}

pub strip_prefix-append : (p s : String) → strip_prefix p (p ++ s) ≡ some s
strip_prefix-append [] s = ap some (nil-append s)
strip_prefix-append (c ∷ p) s =
    ap (strip_prefix (c ∷ p)) (cons-append c p s)
    ∙ (let same : (code c == code c) ≡ true = ground arith in rw same (strip_prefix-append p s))

pub strip_prefix-some : (p s t : String) → strip_prefix p s ≡ some t → s ≡ p ++ t
strip_prefix-some [] s t h = let e : s ≡ t = cc in e ∙ sym (nil-append t)
strip_prefix-some (c ∷ p) [] t h = absurd (cc)
strip_prefix-some (c ∷ p) (d ∷ s) t h = elim (Bool-cases (code c == code d)) [
  | inl e ↦
      let rest : strip_prefix p s ≡ some t = rw e at h in
      ap₂ (λ x y. x ∷ y) (sym (Char-path c d (ground arith))) (strip_prefix-some p s t rest)
      ∙ sym (cons-append c p t)
  | inr e ↦ let failed : none ≡ some t = rw e at h in absurd (cc)
]
