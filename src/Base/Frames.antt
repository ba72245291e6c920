-- ===== src/Base/Frames.antt =====
-- A text is cut at the first empty line: `find("\n\n")`, with the text before it and after it.
use Prim.Native.Nat.{◌+◌, ◌≤◌, ◌<◌}
use Prim.Native.Char.{Char, code, len_utf8}
use Prim.Native.String.{String, [], ◌∷◌, ◌++◌, len, count}
use Prim.Native.String.len as len_laws
use mathlib.Core.Path.{◌≡◌, sym, ◌∙◌, ap}
use mathlib.Core.Logic.{inl, inr}
use mathlib.Core.Bool.{Bool, true, false, ◌&&◌}
use mathlib.Core.Option.{Option, none, some}
use native.Mathlib.Omega.{arith}
use text.Mathlib.TextLemmas.{cons-append, length-cons, nil-append}
use rs_llmctl.Base.Tests.{if◌then◌else◌, ◌==◌, Bool-cases}

abbrev prepend : Char → Option (String × String) → Option (String × String)
prepend c none = none
prepend c (some (frame, rest)) = some (c ∷ frame, rest)

abbrev is_break : Char → Char → Bool
is_break c d = code c == 10 && code d == 10

unfoldable pub split_frame : String → Option (String × String)
split_frame [] = none
split_frame (c ∷ []) = none
split_frame (c ∷ d ∷ s) =
    let later = prepend c (split_frame (d ∷ s)) in
    if code c == 10 && code d == 10 then some ([], s) else later

len-nil : len [] ≡ 0
len-nil = λ i. len_laws.nil i

len-cons : (c : Char) (s : String) → len (c ∷ s) ≡ len_utf8 c + len s
len-cons c s = λ i. len_laws.cons c s i

pub len-append : (s t : String) → len (s ++ t) ≡ len s + len t
len-append [] t = omega (arith, ap len (nil-append t))
len-append (c ∷ s) t =
    omega (arith, ap len (cons-append c s t), len-cons c (s ++ t), len-cons c s, len-append s t)

prepend-some :
    (c : Char) (o : Option (String × String)) (frame rest : String)
    → prepend c o ≡ some (frame, rest)
    → (front : String) × (o ≡ some (front, rest)) × (frame ≡ c ∷ front)
prepend-some c none frame rest h = absurd (cc)
prepend-some c (some (front, r)) frame rest h = (front, ground arith, ground arith)

module _ (c d : Char) (s : String) where
  split_frame-break : is_break c d ≡ true → split_frame (c ∷ d ∷ s) ≡ some ([], s)
  unfolding split_frame
  split_frame-break e = rw e

  split_frame-later :
      is_break c d ≡ false → split_frame (c ∷ d ∷ s) ≡ prepend c (split_frame (d ∷ s))
  unfolding split_frame
  split_frame-later e = rw e

both :
    {a b c d : String}
    → ◌≡◌ {A = Option (String × String)} (some (a, b)) (some (c, d))
    → (a ≡ c) × (b ≡ d)
both h = (ground arith, ground arith)

cons-cons-append : (c d : Char) (s t : String) → (c ∷ d ∷ s) ++ t ≡ c ∷ d ∷ (s ++ t)
cons-cons-append c d s t = cons-append c (d ∷ s) t ∙ ap (λ z. c ∷ z) (cons-append d s t)

-- A frame that was found stays found when text is appended.
pub split_frame-append :
    (s t frame rest : String)
    → split_frame s ≡ some (frame, rest)
    → split_frame (s ++ t) ≡ some (frame, rest ++ t)
unfolding split_frame
split_frame-append [] t frame rest h = absurd (cc)
split_frame-append (c ∷ []) t frame rest h = absurd (cc)
split_frame-append (c ∷ d ∷ s) t frame rest h = elim (Bool-cases (is_break c d)) [
  | inl e ↦
      let (p, q) = both (sym (split_frame-break c d s e) ∙ h) in
      ap split_frame (cons-cons-append c d s t) ∙ split_frame-break c d (s ++ t) e ∙ (rw (p, q))
  | inr e ↦
      let (front, p, q) =
        prepend-some c (split_frame (d ∷ s)) frame rest (sym (split_frame-later c d s e) ∙ h) in
      ap split_frame (cons-cons-append c d s t)
      ∙ split_frame-later c d (s ++ t) e
      ∙ ap (λ z. prepend c (split_frame z)) (sym (cons-append d s t))
      ∙ ap (prepend c) (split_frame-append (d ∷ s) t front rest p)
      ∙ ap (λ (f : String). some (f, rest ++ t)) (sym q)
]

-- Both parts are of the text.
pub split_frame-parts :
    (s frame rest : String)
    → split_frame s ≡ some (frame, rest)
    → (len frame ≤ len s) × (len rest ≤ len s) × (count rest < count s)
unfolding split_frame
split_frame-parts [] frame rest h = absurd (cc)
split_frame-parts (c ∷ []) frame rest h = absurd (cc)
split_frame-parts (c ∷ d ∷ s) frame rest h = elim (Bool-cases (is_break c d)) [
  | inl e ↦
      let (p, q) = both (sym (split_frame-break c d s e) ∙ h) in
      omega (
        arith,
        ap len p,
        ap len q,
        ap count q,
        len-nil,
        len-cons c (d ∷ s),
        len-cons d s,
        length-cons c (d ∷ s),
        length-cons d s,
      )
  | inr e ↦
      let (front, p, q) =
        prepend-some c (split_frame (d ∷ s)) frame rest (sym (split_frame-later c d s e) ∙ h) in
      let parts = split_frame-parts (d ∷ s) front rest p in
      omega (arith, parts, len-cons c (d ∷ s), len-cons c front, ap len q, length-cons c (d ∷ s))
]
