-- ===== src/Base/Texts.antt =====
-- Methods of `str`. `trim` takes the characters of Unicode's White_Space off both ends.
pub mod Laws
use Prim.Native.Nat.{ℕ, ◌+◌}
use Prim.Native.Char.{Char, code}
use Prim.Native.String.{String, [], ◌∷◌}
use mathlib.Core.Option.{Option, none, some}
use mathlib.Core.Bool.{Bool, true, false, ◌&&◌, ◌||◌}
use rs_llmctl.Base.Tests.{if◌then◌else◌, leb, ◌==◌}

abbrev within : ℕ → ℕ → ℕ → Bool
within a b n = leb a n && leb n b

-- `char::is_whitespace`, by the character's number
abbrev is_whitespace : ℕ → Bool
is_whitespace n =
    within 9 13 n
    || n == 32
    || n == 133
    || n == 160
    || n == 5760
    || within 8192 8202 n
    || within 8232 8233 n
    || n == 8239
    || n == 8287
    || n == 12288

abbrev pub trim_start : String → String
trim_start [] = []
trim_start (c ∷ s) = let rest = trim_start s in if is_whitespace (code c) then rest else c ∷ s

abbrev cons_unless_blank : Char → String → String
cons_unless_blank c [] = if is_whitespace (code c) then [] else c ∷ []
cons_unless_blank c (d ∷ s) = c ∷ d ∷ s

abbrev trim_end : String → String
trim_end [] = []
trim_end (c ∷ s) = cons_unless_blank c (trim_end s)

unfoldable pub trim : String → String
trim s = trim_end (trim_start s)

-- `strip_prefix(prefix)`
abbrev pub strip_prefix : String → String → Option String
strip_prefix [] s = some s
strip_prefix (p ∷ ps) [] = none
strip_prefix (p ∷ ps) (c ∷ s) = if code p == code c then strip_prefix ps s else none

abbrev pub to_ascii_lowercase : ℕ → ℕ
to_ascii_lowercase c = if leb 65 c && leb c 90 then c + 32 else c

-- equality of the texts in lower case
abbrev pub same_lowercase : String → String → Bool
same_lowercase [] [] = true
same_lowercase [] (d ∷ t) = false
same_lowercase (c ∷ s) [] = false
same_lowercase (c ∷ s) (d ∷ t) =
    to_ascii_lowercase (code c) == to_ascii_lowercase (code d) && same_lowercase s t

-- whether a text, in lower case, starts with one that is in lower case
abbrev pub lowercase_starts_with : String → String → Bool
lowercase_starts_with s [] = true
lowercase_starts_with [] (d ∷ t) = false
lowercase_starts_with (c ∷ s) (d ∷ t) =
    to_ascii_lowercase (code c) == code d && lowercase_starts_with s t

-- `to_ascii_lowercase().contains(text)`, for a text in lower case
abbrev pub contains_lowercase : String → String → Bool
contains_lowercase [] t = lowercase_starts_with [] t
contains_lowercase (c ∷ s) t = lowercase_starts_with (c ∷ s) t || contains_lowercase s t
