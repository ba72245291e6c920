-- ===== src/Server/Sse.antt =====
-- src/server/sse.rs: the tokens that an answer used, read from its JSON or from its stream of
-- events. `serde_json::from_str` is the parameter `parse`, whose result is none where it fails. A
-- chunk of the stream is its bytes, and `String::from_utf8_lossy` is the parameter that decodes each
-- chunk by itself. A text's length is that of its UTF-8 form, and the loop over the buffered frames has
-- fuel.
pub mod Frames
pub mod Chunks
mod Examples
use Prim.Native.Char.{Char, code}
use Prim.Native.String.{[] as empty, ◌∷◌ as prefix, ◌++◌ as append, len, count}
use rs_llmctl.Base.{
  ℕ, zero, suc, ◌+◌, String, Bool, true, false, not, ◌&&◌, Option, none, some, List, [], ◌∷◌, map,
  if◌then◌else◌, str_eq, ltb, ◌==◌, saturating_add, u64_max,
}
use rs_llmctl.Base.Frames.{split_frame}
use rs_llmctl.Base.Json.{Json, get, as_u64}
use rs_llmctl.Base.Texts.{trim, trim_start, strip_prefix}

abbrev pub max_sse_usage_buffer_bytes : ℕ
max_sse_usage_buffer_bytes = 1048576

-- input and output tokens
abbrev pub Tokens : Type 0
Tokens = ℕ × ℕ

abbrev pub add_tokens : Tokens → Tokens → Tokens
add_tokens (a, b) (c, d) = (saturating_add u64_max a c, saturating_add u64_max b d)

abbrev pub number_or_zero : Option Json → ℕ
number_or_zero none = 0
number_or_zero (some v) = elim (as_u64 v) [ none ↦ 0 | some n ↦ n ]

-- `get(first).or_else(|| get(second)).and_then(as_u64).unwrap_or(0)`
abbrev pub count_of : String → String → Json → ℕ
count_of first second usage = elim (get first usage) [
  | none ↦ number_or_zero (get second usage)
  | some v ↦ number_or_zero (some v)
]

abbrev pub tokens_of_usage : Option Json → Tokens
tokens_of_usage none = (0, 0)
tokens_of_usage (some usage) = (
  count_of "prompt_tokens" "input_tokens" usage,
  count_of "completion_tokens" "output_tokens" usage,
)

unfoldable pub usage_tokens_from_value : Json → Tokens
usage_tokens_from_value value = tokens_of_usage (get "usage" value)

abbrev pub push_front : Char → List String → List String
push_front c [] = prefix c empty ∷ []
push_front c (line ∷ lines) = prefix c line ∷ lines

-- `str::lines`: a line ends with "\n" or "\r\n"
abbrev pub lines : String → List String
lines String.[] = []
lines (String.◌∷◌ c String.[]) = if code c == 10 then empty ∷ [] else push_front c []
lines (String.◌∷◌ c (String.◌∷◌ d s)) =
    let after_two = empty ∷ lines s in
    let after_one = lines (prefix d s) in
    if code c == 10
    then empty ∷ after_one
    else (if code c == 13 && code d == 10 then after_two else push_front c after_one)

-- the data of a line that has some
abbrev pub trimmed_data : Option String → Option String
trimmed_data none = none
trimmed_data (some rest) =
    if not (str_eq (trim rest) "") && not (str_eq (trim rest) "[DONE]")
    then some (trim rest)
    else none

unfoldable pub line_data : String → Option String
unfolding trim
line_data line = trimmed_data (strip_prefix "data:" (trim_start line))

-- What `push` returns.
pub data Pushed : Type 0 where
  ok : Tokens → Pushed
  err : String → Pushed

abbrev pub too_large : String
too_large = "SSE usage parser buffer exceeded maximum frame size"

-- whether the buffer contains "\n\n"
abbrev pub has_frame : String → Bool
has_frame buffer = elim (split_frame buffer) [ none ↦ false | some _ ↦ true ]

module _ (parse : String → Option Json) where
  abbrev pub tokens_of_data : Option Json → Tokens
  tokens_of_data none = (0, 0)
  tokens_of_data (some value) = usage_tokens_from_value value

  abbrev pub line_tokens : Option String → Tokens
  line_tokens none = (0, 0)
  line_tokens (some text) = tokens_of_data (parse text)

  -- A line that the filters drop adds nothing.
  abbrev pub fold_lines : Tokens → List String → Tokens
  fold_lines total [] = total
  fold_lines total (line ∷ rest) = fold_lines (add_tokens total (line_tokens (line_data line))) rest

  unfoldable pub sse_frame_usage_tokens : String → Tokens
  unfolding line_data usage_tokens_from_value
  sse_frame_usage_tokens frame = fold_lines (0, 0) (lines frame)

  -- The `while` loop: the buffer that it leaves, and what it returns.
  unfoldable pub drain : ℕ → String → Tokens → Option (String × Pushed)
  drain zero buffer totals = none
  drain (suc fuel) buffer totals = elim (split_frame buffer) [
    | none ↦ some (buffer, ok totals)
    | some (frame, rest) ↦
        let later = drain fuel rest (add_tokens totals (sse_frame_usage_tokens frame)) in
        if ltb max_sse_usage_buffer_bytes (len frame) then some (buffer, err too_large) else later
  ]

  abbrev pub push_into : String → Option (String × Pushed)
  push_into buffer =
      if ltb max_sse_usage_buffer_bytes (len buffer) && not (has_frame buffer)
      then some (buffer, err too_large)
      else drain (suc (count buffer)) buffer (0, 0)

  -- `SseUsageParser::push` on a parser's buffer, from the text of a chunk on
  unfoldable pub push : String → String → Option (String × Pushed)
  push buffer chunk = push_into (append buffer chunk)

  abbrev pub after_push :
      (String → Tokens → Option (String × Pushed))
      → Tokens
      → Option (String × Pushed)
      → Option (String × Pushed)
  after_push next totals none = none
  after_push next totals (some (buffer, err reason)) = some (buffer, err reason)
  after_push next totals (some (buffer, ok tokens)) = next buffer (add_tokens totals tokens)

module _ (parse : String → Option Json) (from_utf8_lossy : List ℕ → String) where
  -- The same from the bytes of the chunk, each chunk decoded by itself.
  unfoldable pub push_bytes : String → List ℕ → Option (String × Pushed)
  push_bytes buffer bytes = push parse buffer (from_utf8_lossy bytes)

  -- the relay's loop over the chunks of a stream, as far as it counts tokens; a chunk is its bytes
  unfoldable pub stream_usage : String → Tokens → List (List ℕ) → Option (String × Pushed)
  stream_usage buffer totals [] = some (buffer, ok totals)
  stream_usage buffer totals (chunk ∷ chunks) =
      after_push parse (λ b t. stream_usage b t chunks) totals (push_bytes buffer chunk)
