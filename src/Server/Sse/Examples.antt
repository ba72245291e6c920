-- ===== src/Server/Sse/Examples.antt =====
-- src/server/sse.rs: tests, and the theorems at a stream of three chunks.
use Prim.Native.String.{◌++◌ as append}
use rs_llmctl.Base.{
  ℕ, ◌==◌, String, Option, none, some, List, [], ◌∷◌, ◌≡◌, refl, arith, if◌then◌else◌, str_eq,
}
use rs_llmctl.Base.Frames.{split_frame}
use rs_llmctl.Base.Json.{Json, number, object, field, no_fields}
use rs_llmctl.Server.Sse.{
  usage_tokens_from_value, sse_frame_usage_tokens, drain, push, push_bytes, stream_usage, lines, ok,
}
use rs_llmctl.Server.Sse.Chunks.{concat_bytes, stream_usage-push}
use rs_llmctl.Server.Sse.Frames.{Ended, push-Ended}

abbrev usage : Json
usage = object (
    field "usage"
      (object (field "prompt_tokens" (number 7) (field "output_tokens" (number 5) no_fields)))
      no_fields)

-- a parser that knows one text
abbrev knows_one : String → Option Json
knows_one s = if str_eq s "{usage}" then some usage else none

-- a decoder of a few bytes: each byte but 1 and 2 is a line's end
abbrev decode : List ℕ → String
decode [] = ""
decode (b ∷ bs) =
    append
      (if b == 1 then "data: {us" else (if b == 2 then "age}\r\nevent: x\ndata: [DONE]" else "\n"))
      (decode bs)

abbrev chunks : List (List ℕ)
chunks = (1 ∷ []) ∷ (2 ∷ 10 ∷ []) ∷ (10 ∷ 1 ∷ 2 ∷ 10 ∷ 10 ∷ 1 ∷ []) ∷ []

test-usage : usage_tokens_from_value usage ≡ (7, 5)
unfolding usage_tokens_from_value
test-usage = refl

test-lines : lines "a\r\r\n\nb\r" ≡ "a\r" ∷ "" ∷ "b\r" ∷ []
test-lines = refl

test-frame : sse_frame_usage_tokens knows_one " data:  {usage} \ndata: [DONE]\nid: {usage}" ≡ (7, 5)
unfolding sse_frame_usage_tokens
test-frame = refl

test-stream : stream_usage knows_one decode "" (0, 0) chunks ≡ some ("data: {us", ok (14, 10))
unfolding stream_usage push_bytes push drain sse_frame_usage_tokens split_frame
test-stream = refl

stream_usage-push_example :
    stream_usage knows_one decode "" (0, 0) chunks
    ≡ push_bytes knows_one decode "" (concat_bytes chunks)
stream_usage-push_example = stream_usage-push knows_one decode chunks refl (omega arith)

push-Ended_example : Ended knows_one (push knows_one "da" "ta: {usage}\n\nrest")
push-Ended_example = push-Ended knows_one "da" "ta: {usage}\n\nrest"
