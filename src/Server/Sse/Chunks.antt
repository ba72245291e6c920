-- ===== src/Server/Sse/Chunks.antt =====
-- src/server/sse.rs: streams, and the chunks that they come in.
use Prim.Native.String.{◌++◌ as append, [] as empty, len, count}
use text.Mathlib.TextLemmas.{append_assoc, append-nil, nil-append}
use rs_llmctl.Base.{
  ℕ, zero, suc, ◌+◌, ◌≤◌, ◌<◌, String, Option, none, some, ◌≡◌, refl, sym, ap, ap₂, ◌∙◌, inl, inr,
  List, [], ◌∷◌, ◌++◌, map, arith, u64_max, Option-cases, saturating_add,
}
use rs_llmctl.Base.Frames.{split_frame, split_frame-parts, split_frame-append, len-append}
use rs_llmctl.Base.Json.{Json}
use rs_llmctl.Server.Sse.{
  Tokens, add_tokens, Pushed, ok, drain, push, push_bytes, push_into, after_push, stream_usage,
  sse_frame_usage_tokens,
}
use rs_llmctl.Server.Sse.Frames.{max_frame, drain-none, drain-some, drain-fuel, push_into-drain}

saturating_add_assoc :
    (a b c : ℕ)
    → saturating_add u64_max (saturating_add u64_max a b) c
      ≡ saturating_add u64_max a (saturating_add u64_max b c)
saturating_add_assoc a b c = omega arith

add_tokens_assoc : (x y z : Tokens) → add_tokens (add_tokens x y) z ≡ add_tokens x (add_tokens y z)
add_tokens_assoc (a, b) (c, d) (e, f) =
    ap₂ (λ m n. (m, n)) (saturating_add_assoc a c e) (saturating_add_assoc b d f)

abbrev Fits : Tokens → Type 0
Fits (a, b) = (a ≤ u64_max) × (b ≤ u64_max)

add_tokens-zero : (x : Tokens) → Fits x → add_tokens x (0, 0) ≡ x
add_tokens-zero (a, b) h = ap₂ (λ m n. (m, n)) (omega arith) (omega arith)

add_tokens-Fits : (x y : Tokens) → Fits (add_tokens x y)
add_tokens-Fits (a, b) (c, d) = omega arith

abbrev pub concat_bytes : List (List ℕ) → List ℕ
concat_bytes [] = []
concat_bytes (chunk ∷ chunks) = chunk ++ concat_bytes chunks

abbrev pub concat : List String → String
concat [] = empty
concat (chunk ∷ chunks) = append chunk (concat chunks)

module _ (parse : String → Option Json) where
  -- the loop with the fuel that `push` gives it
  abbrev drained : String → Tokens → Option (String × Pushed)
  drained buffer totals = drain parse (suc (count buffer)) buffer totals

  drained-some :
      (buffer frame rest : String) (totals : Tokens)
      → split_frame buffer ≡ some (frame, rest)
      → len frame ≤ max_frame
      → drained buffer totals
        ≡ drained rest (add_tokens totals (sse_frame_usage_tokens parse frame))
  drained-some buffer frame rest totals e fits =
      let (a, b, shorter) = split_frame-parts buffer frame rest e in
      drain-some parse (count buffer) buffer frame rest totals e fits
      ∙ drain-fuel parse (count buffer) (suc (count rest)) rest _ shorter (omega arith)

  -- What the loop does on a buffer within the limit, whatever the totals and whatever follows.
  record Loop (buffer : String) : Type 0 where
    left : String
    tokens : Tokens
    ends : split_frame left ≡ none
    shorter : len left ≤ len buffer
    run :
        (totals : Tokens)
        → Fits totals
        → drained buffer totals ≡ some (left, ok (add_tokens totals tokens))
    resume :
        (text : String) (totals : Tokens)
        → len buffer + len text ≤ max_frame
        → Fits totals
        → drained (append buffer text) totals
          ≡ drained (append left text) (add_tokens totals tokens)

  abbrev frame_tokens : String → Tokens
  frame_tokens frame = sse_frame_usage_tokens parse frame

  after_frame :
      (buffer frame rest : String)
      → split_frame buffer ≡ some (frame, rest)
      → len buffer ≤ max_frame
      → Loop rest
      → Loop buffer
  after_frame buffer frame rest e fits ih = record {
    left = ih.left;
    tokens = add_tokens (frame_tokens frame) ih.tokens;
    ends = ih.ends;
    shorter = omega (arith, ih.shorter, split_frame-parts buffer frame rest e);
    run = λ totals h.
        drained-some buffer frame rest totals e
          (omega (arith, split_frame-parts buffer frame rest e))
        ∙ ih.run (add_tokens totals (frame_tokens frame)) (add_tokens-Fits totals _)
        ∙ ap (λ (t : Tokens). some (ih.left, ok t))
            (add_tokens_assoc totals (frame_tokens frame) ih.tokens);
    resume = λ text totals h k.
        drained-some (append buffer text) frame (append rest text) totals
          (split_frame-append buffer text frame rest e)
          (omega (arith, split_frame-parts buffer frame rest e))
        ∙ ih.resume text (add_tokens totals (frame_tokens frame))
            (omega (arith, split_frame-parts buffer frame rest e)) (add_tokens-Fits totals _)
        ∙ ap (drained (append ih.left text))
            (add_tokens_assoc totals (frame_tokens frame) ih.tokens);
  }

  drained-Loop : (n : ℕ) (buffer : String) → count buffer < n → len buffer ≤ max_frame → Loop buffer
  drained-Loop zero buffer p fits = absurd (omega arith)
  drained-Loop (suc n) buffer p fits = elim (Option-cases (split_frame buffer)) [
    | inl e ↦ record {
      left = buffer;
      tokens = (0, 0);
      ends = e;
      shorter = omega arith;
      run = λ totals h.
          drain-none parse (count buffer) buffer totals e
          ∙ ap (λ (t : Tokens). some (buffer, ok t)) (sym (add_tokens-zero totals h));
      resume =
          λ text totals h k. ap (drained (append buffer text)) (sym (add_tokens-zero totals k));
    }
    | inr ((frame, rest), e) ↦
        let (a, b, shorter) = split_frame-parts buffer frame rest e in
        let ih = drained-Loop n rest (omega arith) (omega arith) in
        after_frame buffer frame rest e fits ih
  ]

  -- One chunk: `push` drains the buffer, and the stream goes on with what it leaves.
  after_push-Loop :
      (total : String) (totals : Tokens) (next : String → Tokens → Option (String × Pushed))
      (loop : Loop total)
      → len total ≤ max_frame
      → Fits totals
      → after_push parse next totals (push_into parse total)
        ≡ next loop.left (add_tokens totals loop.tokens)
  after_push-Loop total totals next loop small k =
      ap (after_push parse next totals)
        (push_into-drain parse total (inl small) ∙ loop.run (0, 0) (omega arith))
      ∙ ap (next loop.left) (
          sym (add_tokens_assoc totals (0, 0) loop.tokens)
          ∙ ap (λ t. add_tokens t loop.tokens) (add_tokens-zero totals k))

  -- what the chunks of a stream are decoded to, put together
  abbrev pub decoded : (List ℕ → String) → List (List ℕ) → String
  decoded from_utf8_lossy chunks = concat (map from_utf8_lossy chunks)

  stream_usage-drained :
      (from_utf8_lossy : List ℕ → String) (chunks : List (List ℕ)) (buffer : String)
      (totals : Tokens)
      → len buffer + len (decoded from_utf8_lossy chunks) ≤ max_frame
      → split_frame buffer ≡ none
      → Fits totals
      → stream_usage parse from_utf8_lossy buffer totals chunks
        ≡ drained (append buffer (decoded from_utf8_lossy chunks)) totals
  unfolding stream_usage push_bytes push
  stream_usage-drained from_utf8_lossy [] buffer totals h e k =
      sym (drain-none parse (count buffer) buffer totals e)
      ∙ ap (λ b. drained b totals) (sym (append-nil buffer))
  stream_usage-drained from_utf8_lossy (bytes ∷ chunks) buffer totals h e k =
      let chunk = from_utf8_lossy bytes in
      let rest = decoded from_utf8_lossy chunks in
      let total = append buffer chunk in
      let both : len total + len rest ≤ max_frame =
        omega (arith, len-append buffer chunk, len-append chunk rest) in
      let loop = drained-Loop (suc (count total)) total (omega arith) (omega arith) in
      after_push-Loop total totals (λ b t. stream_usage parse from_utf8_lossy b t chunks) loop
        (omega arith) k
      ∙ stream_usage-drained from_utf8_lossy chunks loop.left (add_tokens totals loop.tokens)
          (omega (arith, loop.shorter)) loop.ends (add_tokens-Fits totals loop.tokens)
      ∙ sym (loop.resume rest totals both k)
      ∙ ap (λ b. drained b totals) (append_assoc buffer chunk rest)

  split_empty : split_frame empty ≡ none
  unfolding split_frame
  split_empty = refl

  -- A stream of bytes is cut into chunks between characters: decoding the chunks one by one gives the
  -- text of the whole (`from_utf8_lossy` would put replacement characters where a chunk ends inside of
  -- one). The text has at most 1,048,576 bytes. Then reading the stream chunk by chunk gives what one
  -- call of `push` gives on the whole of it: the same tokens, added up with saturation, and the same
  -- text left in the buffer.
  pub stream_usage-push :
      (from_utf8_lossy : List ℕ → String) (chunks : List (List ℕ))
      → decoded from_utf8_lossy chunks ≡ from_utf8_lossy (concat_bytes chunks)
      → len (from_utf8_lossy (concat_bytes chunks)) ≤ max_frame
      → stream_usage parse from_utf8_lossy "" (0, 0) chunks
        ≡ push_bytes parse from_utf8_lossy "" (concat_bytes chunks)
  unfolding push push_bytes
  stream_usage-push from_utf8_lossy chunks whole h =
      let text = decoded from_utf8_lossy chunks in
      let small : len (append "" text) ≤ max_frame =
        omega (arith, ap len (nil-append text), ap len whole) in
      stream_usage-drained from_utf8_lossy chunks "" (0, 0) (omega (arith, h, ap len whole))
        split_empty (omega arith)
      ∙ sym (push_into-drain parse (append "" text) (inl small))
      ∙ ap (λ t. push_into parse (append "" t)) whole
