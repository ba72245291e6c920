-- ===== src/Server/Sse/Frames.antt =====
-- src/server/sse.rs: the loop over the buffered frames.
use Prim.Native.String.{◌++◌ as append, len, count}
use rs_llmctl.Base.{
  ℕ, zero, suc, ◌≤◌, ◌<◌, String, true, false, Option, none, some, ◌≡◌, ◌≢◌, refl, sym, ◌∙◌, ◌⊎◌,
  inl, inr, arith, ltb, Bool-cases, Option-cases,
}
use rs_llmctl.Base.Frames.{split_frame, split_frame-parts}
use rs_llmctl.Base.Json.{Json}
use rs_llmctl.Server.Sse.{
  Tokens, add_tokens, Pushed, ok, err, too_large, max_sse_usage_buffer_bytes, drain, push,
  push_into, sse_frame_usage_tokens,
}

abbrev pub max_frame : ℕ
max_frame = max_sse_usage_buffer_bytes

module _ (parse : String → Option Json) where
  pub drain-none :
      (fuel : ℕ) (buffer : String) (totals : Tokens)
      → split_frame buffer ≡ none
      → drain parse (suc fuel) buffer totals ≡ some (buffer, ok totals)
  unfolding drain
  drain-none fuel buffer totals e = rw (e, drain)

  pub drain-some :
      (fuel : ℕ) (buffer frame rest : String) (totals : Tokens)
      → split_frame buffer ≡ some (frame, rest)
      → len frame ≤ max_frame
      → drain parse (suc fuel) buffer totals
        ≡ drain parse fuel rest (add_tokens totals (sse_frame_usage_tokens parse frame))
  unfolding drain
  drain-some fuel buffer frame rest totals e fits =
      let small : ltb max_frame (len frame) ≡ false = ground arith in rw (e, drain, small)

  pub drain-large :
      (fuel : ℕ) (buffer frame rest : String) (totals : Tokens)
      → split_frame buffer ≡ some (frame, rest)
      → max_frame < len frame
      → drain parse (suc fuel) buffer totals ≡ some (buffer, err too_large)
  unfolding drain
  drain-large fuel buffer frame rest totals e large =
      let above : ltb max_frame (len frame) ≡ true = ground arith in rw (e, drain, above)

  -- Fuel above the number of characters is enough, and more of it changes nothing.
  pub drain-fuel :
      (f g : ℕ) (buffer : String) (totals : Tokens)
      → count buffer < f
      → count buffer < g
      → drain parse f buffer totals ≡ drain parse g buffer totals
  drain-fuel zero g buffer totals p q = absurd (omega arith)
  drain-fuel (suc f) zero buffer totals p q = absurd (omega arith)
  drain-fuel (suc f) (suc g) buffer totals p q = elim (Option-cases (split_frame buffer)) [
    | inl e ↦ drain-none f buffer totals e ∙ sym (drain-none g buffer totals e)
    | inr ((frame, rest), e) ↦ elim (Bool-cases (ltb max_frame (len frame))) [
      | inl large ↦
          drain-large f buffer frame rest totals e (ground arith)
          ∙ sym (drain-large g buffer frame rest totals e (ground arith))
      | inr small ↦
          let (a, b, shorter) = split_frame-parts buffer frame rest e in
          drain-some f buffer frame rest totals e (ground arith)
          ∙ drain-fuel f g rest _ (omega arith) (omega arith)
          ∙ sym (drain-some g buffer frame rest totals e (ground arith))
    ]
  ]

  -- No whole frame is left, or the parser has refused a frame, or a text without an end, that is
  -- larger than it may be.
  abbrev pub Ended : Option (String × Pushed) → Type 0
  Ended none = ⊥
  Ended (some (left, ok tokens)) = split_frame left ≡ none
  Ended (some (left, err reason)) =
      (reason ≡ too_large)
      × (((split_frame left ≡ none) × (max_frame < len left))
          ⊎ ((frame : String) × (rest : String) × (split_frame left ≡ some (frame, rest))
              × (max_frame < len frame)))

  pub drain-Ended :
      (fuel : ℕ) (buffer : String) (totals : Tokens)
      → count buffer < fuel
      → Ended (drain parse fuel buffer totals)
  drain-Ended zero buffer totals p = absurd (omega arith)
  drain-Ended (suc fuel) buffer totals p = elim (Option-cases (split_frame buffer)) [
    | inl e ↦ rw (drain-none fuel buffer totals e) e
    | inr ((frame, rest), e) ↦ elim (Bool-cases (ltb max_frame (len frame))) [
      | inl large ↦
          let above : max_frame < len frame = ground arith in
          rw (drain-large fuel buffer frame rest totals e above) (refl, inr (frame, rest, e, above))
      | inr small ↦
          let (a, b, shorter) = split_frame-parts buffer frame rest e in
          rw (drain-some fuel buffer frame rest totals e (ground arith))
            (drain-Ended fuel rest _ (omega arith))
    ]
  ]

  -- The loop runs where the buffer has a frame, or is small.
  pub push_into-drain :
      (buffer : String)
      → ((len buffer ≤ max_frame) ⊎ (split_frame buffer ≢ none))
      → push_into parse buffer ≡ drain parse (suc (count buffer)) buffer (0, 0)
  push_into-drain buffer (inl small) =
      let fits : ltb max_frame (len buffer) ≡ false = ground arith in rw fits
  push_into-drain buffer (inr some_frame) = elim (Option-cases (split_frame buffer)) [
    | inl e ↦ absurd (some_frame e)
    | inr ((frame, rest), e) ↦ ground arith
  ]

  push_into-large :
      (buffer : String)
      → max_frame < len buffer
      → split_frame buffer ≡ none
      → push_into parse buffer ≡ some (buffer, err too_large)
  push_into-large buffer large e = ground arith

  push_into-Ended : (buffer : String) → Ended (push_into parse buffer)
  push_into-Ended buffer =
      let ends = drain-Ended (suc (count buffer)) buffer (0, 0) (omega arith) in
      elim (Bool-cases (ltb max_frame (len buffer))) [
        | inr small ↦ rw (push_into-drain buffer (inl (ground arith))) ends
        | inl large ↦ elim (Option-cases (split_frame buffer)) [
          | inl e ↦ rw (push_into-large buffer (ground arith) e) (refl, inl (e, ground arith))
          | inr (parts, e) ↦ rw (push_into-drain buffer (inr (λ h. absurd (cc)))) ends
        ]
      ]

  -- Every call of `push` returns: the fuel that the loop is given is enough. When it returns the
  -- tokens of the frames, no whole frame is left in the buffer. When it returns an error, the
  -- buffer holds more than 1,048,576 bytes with no end of a frame, or its next frame does.
  pub push-Ended : (buffer chunk : String) → Ended (push parse buffer chunk)
  unfolding push
  push-Ended buffer chunk = push_into-Ended (append buffer chunk)
