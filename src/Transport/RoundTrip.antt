-- ===== src/Transport/RoundTrip.antt =====
-- codebase/core/src/transport.rs: the text forms are read back, also with white space around them
-- trimmed before.
use safechat.Prelude.{
  ℕ, Bool, true, not, ◌&&◌, ltb, arith, ◌≡◌, refl, some, [], ◌∷◌, ◌++◌, ok, All, All-append,
}
use mathlib.Core.List.{reverse, reverse-reverse, reverse-cons, reverse-append}
use safechat.Prelude.Bytes.{Bytes}
use safechat.Prelude.Text.{is_space, start_width, end_width, trim_from, trim_start, trim}
use safechat.Transport.{
  Base64, encode_text, decode_text, encode_bundle, decode_bundle, encode_recovery, decode_recovery,
}

-- An ASCII character that is not white space.
abbrev pub is_plain : ℕ → Bool
is_plain c = ltb c 128 && not (is_space c)

-- What base64 text is: its decoder undoes the encoder, and it is ASCII without white space.
pub record Base64Laws (base64 : Base64) : Type 0 where
  pub decodes : (bs : Bytes) → base64.decode (base64.encode bs) ≡ some bs
  pub plain : (bs : Bytes) → All (λ c. is_plain c ≡ true) (base64.encode bs)

abbrev Plain : Bytes → Type 0
Plain = All (λ c. is_plain c ≡ true)

start_width-Plain : (b : ℕ) (bs : Bytes) → is_plain b ≡ true → start_width (b ∷ bs) ≡ 0
start_width-Plain b [] h = ground arith
start_width-Plain b (c ∷ []) h = ground arith
start_width-Plain b (c ∷ d ∷ bs) h = ground arith

end_width-Plain : (d : ℕ) (bs : Bytes) → is_plain d ≡ true → end_width (d ∷ bs) ≡ 0
end_width-Plain d [] h = ground arith
end_width-Plain d (c ∷ []) h = ground arith
end_width-Plain d (c ∷ b ∷ bs) h = ground arith

end_width-line : (bs : Bytes) → end_width (10 ∷ bs) ≡ 1
unfolding is_space
end_width-line [] = refl
end_width-line (c ∷ []) = refl
end_width-line (c ∷ b ∷ bs) = refl

trim_end-Plain : (s : Bytes) → Plain s → trim_from end_width 0 s ≡ s
trim_end-Plain [] h = refl
trim_end-Plain (b ∷ bs) h = rw (end_width-Plain b bs h.0) refl

trim_start-Plain : (s : Bytes) → Plain s → trim_start s ≡ s
unfolding trim_start
trim_start-Plain [] h = refl
trim_start-Plain (b ∷ bs) h = rw (start_width-Plain b bs h.0) refl

reverse-Plain : (s : Bytes) → Plain s → Plain (reverse s)
reverse-Plain [] h = tt
reverse-Plain (b ∷ bs) h =
    rw (reverse-cons b bs)
      (All-append (λ c. is_plain c ≡ true) (reverse bs) (b ∷ []) (reverse-Plain bs h.1) (h.0, tt))

trim-Plain : (s : Bytes) → Plain s → trim s ≡ s
unfolding trim
trim-Plain s h =
    rw (trim_start-Plain s h, trim_end-Plain (reverse s) (reverse-Plain s h)) (reverse-reverse s)

-- A line end after ASCII text that has no white space is trimmed away.
trim-line : (s : Bytes) → Plain s → trim (s ++ (10 ∷ [])) ≡ s
unfolding trim trim_start is_space
trim-line [] h = refl
trim-line (b ∷ bs) h = rw (start_width-Plain b (bs ++ (10 ∷ [])) h.0) (
    rw (reverse-append (b ∷ bs) (10 ∷ [])) (
      rw (end_width-line (reverse (b ∷ bs))) (
        rw (trim_end-Plain (reverse (b ∷ bs)) (reverse-Plain (b ∷ bs) h))
          (reverse-reverse (b ∷ bs)))))

module _ (base64 : Base64) (laws : Base64Laws base64) where
  pub trim-encode_text : (bs : Bytes) → trim (encode_text base64 bs) ≡ base64.encode bs
  unfolding encode_text
  trim-encode_text bs = trim-line (base64.encode bs) (laws.plain bs)

  -- What is kept of an envelope in the history, its trimmed text, is read back too.
  pub decode_text-trimmed :
      (envelope : Bytes) → decode_text base64 (trim (encode_text base64 envelope)) ≡ ok envelope
  unfolding decode_text
  decode_text-trimmed envelope =
      rw
        (
          trim-encode_text envelope,
          trim-Plain (base64.encode envelope) (laws.plain envelope),
          laws.decodes envelope,
        )
        refl

  -- With a base64 that undoes itself and writes ASCII without white space, an envelope, a bundle and a
  -- recovery record each come back from their text form.
  pub texts_round_trip :
      (bs : Bytes)
      → (decode_text base64 (encode_text base64 bs) ≡ ok bs)
        × (decode_bundle base64 (encode_bundle base64 bs) ≡ ok bs)
        × (decode_recovery base64 (encode_recovery base64 bs) ≡ ok bs)
  unfolding encode_text decode_text encode_bundle decode_bundle encode_recovery decode_recovery
  texts_round_trip bs =
      let line = trim-line (base64.encode bs) (laws.plain bs) in
      let d = laws.decodes bs in (rw (line, d) refl, rw (line, d) refl, rw (line, d) refl)
