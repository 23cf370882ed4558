-- ===== src/Frames/RoundTrip.antt =====
-- codebase/core/src/signal_adapter.rs: the decoders after the encoders.
use safechat.Prelude.{
  ℕ, ◌+◌, ◌^◌, ◌≤◌, ◌<◌, ◌≡◌, refl, sym, ap, ◌∙◌, inl, inr, ◌⊎◌, true, false, ◌&&◌, Bool-cases, [],
  ◌∷◌, ◌++◌, ok, Result-cases, ltb, leb, length, get_or, All, take, drop, length-append,
  take-append, drop-append, drop-drop, arith,
}
use safechat.Prelude.Bytes.{
  Bytes, IsByte, to_be_bytes-from_be_bytes, to_be_bytes, from_be_bytes, length-to_be_bytes,
  from_be_bytes-to_be_bytes,
}
use safechat.Frames.{
  SafeChatMessage, SignalEnvelope, Zlib, CiphertextTypes, frame, frame_message,
  frame_message_compressed, u32_at, try_u32, message_id_from_bytes, encode_message, decode_message,
  decode_plain, decode_compressed, encode_envelope, decode_envelope, is_supported,
  min_compressible_message_len, encode_compressed, format_version, frame_envelope, max_message_len,
  max_ciphertext_len,
}

-- The fields of a message's frame.
record IsFrame (input id : Bytes) (original stored : ℕ) (body : Bytes) : Type 0 where
  size : length input ≡ 26 + length body
  id_field : take 16 (drop 2 input) ≡ id
  original_field : u32_at 18 input ≡ original
  stored_field : u32_at 22 input ≡ stored
  body_field : drop 26 input ≡ body

drop_next :
    (m n k : ℕ) (xs ys zs : Bytes)
    → m + n ≡ k
    → length ys ≡ n
    → drop m xs ≡ ys ++ zs
    → drop k xs ≡ zs
drop_next m n k xs ys zs e l h =
    sym (drop-drop m n k xs e) ∙ (ap (drop n) h ∙ drop-append ys zs n l)

u32_next :
    (start v : ℕ) (xs zs : Bytes)
    → v < 2 ^ 32
    → drop start xs ≡ to_be_bytes 4 v ++ zs
    → u32_at start xs ≡ v
u32_next start v xs zs b h =
    ap (λ ys. from_be_bytes (take 4 ys)) h
    ∙ (ap from_be_bytes (take-append (to_be_bytes 4 v) zs 4 (length-to_be_bytes 4 v))
        ∙ from_be_bytes-to_be_bytes 4 v (omega arith))

frame-IsFrame :
    (kind : ℕ) (id : Bytes) (original stored : ℕ) (body : Bytes)
    → length id ≡ 16
    → original < 2 ^ 32
    → stored < 2 ^ 32
    → IsFrame (frame kind id original stored body) id original stored body
frame-IsFrame kind id original stored body l bo bs =
    let input = frame kind id original stored body in
    let after_id = drop_next 2 16 18 input id _ refl l refl in
    let after_original =
      drop_next 18 4 22 input (to_be_bytes 4 original) _ refl (length-to_be_bytes 4 original)
        after_id in
    let after_stored =
      drop_next 22 4 26 input (to_be_bytes 4 stored) body refl (length-to_be_bytes 4 stored)
        after_original in
    record {
      size = omega (
        arith,
        length-append id (to_be_bytes 4 original ++ (to_be_bytes 4 stored ++ body)),
        length-append (to_be_bytes 4 original) (to_be_bytes 4 stored ++ body),
        length-append (to_be_bytes 4 stored) body,
        length-to_be_bytes 4 original,
        length-to_be_bytes 4 stored,
      );
      id_field = take-append id _ 16 l;
      original_field = u32_next 18 original input _ bo after_id;
      stored_field = u32_next 22 stored input _ bs after_original;
      body_field = after_stored;
    }

-- A decoder that reads what the encoder wrote reads at least as much as is asked for.
pub record ZlibLaws (zlib : Zlib) : Type 0 where
  pub undoes :
      (bytes compressed : Bytes) (limit : ℕ)
      → zlib.compress bytes ≡ ok compressed
      → length bytes ≤ limit
      → zlib.decompress_at_most limit compressed ≡ ok bytes

two_read : (id p : Bytes) (n k kind : ℕ) → ltb (length (frame kind id n k p)) 2 ≡ false
two_read id p n k kind = ground arith

module _ (zlib : Zlib) (laws : ZlibLaws zlib) where
  plain_back :
      (input : Bytes) (m : SafeChatMessage)
      → IsFrame input m.id (length m.plaintext) (length m.plaintext) m.plaintext
      → length m.id ≡ 16
      → length m.plaintext ≤ max_message_len
      → decode_plain zlib input ≡ ok m
  unfolding decode_plain message_id_from_bytes
  plain_back input m f l fits =
      rw (f.id_field, f.original_field, f.stored_field, f.body_field) (ground (arith, f.size))

  compressed_back :
      (input : Bytes) (m : SafeChatMessage) (z : Bytes)
      → IsFrame input m.id (length m.plaintext) (length z) z
      → length m.id ≡ 16
      → length m.plaintext ≤ max_message_len
      → length z < length m.plaintext
      → zlib.compress m.plaintext ≡ ok z
      → decode_compressed zlib input ≡ ok m
  unfolding decode_compressed message_id_from_bytes
  compressed_back input m z f l fits less e =
      let back = laws.undoes m.plaintext z (length m.plaintext + 1) e (omega arith) in
      rw (f.id_field, f.original_field, f.stored_field, f.body_field, back) (ground (arith, f.size))

  opens_plain :
      (id p : Bytes) (n k : ℕ)
      → let input = frame frame_message id n k p in
        decode_message zlib input ≡ decode_plain zlib input
  unfolding decode_message
  opens_plain id p n k = rw (two_read id p n k frame_message) refl

  opens_compressed :
      (id p : Bytes) (n k : ℕ)
      → let input = frame frame_message_compressed id n k p in
        decode_message zlib input ≡ decode_compressed zlib input
  unfolding decode_message
  opens_compressed id p n k = rw (two_read id p n k frame_message_compressed) refl

  -- What the encoder has tested and written.
  abbrev Written : SafeChatMessage → Bytes → Type 0
  Written m input =
      (length m.plaintext ≤ max_message_len)
      × ((input ≡ frame frame_message m.id (length m.plaintext) (length m.plaintext) m.plaintext)
          ⊎ ((z : Bytes) × (zlib.compress m.plaintext ≡ ok z)
              × (length z < length m.plaintext)
              × (input ≡ frame frame_message_compressed m.id (length m.plaintext) (length z) z)))

  encoded-Written :
      (m : SafeChatMessage) (input : Bytes) → encode_message zlib m ≡ ok input → Written m input
  unfolding encode_message encode_compressed try_u32
  encoded-Written m input e = elim (Result-cases (zlib.compress m.plaintext)) [
    | inl (z, made) ↦
        elim (Bool-cases (
          leb min_compressible_message_len (length m.plaintext)
          && ltb (length z) (length m.plaintext))) [
            | inl shorter ↦ (ground arith, inr (z, made, ground arith, ground arith))
            | inr longer ↦ (ground arith, inl (ground arith))
          ]
    | inr (x, failed) ↦ ground arith
  ]

  -- A message that is encoded is decoded from its frame unchanged, compressed or not, for a
  -- compression that undoes itself.
  pub decode_message-encode_message :
      (m : SafeChatMessage) (input : Bytes)
      → length m.id ≡ 16
      → encode_message zlib m ≡ ok input
      → decode_message zlib input ≡ ok m
  decode_message-encode_message m input l e =
      let (fits, cases) = encoded-Written m input e in
      let n = length m.plaintext in
      elim cases [
        | inl same ↦ rw same (
            opens_plain m.id m.plaintext n n
            ∙ plain_back _ m
                (frame-IsFrame frame_message m.id n n m.plaintext l (omega arith) (omega arith)) l
                fits)
        | inr (z, made, less, same) ↦ rw same (
            opens_compressed m.id z n (length z)
            ∙ compressed_back _ m z
                (frame-IsFrame frame_message_compressed m.id n (length z) z l (omega arith)
                  (omega arith))
                l fits less made)
      ]

module _ (types : CiphertextTypes) where
  abbrev laid_out : SignalEnvelope → Bytes
  laid_out v =
      format_version
      ∷ frame_envelope
      ∷ v.message_type
      ∷ (to_be_bytes 4 (length v.ciphertext) ++ v.ciphertext)

  encoded_envelope :
      (v : SignalEnvelope) (input : Bytes)
      → encode_envelope types v ≡ ok input
      → (is_supported types v.message_type ≡ true)
        × (length v.ciphertext ≤ max_ciphertext_len)
        × (input ≡ laid_out v)
  unfolding encode_envelope try_u32
  encoded_envelope v input e = (ground arith, ground arith, ground arith)

  envelope_back :
      (input : Bytes) (v : SignalEnvelope)
      → (get_or input 0 0 ≡ format_version)
        × (get_or input 1 0 ≡ frame_envelope)
        × (get_or input 2 0 ≡ v.message_type)
      → length input ≡ 7 + length v.ciphertext
      → u32_at 3 input ≡ length v.ciphertext
      → drop 7 input ≡ v.ciphertext
      → is_supported types v.message_type ≡ true
      → length v.ciphertext ≤ max_ciphertext_len
      → decode_envelope types input ≡ ok v
  unfolding decode_envelope
  envelope_back input v (e0, e1, e2) size count body supported fits =
      rw (e0, e1, e2, count, body, supported) (ground (arith, size))

  -- An envelope that is encoded is decoded from its frame unchanged.
  pub decode_envelope-encode_envelope :
      (v : SignalEnvelope) (input : Bytes)
      → encode_envelope types v ≡ ok input
      → decode_envelope types input ≡ ok v
  decode_envelope-encode_envelope v input e =
      let (supported, fits, same) = encoded_envelope v input e in
      let n = length v.ciphertext in
      rw same (
        envelope_back (laid_out v) v (refl, refl, refl)
          (omega (arith, length-append (to_be_bytes 4 n) v.ciphertext, length-to_be_bytes 4 n))
          (u32_next 3 n (laid_out v) v.ciphertext (omega arith) refl)
          (drop-append (to_be_bytes 4 n) v.ciphertext 4 (length-to_be_bytes 4 n)) supported fits)

  -- What a decoder that returns has tested and read.
  decoded_envelope :
      (v : SignalEnvelope) (a b c p q r s : ℕ) (body : Bytes)
      → decode_envelope types (a ∷ b ∷ c ∷ p ∷ q ∷ r ∷ s ∷ body) ≡ ok v
      → (a ≡ format_version)
        × (b ≡ frame_envelope)
        × (is_supported types c ≡ true)
        × (length body ≤ max_ciphertext_len)
        × (from_be_bytes (p ∷ q ∷ r ∷ s ∷ []) ≡ length body)
        × (v ≡ record { message_type = c; ciphertext = body })
  unfolding decode_envelope
  decoded_envelope v a b c p q r s body e =
      (ground arith, ground arith, ground arith, ground arith, ground arith, ground arith)

  -- Only what the encoder writes is decoded: an envelope that was decoded is encoded to the same
  -- bytes.
  pub encode_envelope-decode_envelope :
      (v : SignalEnvelope) (input : Bytes)
      → All IsByte input
      → decode_envelope types input ≡ ok v
      → encode_envelope types v ≡ ok input
  unfolding decode_envelope encode_envelope try_u32
  encode_envelope-decode_envelope v (a ∷ b ∷ c ∷ p ∷ q ∷ r ∷ s ∷ body) bytes e =
      let (ea, eb, supported, fits, count, same) = decoded_envelope v a b c p q r s body e in
      let rest = bytes.1.1.1 in
      let digits = p ∷ q ∷ r ∷ s ∷ [] in
      let back : to_be_bytes 4 (length body) ≡ digits =
        ap (to_be_bytes 4) (sym count)
        ∙ to_be_bytes-from_be_bytes 4 digits (omega arith)
            (rest.0, (rest.1.0, (rest.1.1.0, (rest.1.1.1.0, tt)))) in
      let small : ltb max_ciphertext_len (length body) ≡ false = ground arith in
      let u32 : ltb (length body) (2 ^ 32) ≡ true = ground arith in
      rw (same, ea, eb, supported, small, u32, back) refl
  encode_envelope-decode_envelope v [] bytes e = ground arith
  encode_envelope-decode_envelope v (a ∷ []) bytes e = ground arith
  encode_envelope-decode_envelope v (a ∷ b ∷ []) bytes e = ground arith
  encode_envelope-decode_envelope v (a ∷ b ∷ c ∷ []) bytes e = ground arith
  encode_envelope-decode_envelope v (a ∷ b ∷ c ∷ p ∷ []) bytes e = ground arith
  encode_envelope-decode_envelope v (a ∷ b ∷ c ∷ p ∷ q ∷ []) bytes e = ground arith
  encode_envelope-decode_envelope v (a ∷ b ∷ c ∷ p ∷ q ∷ r ∷ []) bytes e = ground arith
