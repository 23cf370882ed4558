-- ===== src/Frames/Tests.antt =====
-- codebase/core/src/signal_adapter.rs: frames, with a stand-in for compression that stores.
use safechat.Prelude.{◌≡◌, refl, [], ◌∷◌, ◌++◌, Result, ok, err, All, arith}
use safechat.Prelude.Bytes.{Bytes, IsByte, codes, to_be_bytes, from_be_bytes}
use safechat.Frames.{
  SafeChatMessage, SignalEnvelope, Zlib, CiphertextTypes, encode_message, decode_message,
  encode_envelope, decode_envelope,
}
use safechat.Frames.RoundTrip.{
  ZlibLaws, decode_message-encode_message, decode_envelope-encode_envelope,
  encode_envelope-decode_envelope,
}

-- Nothing is compressed.
abbrev stored : Zlib
stored = record { compress = λ bytes. ok bytes; decompress_at_most = λ limit bytes. ok bytes }

stored_laws : ZlibLaws stored
stored_laws = record { undoes = λ bytes compressed limit e fits. e' bytes compressed e }
  where
    e' :
        (bytes compressed : Bytes)
        → ◌≡◌ {A = Result Bytes Bytes} (ok bytes) (ok compressed)
        → ◌≡◌ {A = Result Bytes Bytes} (ok compressed) (ok bytes)
    e' bytes compressed e = cc

abbrev message_id : Bytes
message_id = codes "0123456789abcdef"

abbrev hello : SafeChatMessage
hello = record { id = message_id; plaintext = codes "hi" }

abbrev hello_frame : Bytes
hello_frame = 1 ∷ 4 ∷ codes "0123456789abcdef" ++ (0 ∷ 0 ∷ 0 ∷ 2 ∷ 0 ∷ 0 ∷ 0 ∷ 2 ∷ codes "hi")

hello_encoded : encode_message stored hello ≡ ok hello_frame
unfolding encode_message to_be_bytes
hello_encoded = refl

-- A compressed frame, and one whose text is longer than its first length says.
compressed_decoded :
    decode_message stored (1 ∷ 5 ∷ (message_id ++ (0 ∷ 0 ∷ 0 ∷ 2 ∷ 0 ∷ 0 ∷ 0 ∷ 2 ∷ codes "hi")))
    ≡ ok hello
unfolding decode_message from_be_bytes
compressed_decoded = refl

longer_than_said :
    decode_message stored (1 ∷ 5 ∷ (message_id ++ (0 ∷ 0 ∷ 0 ∷ 1 ∷ 0 ∷ 0 ∷ 0 ∷ 2 ∷ codes "hi")))
    ≡ err (codes "decompressed SafeChat message length mismatch")
unfolding decode_message from_be_bytes
longer_than_said = refl

cut_off : decode_message stored (1 ∷ 4 ∷ message_id) ≡ err (codes "truncated SafeChat message")
unfolding decode_message
cut_off = refl

decode_message-encode_message_example : decode_message stored hello_frame ≡ ok hello
decode_message-encode_message_example =
    decode_message-encode_message stored stored_laws hello hello_frame refl hello_encoded

abbrev types : CiphertextTypes
types = record { whisper = 2; prekey = 3 }

abbrev envelope : SignalEnvelope
envelope = record { message_type = 2; ciphertext = 9 ∷ 8 ∷ [] }

abbrev envelope_frame : Bytes
envelope_frame = 1 ∷ 3 ∷ 2 ∷ 0 ∷ 0 ∷ 0 ∷ 2 ∷ 9 ∷ 8 ∷ []

envelope_encoded : encode_envelope types envelope ≡ ok envelope_frame
unfolding encode_envelope to_be_bytes
envelope_encoded = refl

envelope_decoded : decode_envelope types envelope_frame ≡ ok envelope
unfolding decode_envelope from_be_bytes
envelope_decoded = refl

decode_envelope-encode_envelope_example : decode_envelope types envelope_frame ≡ ok envelope
decode_envelope-encode_envelope_example =
    decode_envelope-encode_envelope types envelope envelope_frame envelope_encoded

envelope_bytes : All IsByte envelope_frame
envelope_bytes = (
  omega arith,
  (
    omega arith,
    (
      omega arith,
      (omega arith, (omega arith, (omega arith, (omega arith, (omega arith, (omega arith, tt)))))),
    ),
  ),
)

encode_envelope-decode_envelope_example : encode_envelope types envelope ≡ ok envelope_frame
encode_envelope-decode_envelope_example =
    encode_envelope-decode_envelope types envelope envelope_frame envelope_bytes envelope_decoded
