-- ===== src/Protocol/Layout.antt =====
-- The frame layout that the comment at the top of codebase/relay-protocol/src/lib.rs gives, as
-- plain concatenations, and the encoders against it.
use safechat.Prelude.{
  ℕ, ◌^◌, ◌<◌, ◌≡◌, refl, inl, inr, Option, none, some, List, [], ◌∷◌, ◌++◌, append_assoc,
  append-nil, arith, Result, ok, ◌>>◌, >>=_assoc, bail_if, ltb, ltb→le, lt→ltb, Bool-cases, length,
  as_u64,
}
use safechat.Prelude.Bytes.{Bytes, to_be_bytes}
use safechat.Protocol.{
  version, schema, kind_submit, kind_messages, max_messages, max_body, max_recipient_bytes,
  max_message_id_bytes, max_address_bytes, max_ciphertext_bytes, Submit, Message, Field, Error,
  exceeds_limit, body_too_large, too_many_messages,
}
use safechat.Protocol.Writer.{
  header, put_bytes, put_string, put_expiry, check_body, encode_submit, put_address, put_message,
  put_messages, encode_messages,
}

-- version:u16 | schema:u16 | kind:u8
abbrev pub header_layout : ℕ → Bytes
header_layout kind = to_be_bytes 2 version ++ (to_be_bytes 2 schema ++ (kind ∷ []))

-- A length in four bytes, and the bytes.
abbrev pub bytes_layout : Bytes → Bytes
bytes_layout value = to_be_bytes 4 (length value) ++ value

abbrev pub expiry_layout : Option ℕ → Bytes
expiry_layout none = 0 ∷ []
expiry_layout (some value) = 1 ∷ to_be_bytes 8 value

abbrev pub address_layout : Option Bytes → Bytes
address_layout none = 0 ∷ []
address_layout (some address) = 1 ∷ bytes_layout address

abbrev pub submit_payload : Submit → Bytes
submit_payload v =
    bytes_layout v.recipient
    ++ (bytes_layout v.message_id ++ (expiry_layout v.expires_at ++ bytes_layout v.ciphertext))

abbrev pub submit_layout : Submit → Bytes
submit_layout v = header_layout kind_submit ++ submit_payload v

abbrev pub message_layout : Message → Bytes
message_layout m =
    to_be_bytes 8 (as_u64 m.server_id)
    ++ (bytes_layout m.sender
        ++ (address_layout m.sender_address
            ++ (bytes_layout m.message_id
                ++ (to_be_bytes 8 m.accepted_at
                    ++ (expiry_layout m.expires_at ++ bytes_layout m.ciphertext)))))

abbrev pub messages_payload : List Message → Bytes
messages_payload [] = []
messages_payload (m ∷ ms) = message_layout m ++ messages_payload ms

abbrev pub messages_layout : List Message → Bytes
messages_layout ms =
    header_layout kind_messages ++ (to_be_bytes 4 (length ms) ++ messages_payload ms)

header_lem : (kind : ℕ) → header kind [] ≡ header_layout kind
unfolding header
header_lem kind = simp append_assoc

put_expiry_lem :
    (output : Bytes) (value : Option ℕ) → put_expiry output value ≡ output ++ expiry_layout value
unfolding put_expiry
put_expiry_lem output none = refl
put_expiry_lem output (some v) = simp append_assoc

put_bytes_lem :
    (output value : Bytes) (limit : ℕ) (f : Field)
    → limit < 2 ^ 32
    → put_bytes output value limit f
      ≡ (do bail_if (ltb limit (length value)) (exceeds_limit f); ok (output ++ bytes_layout value))
unfolding put_bytes
put_bytes_lem output value limit f small =
    ground (arith, append_assoc output (to_be_bytes 4 (length value)) value)

put_text :
    (output value : Bytes) (f : Field)
    → put_string output value 256 f
      ≡ (do bail_if (ltb 256 (length value)) (exceeds_limit f); ok (output ++ bytes_layout value))
unfolding put_string
put_text output value f = put_bytes_lem output value 256 f (omega arith)

put_ciphertext :
    (output value : Bytes) (f : Field)
    → put_bytes output value max_ciphertext_bytes f ≡ (do
      bail_if (ltb max_ciphertext_bytes (length value)) (exceeds_limit f)
      ok (output ++ bytes_layout value))
put_ciphertext output value f = put_bytes_lem output value max_ciphertext_bytes f (omega arith)

ruleset layouts = (put_text, put_ciphertext, header_lem, put_expiry_lem, append_assoc, >>=_assoc)

-- `encode_submit` makes the four size checks, in this order, and then returns the layout.
pub encode_submit-layout :
    (v : Submit)
    → encode_submit v ≡ (do
      bail_if (ltb max_recipient_bytes (length v.recipient)) (exceeds_limit Field.recipient)
      bail_if (ltb max_message_id_bytes (length v.message_id)) (exceeds_limit Field.message_id)
      bail_if (ltb max_ciphertext_bytes (length v.ciphertext)) (exceeds_limit Field.ciphertext)
      bail_if (ltb max_body (length (submit_layout v))) body_too_large
      ok (submit_layout v))
unfolding encode_submit check_body
encode_submit-layout v = simp layouts

-- The size checks on one message and on all of them, in the order of the fields.
abbrev pub address_check : Option Bytes → Result Error (Unit {0})
address_check none = ok tt
address_check (some address) =
    bail_if (ltb 256 (length address)) (exceeds_limit Field.sender_address)

abbrev pub message_check : Message → Result Error (Unit {0})
message_check m = do
  bail_if (ltb max_address_bytes (length m.sender)) (exceeds_limit Field.sender)
  address_check m.sender_address
  bail_if (ltb max_message_id_bytes (length m.message_id)) (exceeds_limit Field.message_id)
  bail_if (ltb max_ciphertext_bytes (length m.ciphertext)) (exceeds_limit Field.ciphertext)

abbrev pub messages_check : List Message → Result Error (Unit {0})
messages_check [] = ok tt
messages_check (m ∷ ms) = message_check m >> messages_check ms

put_address_lem :
    (output : Bytes) (o : Option Bytes)
    → put_address output o ≡ (do address_check o; ok (output ++ address_layout o))
unfolding put_address
put_address_lem output none = refl
put_address_lem output (some address) = simp layouts

put_message_lem :
    (output : Bytes) (m : Message)
    → put_message output m ≡ (do message_check m; ok (output ++ message_layout m))
unfolding put_message
put_message_lem output m = simp (layouts, put_address_lem)

put_messages_lem :
    (output : Bytes) (ms : List Message)
    → put_messages output ms ≡ (do messages_check ms; ok (output ++ messages_payload ms))
unfolding put_messages
put_messages_lem output [] = rw append-nil
put_messages_lem output (m ∷ ms) =
    simp (put_message_lem, λ (o : Bytes). put_messages_lem o ms, append_assoc, >>=_assoc)

-- `encode_messages` checks the count, each message in turn and the whole body, and then returns
-- the layout: its count never overflows.
pub encode_messages-layout :
    (ms : List Message)
    → encode_messages ms ≡ (do
      bail_if (ltb max_messages (length ms)) too_many_messages
      messages_check ms
      bail_if (ltb max_body (length (messages_layout ms))) body_too_large
      ok (messages_layout ms))
unfolding encode_messages check_body
encode_messages-layout ms = elim (Bool-cases (ltb max_messages (length ms))) [
  | inl many ↦ rw many
  | inr few ↦
      rw (few, lt→ltb (length ms) (2 ^ 32) (omega (arith, ltb→le max_messages (length ms) few)))
        (simp (header_lem, put_messages_lem, append_assoc, >>=_assoc))
]
