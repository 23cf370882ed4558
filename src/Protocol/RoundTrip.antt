-- ===== src/Protocol/RoundTrip.antt =====
-- The encoders of codebase/relay-protocol/src/lib.rs followed by the decoders.
use safechat.Prelude.{
  ℕ, zero, suc, ◌+◌, ◌^◌, ◌≤◌, ◌<◌, ◌≡◌, refl, Bool, true, false, Option, none, some, List, [], ◌∷◌,
  ◌++◌, arith, append-nil, append_assoc, Result, ok, err, ◌>>◌, bail_if, ltb, if◌then◌else◌, le→ltb,
  length, All, as_u64, IsI64, IsU64,
}
use safechat.Prelude
use safechat.Prelude.Bytes.{Bytes, to_be_bytes}
use safechat.Prelude.Utf8.{IsText}
use safechat.Protocol.{
  kind_submit, kind_messages, max_messages, max_body, max_recipient_bytes, max_message_id_bytes,
  max_address_bytes, max_ciphertext_bytes, Submit, Message, Field,
}
use safechat.Protocol.Writer.{encode_submit, encode_messages}
use safechat.Protocol.Layout.{
  bytes_layout, expiry_layout, address_layout, submit_layout, submit_payload, message_layout,
  messages_payload, messages_layout, messages_check, message_check, address_check,
  encode_submit-layout, encode_messages-layout,
}
use safechat.Protocol.Reader.{
  read_submit, decode_submit, read_message, read_messages, read_counted, decode_messages, read_u32,
}
use safechat.Protocol.Reads.{
  Reads, ReadsAll, Reads-bind, Reads-map, ReadsAll-bind, ReadsAll-finish, pure-Reads,
  read_string-Reads, read_expiry-Reads, read_bytes-Reads, read_address-Reads, read_i64-Reads,
  read_u64-Reads, read_u32-Reads, new_reader-Holds, IsExpiry, IsAddress,
}

-- What Rust's types say of a submission, and the limits that the encoder checks.
pub record IsSubmit (v : Submit) : Type 0 where
  pub recipient_text : IsText v.recipient
  pub message_id_text : IsText v.message_id
  pub expiry_u64 : IsExpiry v.expires_at

pub record SubmitFits (v : Submit) : Type 0 where
  pub recipient_fits : length v.recipient ≤ max_recipient_bytes
  pub message_id_fits : length v.message_id ≤ max_message_id_bytes
  pub ciphertext_fits : length v.ciphertext ≤ max_ciphertext_bytes
  pub body_fits : length (submit_layout v) ≤ max_body

encode_submit_ok :
    (v : Submit) {o : Bytes} → encode_submit v ≡ ok o → SubmitFits v × (o ≡ submit_layout v)
encode_submit_ok v e = ground (arith, encode_submit-layout v)

read_submit-ReadsAll :
    (v : Submit) → IsSubmit v → SubmitFits v → ReadsAll read_submit (submit_payload v) v
unfolding read_submit
read_submit-ReadsAll v t f =
    ReadsAll-bind _ _ (bytes_layout v.recipient) _ v.recipient
      (read_string-Reads v.recipient max_recipient_bytes Field.recipient f.recipient_fits
        (omega arith) t.recipient_text)
      (ReadsAll-bind _ _ (bytes_layout v.message_id) _ v.message_id
        (read_string-Reads v.message_id max_message_id_bytes Field.message_id f.message_id_fits
          (omega arith) t.message_id_text)
        (ReadsAll-bind _ _ (expiry_layout v.expires_at) _ v.expires_at
          (read_expiry-Reads v.expires_at t.expiry_u64)
          (ReadsAll-finish _ _ (bytes_layout v.ciphertext) v.ciphertext (
            read_bytes-Reads v.ciphertext max_ciphertext_bytes Field.ciphertext f.ciphertext_fits
              (omega arith)))))

-- A submission that `encode_submit` accepts is decoded from its frame unchanged.
pub decode_submit-encode_submit :
    (v : Submit) (frame : Bytes)
    → IsSubmit v
    → encode_submit v ≡ ok frame
    → decode_submit frame ≡ ok v
unfolding decode_submit
decode_submit-encode_submit v frame t e =
    let (f, is_layout) = encode_submit_ok v e in
    let (r, made, holds) = new_reader-Holds kind_submit (submit_payload v) f.body_fits in
    rw (is_layout, made, read_submit-ReadsAll v t f r holds)

pub record IsMessage (m : Message) : Type 0 where
  pub server_id_i64 : IsI64 m.server_id
  pub sender_text : IsText m.sender
  pub address_text : (a : Bytes) → m.sender_address ≡ some a → IsText a
  pub message_id_text : IsText m.message_id
  pub accepted_u64 : IsU64 m.accepted_at
  pub expiry_u64 : IsExpiry m.expires_at

record MessageFits (m : Message) : Type 0 where
  sender_fits : length m.sender ≤ max_address_bytes
  address_fits : (a : Bytes) → m.sender_address ≡ some a → length a ≤ max_address_bytes
  message_id_fits : length m.message_id ≤ max_message_id_bytes
  ciphertext_fits : length m.ciphertext ≤ max_ciphertext_bytes

address_fits_of_check :
    (o : Option Bytes) (a : Bytes)
    → address_check o ≡ ok tt
    → o ≡ some a
    → length a ≤ max_address_bytes
address_fits_of_check none a e h = cc
address_fits_of_check (some b) a e h = ground arith

check-MessageFits : (m : Message) → message_check m ≡ ok tt → MessageFits m
check-MessageFits m e = record {
  sender_fits = ground arith;
  address_fits = λ a h. address_fits_of_check m.sender_address a (ground arith) h;
  message_id_fits = ground arith;
  ciphertext_fits = ground arith;
}

IsAddress-intro :
    (o : Option Bytes)
    → ((a : Bytes) → o ≡ some a → IsText a)
    → ((a : Bytes) → o ≡ some a → length a ≤ max_address_bytes)
    → IsAddress o
IsAddress-intro none t f = tt
IsAddress-intro (some a) t f = (f a refl, t a refl)

read_message-Reads :
    (m : Message) → IsMessage m → MessageFits m → Reads read_message (message_layout m) m
unfolding read_message
read_message-Reads m t f =
    Reads-bind _ _ (to_be_bytes 8 (as_u64 m.server_id)) _ m.server_id
      (read_i64-Reads m.server_id t.server_id_i64)
      (Reads-bind _ _ (bytes_layout m.sender) _ m.sender
        (read_string-Reads m.sender max_address_bytes Field.sender f.sender_fits (omega arith)
          t.sender_text)
        (Reads-bind _ _ (address_layout m.sender_address) _ m.sender_address
          (read_address-Reads m.sender_address
            (IsAddress-intro m.sender_address t.address_text f.address_fits))
          (Reads-bind _ _ (bytes_layout m.message_id) _ m.message_id
            (read_string-Reads m.message_id max_message_id_bytes Field.message_id f.message_id_fits
              (omega arith) t.message_id_text)
            (Reads-bind _ _ (to_be_bytes 8 m.accepted_at) _ m.accepted_at
              (read_u64-Reads m.accepted_at t.accepted_u64)
              (Reads-bind _ _ (expiry_layout m.expires_at) _ m.expires_at
                (read_expiry-Reads m.expires_at t.expiry_u64)
                (Reads-map _ _ (bytes_layout m.ciphertext) m.ciphertext (
                  read_bytes-Reads m.ciphertext max_ciphertext_bytes Field.ciphertext
                    f.ciphertext_fits (omega arith))))))))

read_messages-Reads :
    (ms : List Message)
    → All IsMessage ms
    → messages_check ms ≡ ok tt
    → Reads (read_messages (length ms)) (messages_payload ms) ms
unfolding read_messages
read_messages-Reads [] t e = pure-Reads []
read_messages-Reads (m ∷ ms) t e =
    let (_, here, later) = Prelude.>>=-eq-ok (message_check m) (λ _. messages_check ms) e in
    Reads-bind read_message _ (message_layout m) (messages_payload ms) m
      (read_message-Reads m t.0 (check-MessageFits m here))
      (Reads-map (read_messages (length ms)) (λ rest. m ∷ rest) (messages_payload ms) ms
        (read_messages-Reads ms t.1 later))

encode_messages_ok :
    (ms : List Message) {o : Bytes}
    → encode_messages ms ≡ ok o
    → (length ms ≤ max_messages)
      × (messages_check ms ≡ ok tt)
      × (length (messages_layout ms) ≤ max_body)
      × (o ≡ messages_layout ms)
encode_messages_ok ms e = ground (arith, encode_messages-layout ms)

read_counted-ReadsAll :
    (ms : List Message)
    → All IsMessage ms
    → length ms ≤ max_messages
    → messages_check ms ≡ ok tt
    → ReadsAll read_counted (to_be_bytes 4 (length ms) ++ messages_payload ms) ms
unfolding read_counted
read_counted-ReadsAll ms t few checked =
    ReadsAll-bind read_u32 _ (to_be_bytes 4 (length ms)) (messages_payload ms) (length ms)
      (read_u32-Reads (length ms) (omega arith))
      (rw (le→ltb max_messages (length ms) few) (
        ReadsAll-finish (read_messages (length ms)) (λ x. x) (messages_payload ms) ms
          (read_messages-Reads ms t checked)))

-- A list of messages that `encode_messages` accepts is decoded from its frame unchanged.
pub decode_messages-encode_messages :
    (ms : List Message) (frame : Bytes)
    → All IsMessage ms
    → encode_messages ms ≡ ok frame
    → decode_messages frame ≡ ok ms
unfolding decode_messages
decode_messages-encode_messages ms frame t e =
    let (few, checked, fits, is_layout) = encode_messages_ok ms e in
    let (r, made, holds) = new_reader-Holds kind_messages _ fits in
    rw (is_layout, made, read_counted-ReadsAll ms t few checked r holds)
