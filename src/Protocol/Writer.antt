-- ===== src/Protocol/Writer.antt =====
-- The encoders of codebase/relay-protocol/src/lib.rs. `output` is the vector that they extend.
use safechat.Prelude.{
  ℕ, ◌^◌, Option, none, some, List, [], ◌∷◌, ◌++◌, Result, ok, ◌>>=◌, ◌>>◌, bail_if, ok_or, ltb,
  if◌then◌else◌, length, as_u64,
}
use safechat.Prelude.Bytes.{Bytes, to_be_bytes}
use safechat.Protocol.{
  version, schema, kind_submit, kind_messages, max_messages, max_body, max_recipient_bytes,
  max_message_id_bytes, max_address_bytes, max_ciphertext_bytes, Submit, Message, Field, Error,
  recipient, message_id, ciphertext, sender, sender_address, exceeds_limit, length_overflow,
  count_overflow, too_many_messages, body_too_large,
}

unfoldable pub header : ℕ → Bytes → Bytes
header kind output = ((output ++ to_be_bytes 2 version) ++ to_be_bytes 2 schema) ++ (kind ∷ [])

-- `u32::try_from`
abbrev pub try_u32 : ℕ → Option ℕ
try_u32 n = if ltb n (2 ^ 32) then some n else none

unfoldable pub put_bytes : Bytes → Bytes → ℕ → Field → Result Error Bytes
put_bytes output value limit field = do
  bail_if (ltb limit (length value)) (exceeds_limit field)
  len ← ok_or (try_u32 (length value)) length_overflow
  ok ((output ++ to_be_bytes 4 len) ++ value)

unfoldable pub put_string : Bytes → Bytes → ℕ → Field → Result Error Bytes
put_string output value limit field = put_bytes output value limit field

unfoldable pub put_expiry : Bytes → Option ℕ → Bytes
put_expiry output (some value) = (output ++ (1 ∷ [])) ++ to_be_bytes 8 value
put_expiry output none = output ++ (0 ∷ [])

unfoldable pub check_body : Bytes → Result Error (Unit {0})
check_body output = bail_if (ltb max_body (length output)) body_too_large

unfoldable pub encode_submit : Submit → Result Error Bytes
encode_submit value = do
  let output = header kind_submit []
  output ← put_string output value.recipient max_recipient_bytes recipient
  output ← put_string output value.message_id max_message_id_bytes message_id
  let output = put_expiry output value.expires_at
  output ← put_bytes output value.ciphertext max_ciphertext_bytes ciphertext
  check_body output
  ok output

unfoldable pub put_address : Bytes → Option Bytes → Result Error Bytes
put_address output (some address) =
    put_string (output ++ (1 ∷ [])) address max_address_bytes sender_address
put_address output none = ok (output ++ (0 ∷ []))

-- The body of the loop of `encode_messages`.
unfoldable pub put_message : Bytes → Message → Result Error Bytes
put_message output message = do
  let output = output ++ to_be_bytes 8 (as_u64 message.server_id)
  output ← put_string output message.sender max_address_bytes sender
  output ← put_address output message.sender_address
  output ← put_string output message.message_id max_message_id_bytes message_id
  let output = output ++ to_be_bytes 8 message.accepted_at
  let output = put_expiry output message.expires_at
  put_bytes output message.ciphertext max_ciphertext_bytes ciphertext

unfoldable pub put_messages : Bytes → List Message → Result Error Bytes
put_messages output [] = ok output
put_messages output (message ∷ messages) = do
  output ← put_message output message
  put_messages output messages

unfoldable pub encode_messages : List Message → Result Error Bytes
encode_messages messages = do
  bail_if (ltb max_messages (length messages)) too_many_messages
  let output = header kind_messages []
  count ← ok_or (try_u32 (length messages)) count_overflow
  output ← put_messages (output ++ to_be_bytes 4 count) messages
  check_body output
  ok output
