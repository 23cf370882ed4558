-- ===== src/Relay/Validation.antt =====
-- codebase/relay/src/validation.rs: media types, Accept headers, sizes and encodings.
use safechat.Prelude.{
  ℕ, Bool, true, false, ◌&&◌, ◌||◌, not, Option, none, some, List, [], ◌∷◌, map, Result, ok, err,
  ◌>>=◌, ◌>>◌, bail_if, ok_or, map_err, ltb, if◌then◌else◌, length, ℤ,
}
use safechat.Prelude.Bytes.{Bytes, bytes_eq, codes}
use safechat.Prelude.Text.{split, trim, to_ascii_lowercase, contains}
use safechat.Protocol.{Submit, Message}
use safechat.Protocol.Reader.{decode_submit}
use safechat.Protocol.Writer.{encode_messages}
use safechat.Relay.{
  Invalid, unsupported_media_type, not_json_content, not_json_accept, header_not_text,
  unsupported_accept_parameters, unsupported_accept, not_binary_accept, not_binary_content,
  text_too_long, decoded_too_long, not_base64, frame,
}
use safechat.Relay.Sql.{exists}
use safechat.Relay.Host.{Host, Headers}

abbrev pub json_media_type : Bytes
json_media_type = codes "application/json"

abbrev pub binary_media_type : Bytes
binary_media_type = codes "application/octet-stream"

abbrev pub any_media_type : Bytes
any_media_type = codes "*/*"

-- `messages::MessageResponse`: the ciphertext is base64 text.
pub record MessageResponse : Type 0 where
  pub server_id : ℤ
  pub sender : Bytes
  pub sender_address : Option Bytes
  pub message_id : Bytes
  pub ciphertext : Bytes
  pub accepted_at : ℕ
  pub expires_at : Option ℕ

-- The first of the parts of `split`.
abbrev first_part : List Bytes → Bytes
first_part [] = []
first_part (part ∷ parts) = part

unfoldable pub validate_text : Bytes → ℕ → Result Invalid (Unit {0})
validate_text value limit = bail_if (ltb limit (length value)) text_too_long

module _ {Key : Type 0} (host : Host Key) where
  unfoldable pub media_type_of : Bytes → Result Invalid (Option Bytes)
  media_type_of value = do
    text ← ok_or (host.to_str value) header_not_text
    let value = to_ascii_lowercase (trim (first_part (split b';' text)))
    (if bytes_eq value json_media_type || bytes_eq value binary_media_type
        then ok (some value)
        else err unsupported_media_type)

  unfoldable pub media_type : Headers → Bytes → Result Invalid (Option Bytes)
  media_type headers name = elim (headers name) [
    | none ↦ ok none
    | some value ↦ media_type_of value
  ]

  -- `... .as_deref() != Some(expected)`
  abbrev is_type : Option Bytes → Bytes → Bool
  is_type none expected = false
  is_type (some value) expected = bytes_eq value expected

  unfoldable pub require_json_content : Headers → Result Invalid (Unit {0})
  require_json_content headers = do
    found ← media_type headers (codes "content-type")
    bail_if (not (is_type found json_media_type)) not_json_content

  unfoldable pub validate_optional_json_content : Headers → Result Invalid (Unit {0})
  validate_optional_json_content headers = elim (headers (codes "content-type")) [
    | none ↦ ok tt
    | some _ ↦ require_json_content headers
  ]

  -- The trimmed parts of the Accept header.
  unfoldable pub accept_values : Bytes → Result Invalid (List Bytes)
  accept_values value = do
    text ← ok_or (host.to_str value) header_not_text
    ok (map trim (split b',' text))

  abbrev is_empty : List Bytes → Bool
  is_empty [] = true
  is_empty (x ∷ xs) = false

  unfoldable pub validate_json_accept_value : Bytes → Result Invalid (Unit {0})
  validate_json_accept_value value = do
    values ← accept_values value
    bail_if
        (is_empty values
          || exists
              (λ part.
                bytes_eq part []
                || not (bytes_eq part json_media_type) && not (bytes_eq part any_media_type))
              values)
        not_json_accept

  unfoldable pub validate_json_accept : Headers → Result Invalid (Unit {0})
  validate_json_accept headers = elim (headers (codes "accept")) [
    | none ↦ ok tt
    | some value ↦ validate_json_accept_value value
  ]

  unfoldable pub decode_bounded_base64 : Bytes → ℕ → ℕ → Result Invalid Bytes
  decode_bounded_base64 value encoded_limit decoded_limit = do
    validate_text value encoded_limit
    decoded ← ok_or (host.b64decode value) not_base64
    bail_if (ltb decoded_limit (length decoded)) decoded_too_long
    ok decoded

  unfoldable pub wants_binary_value : Bytes → Result Invalid Bool
  wants_binary_value value = do
    values ← accept_values value
    bail_if (is_empty values || exists (λ part. bytes_eq part [] || contains b';' part) values)
        unsupported_accept_parameters
    bail_if
        (exists
          (λ part.
            not (bytes_eq part json_media_type)
            && (not (bytes_eq part binary_media_type) && not (bytes_eq part any_media_type)))
          values)
        unsupported_accept
    ok (exists (λ part. bytes_eq part binary_media_type || bytes_eq part any_media_type) values)

  unfoldable pub wants_binary : Headers → Result Invalid Bool
  wants_binary headers = elim (headers (codes "accept")) [
    | none ↦ ok false
    | some value ↦ wants_binary_value value
  ]

  unfoldable pub require_binary_accept : Headers → Result Invalid (Unit {0})
  require_binary_accept headers = do
    wanted ← wants_binary headers
    bail_if (not wanted) not_binary_accept

  unfoldable pub decode_message_request : Headers → Bytes → Result Invalid Submit
  decode_message_request headers body = do
    found ← media_type headers (codes "content-type")
    bail_if (not (is_type found binary_media_type)) not_binary_content
    map_err frame (decode_submit body)

  unfoldable pub binary_message : MessageResponse → Option Message
  binary_message message = elim (host.b64decode message.ciphertext) [
    | none ↦ none
    | some ciphertext ↦ some (record {
      server_id = message.server_id;
      sender = message.sender;
      sender_address = message.sender_address;
      message_id = message.message_id;
      accepted_at = message.accepted_at;
      expires_at = message.expires_at;
      ciphertext = ciphertext;
    })
  ]

  -- `collect` into a result: the first failure wins.
  unfoldable pub binary_messages : List MessageResponse → Option (List Message)
  binary_messages [] = some []
  binary_messages (message ∷ messages) = elim (binary_message message) [
    | none ↦ none
    | some m ↦ elim (binary_messages messages) [ none ↦ none | some ms ↦ some (m ∷ ms) ]
  ]

  unfoldable pub encode_binary_messages : List MessageResponse → Option Bytes
  encode_binary_messages messages = elim (binary_messages messages) [
    | none ↦ none
    | some ms ↦ elim (encode_messages ms) [ ok body ↦ some body | err _ ↦ none ]
  ]
