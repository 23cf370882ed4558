-- ===== src/Relay/Tests/Resend.antt =====
-- A message of codebase/relay/src/messages.rs that is submitted twice, each time with a new nonce.
use safechat.Prelude.{◌≡◌, refl, ◌||◌, none, some, [], ◌∷◌, ◌++◌, ok, as_u64, as_i64, if◌then◌else◌}
use safechat.Prelude.Bytes.{Bytes, bytes_eq, codes, to_be_bytes, from_be_bytes}
use safechat.Prelude.Utf8.{is_utf8, utf8_from, lead}
use safechat.Prelude.Text.{
  strip_prefix, parse_u64, digits_from, split, split_step, trim, trim_start, is_space,
  to_ascii_lowercase, contains,
}
use safechat.Protocol.{Submit}
use safechat.Protocol.Reader.{
  decode_submit, read_submit, new_reader, take, get_range, read_u8, read_u32, read_u64, read_bytes,
  read_string, read_expiry, expiry_of_flag, finish,
}
use safechat.Protocol.Writer.{
  encode_messages, put_messages, put_message, put_bytes, put_string, put_address, put_expiry,
  check_body,
}
use safechat.Protocol.Writer
use safechat.Relay.Sql.{query_row, delete, exists, insert_or_ignore}
use safechat.Relay.Host.{Headers}
use safechat.Relay.Service.{World, ◌>>=◌}
use safechat.Relay.Service.Returns.{returns}
use safechat.Relay.Validation.{
  MessageResponse, require_binary_accept, wants_binary, wants_binary_value, accept_values,
  encode_binary_messages, binary_messages, binary_message, decode_message_request, media_type,
  media_type_of,
}
use safechat.Relay.Auth.{
  hex, hash, bearer, header, is_allowed, find_device, signed_request, record_nonce,
  verify_signature, authenticate_request,
}
use safechat.Relay.Messages.{insert_message, store_message, send, to_response}
use safechat.Relay.Messages.Resend.{resend_unchanged}
use safechat.Relay.Tests.{demo, world, signed_headers}

-- A submission of alice's to her own device, under a nonce.
abbrev submit_headers : Bytes → Headers
submit_headers nonce name =
    if bytes_eq name (codes "x-safechat-nonce")
    then some nonce
    else if bytes_eq name (codes "content-type") || bytes_eq name (codes "accept")
    then some (codes "application/octet-stream")
    else signed_headers name

abbrev submit_body : Bytes
submit_body =
    0 ∷ 1 ∷ 0 ∷ 1 ∷ 1 ∷ 0 ∷ 0 ∷ 0 ∷ 1 ∷ 65 ∷ 0 ∷ 0 ∷ 0 ∷ 1 ∷ 107 ∷ 0 ∷ 0 ∷ 0 ∷ 0 ∷ 2 ∷ 104 ∷ 105
    ∷ []

-- The same message with another ciphertext.
abbrev other_body : Bytes
other_body =
    0 ∷ 1 ∷ 0 ∷ 1 ∷ 1 ∷ 0 ∷ 0 ∷ 0 ∷ 1 ∷ 65 ∷ 0 ∷ 0 ∷ 0 ∷ 1 ∷ 107 ∷ 0 ∷ 0 ∷ 0 ∷ 0 ∷ 2 ∷ 104 ∷ 111
    ∷ []

abbrev submitted : Bytes → Submit
submitted ciphertext = record {
  recipient = codes "A";
  message_id = codes "k";
  expires_at = none;
  ciphertext = ciphertext;
}

abbrev sent_once : World
sent_once = (send demo (submit_headers (codes "n1")) submit_body world).1

abbrev sent_again : World
sent_again = (send demo (submit_headers (codes "n2")) other_body sent_once).1

abbrev frame_with : Bytes → Bytes
frame_with address =
    0
    ∷ 1
    ∷ 0
    ∷ 1
    ∷ 2
    ∷ 0
    ∷ 0
    ∷ 0
    ∷ 1
    ∷ 0
    ∷ 0
    ∷ 0
    ∷ 0
    ∷ 0
    ∷ 0
    ∷ 0
    ∷ 8
    ∷ 0
    ∷ 0
    ∷ 0
    ∷ 1
    ∷ 97
    ∷ (address
        ++ (0 ∷ 0 ∷ 0 ∷ 1 ∷ 107 ∷ 0 ∷ 0 ∷ 0 ∷ 0 ∷ 0 ∷ 0 ∷ 3 ∷ 232 ∷ 0 ∷ 0 ∷ 0 ∷ 0 ∷ 2 ∷ 104 ∷ 105
            ∷ []))

abbrev first_frame : Bytes
first_frame = frame_with (0 ∷ [])

abbrev second_frame : Bytes
second_frame = frame_with (1 ∷ 0 ∷ 0 ∷ 0 ∷ 1 ∷ 65 ∷ [])

sender_once :
    (authenticate_request demo
      (submit_headers (codes "n1"))
      (codes "POST")
      (codes "/v1/messages")
      submit_body
      none
      world).0
    ≡ ok (codes "a")
unfolding authenticate_request bearer header strip_prefix parse_u64 digits_from hash hex find_device
    is_allowed verify_signature record_nonce ◌>>=◌ signed_request to_be_bytes query_row exists
    delete insert_or_ignore bytes_eq
sender_once = refl

sender_again :
    (authenticate_request demo
      (submit_headers (codes "n2"))
      (codes "POST")
      (codes "/v1/messages")
      other_body
      none
      sent_once).0
    ≡ ok (codes "a")
unfolding send require_binary_accept wants_binary wants_binary_value accept_values contains
    store_message insert_message to_response encode_binary_messages binary_messages binary_message
    encode_messages put_messages put_message put_bytes put_string put_address put_expiry check_body
    Writer.header as_u64 as_i64 authenticate_request bearer header strip_prefix parse_u64
    digits_from hash hex find_device is_allowed verify_signature record_nonce ◌>>=◌ signed_request
    to_be_bytes query_row exists delete insert_or_ignore bytes_eq decode_message_request media_type
    media_type_of decode_submit read_submit split split_step trim trim_start is_space
    to_ascii_lowercase new_reader take get_range read_u8 read_u32 read_u64 read_bytes read_string
    read_expiry expiry_of_flag finish from_be_bytes is_utf8 utf8_from lead
sender_again = refl

decoded_once :
    decode_message_request demo (submit_headers (codes "n1")) submit_body
    ≡ ok (submitted (codes "hi"))
unfolding decode_message_request media_type media_type_of decode_submit read_submit split split_step
    trim trim_start is_space to_ascii_lowercase bytes_eq new_reader take get_range read_u8 read_u32
    read_u64 read_bytes read_string read_expiry expiry_of_flag finish from_be_bytes is_utf8
    utf8_from lead
decoded_once = refl

decoded_again :
    decode_message_request demo (submit_headers (codes "n2")) other_body
    ≡ ok (submitted (codes "ho"))
unfolding decode_message_request media_type media_type_of decode_submit read_submit split split_step
    trim trim_start is_space to_ascii_lowercase bytes_eq new_reader take get_range read_u8 read_u32
    read_u64 read_bytes read_string read_expiry expiry_of_flag finish from_be_bytes is_utf8
    utf8_from lead
decoded_again = refl

answered_once : (send demo (submit_headers (codes "n1")) submit_body world).0 ≡ ok first_frame
unfolding send require_binary_accept wants_binary wants_binary_value accept_values contains
    store_message insert_message to_response encode_binary_messages binary_messages binary_message
    encode_messages put_messages put_message put_bytes put_string put_address put_expiry check_body
    Writer.header as_u64 as_i64 authenticate_request bearer header strip_prefix parse_u64
    digits_from hash hex find_device is_allowed verify_signature record_nonce ◌>>=◌ signed_request
    to_be_bytes query_row exists delete insert_or_ignore bytes_eq decode_message_request media_type
    media_type_of decode_submit read_submit split split_step trim trim_start is_space
    to_ascii_lowercase new_reader take get_range read_u8 read_u32 read_u64 read_bytes read_string
    read_expiry expiry_of_flag finish from_be_bytes is_utf8 utf8_from lead
answered_once = refl

answered_again : (send demo (submit_headers (codes "n2")) other_body sent_once).0 ≡ ok second_frame
unfolding send require_binary_accept wants_binary wants_binary_value accept_values contains
    store_message insert_message to_response encode_binary_messages binary_messages binary_message
    encode_messages put_messages put_message put_bytes put_string put_address put_expiry check_body
    Writer.header as_u64 as_i64 authenticate_request bearer header strip_prefix parse_u64
    digits_from hash hex find_device is_allowed verify_signature record_nonce ◌>>=◌ signed_request
    to_be_bytes query_row exists delete insert_or_ignore bytes_eq decode_message_request media_type
    media_type_of decode_submit read_submit split split_step trim trim_start is_space
    to_ascii_lowercase new_reader take get_range read_u8 read_u32 read_u64 read_bytes read_string
    read_expiry expiry_of_flag finish from_be_bytes is_utf8 utf8_from lead
answered_again = refl

resend_unchanged_example :
    (sent_again.db.messages ≡ sent_once.db.messages)
    × (sent_again.db.last_server_id ≡ sent_once.db.last_server_id)
    × ((x : MessageResponse) × (y : MessageResponse) × (encode_binary_messages demo (x ∷ [])
          ≡ some first_frame)
        × (encode_binary_messages demo (y ∷ []) ≡ some second_frame)
        × (y.server_id ≡ x.server_id)
        × (y.ciphertext ≡ x.ciphertext)
        × (y.accepted_at ≡ x.accepted_at))
resend_unchanged_example =
    resend_unchanged demo (submit_headers (codes "n1")) (submit_headers (codes "n2")) submit_body
      other_body first_frame second_frame (codes "a") (submitted (codes "hi"))
      (submitted (codes "ho")) world sent_once sent_once sent_again
      (returns (send demo (submit_headers (codes "n1")) submit_body) world first_frame
        answered_once)
      sender_once decoded_once refl refl
      (returns (send demo (submit_headers (codes "n2")) other_body) sent_once second_frame
        answered_again)
      sender_again decoded_again refl refl
