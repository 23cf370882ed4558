-- ===== src/Relay/Tests/Messages.antt =====
-- Runs of messages: sending, receiving, acknowledging, and theorems at concrete inputs.
use safechat.Prelude.{
  ℕ, ◌<◌, ◌≡◌, refl, true, false, none, some, [], ◌∷◌, ok, arith, pos, as_u64, as_i64, length, ◌^◌,
  ◌==◌,
}
use safechat.Prelude.Bytes.{Bytes, bytes_eq, codes, to_be_bytes}
use safechat.Prelude.Text.{
  strip_prefix, parse_u64, digits_from, split, split_step, trim, trim_start, is_space,
  to_ascii_lowercase, contains,
}
use safechat.Relay.Sql.{select, query_row, delete, update, count, exists, insert_or_ignore, limit}
use safechat.Relay.Service.{World, ◌>>=◌}
use safechat.Relay.Service.Returns.{returns}
use safechat.Relay.Validation.{
  require_binary_accept, wants_binary, wants_binary_value, accept_values, encode_binary_messages,
  binary_messages, binary_message,
}
use safechat.Prelude.Utf8.{IsText, is_utf8, utf8_from, lead}
use safechat.Protocol.Writer.{
  encode_messages, put_messages, put_message, put_bytes, put_string, put_address, put_expiry,
  check_body,
}
use safechat.Protocol.Writer
use safechat.Protocol.RoundTrip.{IsMessage}
use safechat.Relay.Messages.{
  acknowledge, insert_message, store_message, receive, cursor_or_zero, pending_messages,
  to_response,
}
use safechat.Relay.Messages.Delivery.{page, Delivered, wire_message, receive_page}
use safechat.Relay.Messages.Keys.{same_key}
use safechat.Relay.Validation.{
  require_json_content, media_type, media_type_of, validate_json_accept,
}
use safechat.Relay.Router.Retention.{is_lasting, message_lasts}
use safechat.Relay.Router.Acknowledged.{ack_path, acknowledged_gone}
use safechat.Relay.Auth.Genuine.{Genuine}
use safechat.Relay.Router.Mailbox.{InOrder, messages-InOrder}
use safechat.Relay.Auth.{
  hex, hash, bearer, header, is_allowed, find_device, signed_request, record_nonce,
  verify_signature, authenticate_request,
}
use safechat.Relay.Router.{serve}
use safechat.Relay.Tests.{demo, letter, tables, world, signed_headers, ack_headers, other_call}

no_other : exists (same_key (letter 2 (codes "m"))) (letter 5 (codes "n") ∷ []) ≡ false
unfolding exists bytes_eq
no_other = refl

nothing_else : exists (same_key (letter 5 (codes "n"))) [] ≡ false
unfolding exists
nothing_else = refl

two_letters : InOrder 0 tables
two_letters = record {
  rising = (omega arith, (omega arith, omega arith));
  keyed = (no_other, (nothing_else, tt));
}

abbrev after : World
after = serve demo none (other_call ∷ []) world

messages-InOrder_example : InOrder after.readings after.db
messages-InOrder_example = messages-InOrder demo none (other_call ∷ []) world two_letters

abbrev received_frame : Bytes
received_frame =
    0 ∷ 1 ∷ 0 ∷ 1 ∷ 2 ∷ 0 ∷ 0 ∷ 0 ∷ 2 ∷ 0 ∷ 0 ∷ 0 ∷ 0 ∷ 0 ∷ 0 ∷ 0 ∷ 2 ∷ 0 ∷ 0 ∷ 0 ∷ 1 ∷ 98 ∷ 0 ∷ 0
    ∷ 0 ∷ 0 ∷ 1 ∷ 109 ∷ 0 ∷ 0 ∷ 0 ∷ 0 ∷ 0 ∷ 0 ∷ 3 ∷ 132 ∷ 0 ∷ 0 ∷ 0 ∷ 0 ∷ 2 ∷ 104 ∷ 105 ∷ 0 ∷ 0 ∷ 0
    ∷ 0 ∷ 0 ∷ 0 ∷ 0 ∷ 5 ∷ 0 ∷ 0 ∷ 0 ∷ 1 ∷ 98 ∷ 0 ∷ 0 ∷ 0 ∷ 0 ∷ 1 ∷ 110 ∷ 0 ∷ 0 ∷ 0 ∷ 0 ∷ 0 ∷ 0 ∷ 3
    ∷ 132 ∷ 0 ∷ 0 ∷ 0 ∷ 0 ∷ 2 ∷ 104 ∷ 105 ∷ []

received : (receive demo signed_headers none world).0 ≡ ok received_frame
unfolding receive require_binary_accept wants_binary wants_binary_value accept_values cursor_or_zero
    pending_messages limit select to_response encode_binary_messages binary_messages binary_message
    encode_messages put_messages put_message put_bytes put_string put_address put_expiry check_body
    Writer.header split split_step trim trim_start is_space contains authenticate_request bearer
    header strip_prefix parse_u64 digits_from hash hex find_device is_allowed verify_signature
    record_nonce ◌>>=◌ signed_request to_be_bytes query_row exists delete insert_or_ignore bytes_eq
    as_u64
received = refl

letter-IsMessage :
    (id : ℕ) (name : Bytes)
    → id < 100
    → IsText name
    → IsMessage (wire_message tables.devices (letter id name))
unfolding is_utf8 utf8_from lead query_row bytes_eq
letter-IsMessage id name small text = record {
  server_id_i64 = omega arith;
  sender_text = refl;
  address_text = λ a e. ground arith;
  message_id_text = text;
  accepted_u64 = omega arith;
  expiry_u64 = tt;
}

m-IsText : IsText (codes "m")
unfolding is_utf8 utf8_from lead
m-IsText = refl

n-IsText : IsText (codes "n")
unfolding is_utf8 utf8_from lead
n-IsText = refl

receive_page_example :
    Delivered demo signed_headers none world received_frame
      (receive demo signed_headers none world).1
receive_page_example =
    receive_page demo (λ bs. refl) signed_headers none world received_frame _
      (
        letter-IsMessage 2 (codes "m") (omega arith) m-IsText,
        (letter-IsMessage 5 (codes "n") (omega arith) n-IsText, tt),
      )
      (returns (receive demo signed_headers none) world received_frame received)

lasting :
    exists (is_lasting (codes "b") (codes "a") (codes "m") 2 (codes "hi")) tables.messages ≡ true
unfolding exists bytes_eq
lasting = refl

message_lasts_example :
    exists (is_lasting (codes "b") (codes "a") (codes "m") 2 (codes "hi")) after.db.messages ≡ true
message_lasts_example =
    message_lasts demo none (other_call ∷ []) world (codes "b") (codes "a") (codes "m") 2
      (codes "hi") lasting

abbrev acked : World
acked = (acknowledge demo ack_headers (pos 2) [] world).1

acknowledged : (acknowledge demo ack_headers (pos 2) [] world).0 ≡ ok tt
unfolding acknowledge require_json_content media_type media_type_of validate_json_accept split
    split_step trim trim_start is_space to_ascii_lowercase authenticate_request bearer header
    strip_prefix parse_u64 digits_from hash hex find_device is_allowed verify_signature record_nonce
    ◌>>=◌ signed_request to_be_bytes query_row exists delete insert_or_ignore bytes_eq count update
acknowledged = refl

acknowledged_gone_example :
    (device : Bytes) × Genuine demo ack_headers (codes "POST") (ack_path 2) [] world device
    × (exists
          (λ m. m.server_id == 2)
          (page (serve demo none (other_call ∷ []) acked).db device (pos 0) 1000)
        ≡ false)
acknowledged_gone_example =
    acknowledged_gone demo none ack_headers 2 [] (other_call ∷ []) world tt acked (pos 0) 1000
      two_letters (returns (acknowledge demo ack_headers (pos 2) []) world tt acknowledged)

-- An expiry of 2 ^ 63 seconds is in the past once it is stored.
abbrev distant : World
distant =
    (store_message demo (codes "b") (codes "A") (codes "k") (some (2 ^ 63)) (codes "hi") world).1

distant_is_gone :
    (length distant.db.messages ≡ 3)
    × (length (receive demo signed_headers none distant).1.db.messages ≡ 2)
unfolding store_message insert_message as_i64 receive require_binary_accept wants_binary
    wants_binary_value accept_values cursor_or_zero pending_messages limit select to_response
    encode_binary_messages binary_messages binary_message split split_step trim trim_start is_space
    contains authenticate_request bearer header strip_prefix parse_u64 digits_from hash hex
    find_device is_allowed verify_signature record_nonce ◌>>=◌ signed_request to_be_bytes query_row
    exists delete insert_or_ignore bytes_eq as_u64 encode_messages put_messages put_message
    put_string put_bytes put_address check_body put_expiry Writer.header
distant_is_gone = (refl, refl)
