-- ===== src/Relay/Tests.antt =====
-- A small world, for runs of the relay and its theorems at concrete inputs.
pub mod Messages
pub mod Resend
pub mod Auth
pub mod Accounts
pub mod Contacts
use safechat.Prelude.{
  ℕ, ◌<◌, suc, ◌≡◌, ◌≢◌, refl, true, false, none, some, [], ◌∷◌, ok, err, arith, if◌then◌else◌, pos,
  as_u64, as_i64, length, ◌^◌, ◌==◌, ltb,
}
use safechat.Prelude.Bytes.{Bytes, bytes_eq, codes, to_be_bytes}
use safechat.Prelude.Text.{
  strip_prefix, parse_u64, digits_from, split, split_step, trim, trim_start, is_space,
  to_ascii_lowercase, contains,
}
use safechat.Relay.{
  Db, AllowRow, AllowStatus, DeviceRow, MessageRow, ContactRow, ContactStatus, unauthorized,
}
use safechat.Relay.Sql.{
  select, query_row, delete, update, count, exists, insert_or_ignore, insert_or_replace, limit,
}
use safechat.Relay.Host.{Host, Headers}
use safechat.Relay.Service.{World, Action, ◌>>=◌, transaction}
use safechat.Relay.Service.Returns.{returns}
use safechat.Relay.Validation.{MessageResponse, validate_optional_json_content}
use safechat.Relay.Validation.{
  require_binary_accept, wants_binary, wants_binary_value, accept_values, encode_binary_messages,
  binary_messages, binary_message,
}
use safechat.Prelude.Utf8.{IsText, is_utf8, utf8_from, lead}
use safechat.Protocol.Writer.{
  encode_messages, put_messages, put_message, put_bytes, put_string, put_address, put_expiry,
  check_body,
}
use safechat.Protocol.Writer
use safechat.Protocol.RoundTrip.{IsMessage}
use safechat.Relay.Messages.{
  acknowledge, insert_message, store_message, receive, cursor_or_zero, pending_messages,
  to_response,
}
use safechat.Relay.Messages.Delivery.{page, Delivered, wire_message, receive_page}
use safechat.Relay.Messages.Keys.{same_key}
use safechat.Relay.Messages.Resend.{resend_unchanged}
use safechat.Relay.Validation.{
  require_json_content, media_type, media_type_of, validate_json_accept, validate_text,
  decode_bounded_base64,
}
use safechat.Relay.Enrollment.{
  RegisterRequest, RegisterResponse, ChallengeRequest, ChallengeResponse, api_version, register,
  challenge, verify_registration, claim_device, signed_registration,
}
use safechat.Relay.Enrollment.Single.{register_atomic, register_once}
use safechat.Relay.Router.Retention.{is_lasting, message_lasts}
use safechat.Relay.Router.Acknowledged.{ack_path, acknowledged_gone}
use safechat.Relay.Contacts.{accept, contact_response}
use safechat.Relay.Contacts.Decision.{Decided, accept-Decided}
use safechat.Relay.Admin.Access.{Added, allowlist-Added}
use safechat.Relay.Admin.{
  AdminAllowlistRequest, allowlist, add_allowlist, reject_enrollment, revoke,
}
use safechat.Relay.Admin.Revocation.{revoke_locks_out}
use safechat.Relay.Auth.Genuine.{Genuine, authenticate-Genuine}
use safechat.Relay.Router.Mailbox.{InOrder, messages-InOrder}
use safechat.Relay.Auth.{
  is_other, hex, hash, bearer, header, is_allowed, find_device, signed_request, record_nonce,
  verify_signature, authenticate_request,
}
use safechat.Relay.Router.{Call, dispatch, serve}
use safechat.Relay.Router.Nonces.{replay_refused}

-- Digests and encodings that change nothing; a proof is the key itself.
abbrev pub demo : Host Bytes
demo = record {
  decode_key = some;
  serialize_key = λ key. key;
  verify = λ key message proof. bytes_eq key proof;
  sha256 = λ bs. bs;
  b64 = λ bs. bs;
  b64decode = some;
  to_str = some;
  parse_ack = λ _. some true;
  parse_bundle = some;
  poll_body = λ _ _ _. [];
  parse_contact = λ _. none;
}

abbrev pub alice : AllowRow
alice = record {
  client_id = codes "a";
  identity_key = codes "ka";
  fingerprint = [];
  enrollment_secret_hash = codes "73";
  enrollment_used = 0;
  device_address = [];
  status = AllowStatus.active;
  label = [];
  created_at = 0;
}

abbrev pub alice_device : DeviceRow
alice_device = record {
  client_id = codes "a";
  identity_key = codes "ka";
  device_address = codes "A";
  token_hash = codes "74";
  bundle = [];
  last_seen_at = 0;
}

abbrev pub letter : ℕ → Bytes → MessageRow
letter id name = record {
  server_id = id;
  sender = codes "b";
  recipient = codes "a";
  client_message_id = name;
  ciphertext = codes "hi";
  accepted_at = 900;
  expires_at = none;
  acknowledged_at = none;
}

abbrev pub tables : Db
tables = record {
  allowlist = alice ∷ [];
  enrollment_requests = [];
  challenges = record { client_id = codes "a"; challenge = codes "c"; expires_at = 2000 } ∷ [];
  devices = alice_device ∷ [];
  request_nonces = [];
  messages = letter 2 (codes "m") ∷ letter 5 (codes "n") ∷ [];
  last_server_id = 7;
  contact_requests = [];
}

abbrev pub world : World
world = record { db = tables; clock = λ _. 1000; readings = 0; random = λ _. codes "t"; draws = 0 }

-- The headers of a signed request of alice's.
abbrev pub signed_headers : Headers
signed_headers name =
    if bytes_eq name (codes "authorization")
    then some (codes "Bearer t")
    else if bytes_eq name (codes "x-safechat-nonce")
    then some (codes "n1")
    else if bytes_eq name (codes "x-safechat-timestamp")
    then some (codes "1000")
    else if bytes_eq name (codes "x-safechat-signature")
    then some (codes "ka")
    else if bytes_eq name (codes "accept")
    then some (codes "application/octet-stream")
    else none

-- The headers of an acknowledgement of alice's.
abbrev pub ack_headers : Headers
ack_headers name =
    if bytes_eq name (codes "content-type")
    then some (codes "application/json")
    else if bytes_eq name (codes "accept")
    then none
    else signed_headers name

-- serve with a call between
abbrev pub other_call : Call
other_call = Call.command_reject (codes "z")
