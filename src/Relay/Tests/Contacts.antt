-- ===== src/Relay/Tests/Contacts.antt =====
-- Runs of contact requests, and theorems at concrete inputs.
use safechat.Prelude.{◌≡◌, refl, [], ◌∷◌, ok}
use safechat.Prelude.Bytes.{bytes_eq, codes, to_be_bytes}
use safechat.Prelude.Text.{
  strip_prefix, parse_u64, digits_from, split, split_step, trim, trim_start, is_space,
  to_ascii_lowercase,
}
use safechat.Relay.{ContactRow, ContactStatus}
use safechat.Relay.Sql.{query_row, delete, update, exists, insert_or_ignore}
use safechat.Relay.Service.{World, ◌>>=◌}
use safechat.Relay.Service.Returns.{returns}
use safechat.Relay.Validation.{validate_optional_json_content}
use safechat.Relay.Validation.{
  require_json_content, media_type, media_type_of, validate_json_accept, validate_text,
}
use safechat.Relay.Contacts.{accept, contact_response}
use safechat.Relay.Contacts.Decision.{Decided, accept-Decided}
use safechat.Relay.Auth.{
  hex, hash, bearer, header, is_allowed, find_device, signed_request, record_nonce,
  verify_signature, authenticate_request,
}
use safechat.Relay.Tests.{demo, tables, world, ack_headers}

-- A request to alice that she has rejected.
abbrev declined : ContactRow
declined = record {
  request_id = codes "q";
  sender = codes "b";
  recipient = codes "a";
  sender_name = codes "B";
  sender_fingerprint = [];
  bundle = [];
  status = ContactStatus.rejected;
  created_at = 900;
  expires_at = 2000;
}

abbrev contact_world : World
contact_world = record world { db = record tables { contact_requests = declined ∷ [] } }

accept-declined :
    (accept demo ack_headers (codes "q") contact_world).0 ≡ ok (contact_response demo declined)
unfolding accept contact_response validate_optional_json_content validate_text require_json_content
    media_type media_type_of validate_json_accept split split_step trim trim_start is_space
    to_ascii_lowercase authenticate_request bearer header strip_prefix parse_u64 digits_from hash
    hex find_device is_allowed verify_signature record_nonce ◌>>=◌ signed_request to_be_bytes
    query_row exists delete insert_or_ignore bytes_eq update
accept-declined = refl

accept-Decided_example :
    Decided demo ack_headers
      (codes "q")
      contact_world
      (contact_response demo declined)
      (accept demo ack_headers (codes "q") contact_world).1
accept-Decided_example =
    accept-Decided demo ack_headers (codes "q") contact_world (contact_response demo declined) _ (
      returns (accept demo ack_headers (codes "q")) contact_world (contact_response demo declined)
        accept-declined)
