-- ===== src/Relay/Tests/Accounts.antt =====
-- Runs of the allowlist, enrollment and revocation, and theorems at concrete inputs.
use safechat.Prelude.{◌≡◌, ◌≢◌, refl, none, some, [], ok, err, pos, ◌⊎◌, if◌then◌else◌}
use safechat.Prelude.Bytes.{bytes_eq, codes}
use safechat.Prelude.Text.{
  strip_prefix, split, split_step, trim, trim_start, is_space, to_ascii_lowercase,
}
use safechat.Relay.{unauthorized, not_found}
use safechat.Relay.Sql.{query_row, delete, update, count, exists, insert_or_replace}
use safechat.Relay.Host.{Headers}
use safechat.Relay.Service.{World, ◌>>=◌, transaction}
use safechat.Relay.Service.Returns.{returns}
use safechat.Relay.Validation.{
  require_json_content, media_type, media_type_of, validate_json_accept, validate_text,
  decode_bounded_base64,
}
use safechat.Relay.Enrollment.{
  RegisterRequest, RegisterResponse, ChallengeRequest, ChallengeResponse, api_version, register,
  challenge, verify_registration, claim_device, signed_registration,
}
use safechat.Relay.Enrollment.Single.{register_atomic, register_once}
use safechat.Relay.Admin.Access.{Added, allowlist-Added}
use safechat.Relay.Admin.{AdminAllowlistRequest, allowlist, add_allowlist, revoke}
use safechat.Relay.Events.{WsPollRequest, poll}
use safechat.Relay.Admin.Revocation.{revoke_locks_out}
use safechat.Relay.Auth.{hex, hash, bearer, authenticate_request}
use safechat.Relay.Tests.{demo, tables, world, signed_headers}

abbrev frame : WsPollRequest
frame = record { cursor = pos 0; nonce = codes "n"; timestamp = 1000; signature = codes "s" }

revoke_locks_out_example :
    let revoked = (revoke (codes "a") world).1 in
    ((authenticate_request demo signed_headers
        (codes "GET")
        (codes "/v1/messages")
        []
        none
        revoked).0
      ≢ ok (codes "a"))
    × (((revoke (codes "a") world).0 ≡ err not_found)
        ⊎ ((poll demo (codes "a") frame revoked).0 ≢ ok []))
revoke_locks_out_example =
    revoke_locks_out demo (codes "a") signed_headers (codes "GET") (codes "/v1/messages") [] none
      frame [] world

abbrev text_headers : Headers
text_headers name =
    if bytes_eq name (codes "content-type") then some (codes "application/json") else none

abbrev registration : RegisterRequest
registration = record {
  client_id = codes "a";
  device_address = codes "A";
  identity_key = codes "ka";
  bundle = codes "bu";
  signature = codes "ka";
}

abbrev forged : RegisterRequest
forged = record registration { signature = codes "kb" }

registered :
    (register demo text_headers registration world).0
    ≡ ok (record { access_token = codes "t"; device_id = codes "a"; api_version = api_version })
unfolding register require_json_content media_type media_type_of validate_json_accept validate_text
    split trim to_ascii_lowercase transaction verify_registration claim_device decode_bounded_base64
    signed_registration hash hex query_row count update delete insert_or_replace bytes_eq ◌>>=◌
    trim_start split_step is_space
registered = refl

refused : (register demo text_headers forged world).0 ≡ err unauthorized
unfolding register require_json_content media_type media_type_of validate_json_accept validate_text
    split trim to_ascii_lowercase transaction verify_registration claim_device decode_bounded_base64
    signed_registration hash hex query_row count update delete insert_or_replace bytes_eq ◌>>=◌
    trim_start split_step is_space
refused = refl

register_atomic_example : (register demo text_headers forged world).1.db ≡ tables
register_atomic_example = register_atomic demo text_headers forged world unauthorized refused

abbrev enrolled : World
enrolled = (register demo text_headers registration world).1

register_once_example :
    ((other : Headers) (again : RegisterRequest) (y : RegisterResponse)
      → again.client_id ≡ codes "a"
      → (register demo other again enrolled).0 ≢ ok y)
    × ((other : Headers) (again : ChallengeRequest) (y : ChallengeResponse)
        → again.client_id ≡ codes "a"
        → (challenge demo other again enrolled).0 ≢ ok y)
register_once_example =
    register_once demo text_headers registration world _ enrolled
      (returns (register demo text_headers registration) world _ registered)

abbrev newcomer : AdminAllowlistRequest
newcomer = record {
  client_id = codes "c";
  identity_key = codes "kc";
  fingerprint = codes "f";
  enrollment_secret = codes "s";
  label = codes "l";
}

abbrev admin_headers : Headers
admin_headers name =
    if bytes_eq name (codes "content-type")
    then some (codes "application/json")
    else if bytes_eq name (codes "authorization")
    then some (codes "Bearer root")
    else none

added : (allowlist demo (some (codes "root")) admin_headers newcomer world).0 ≡ ok (codes "c")
unfolding allowlist add_allowlist require_json_content media_type media_type_of validate_json_accept
    validate_text split split_step trim trim_start is_space to_ascii_lowercase decode_bounded_base64
    bearer strip_prefix hash hex exists bytes_eq ◌>>=◌
added = refl

allowlist-Added_example :
    Added demo
      (some (codes "root"))
      admin_headers
      newcomer
      world
      (allowlist demo (some (codes "root")) admin_headers newcomer world).1
allowlist-Added_example =
    allowlist-Added demo (some (codes "root")) admin_headers newcomer world (codes "c") _ (
      returns (allowlist demo (some (codes "root")) admin_headers newcomer) world (codes "c") added)
