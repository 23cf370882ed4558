-- ===== src/Relay/Enrollment.antt =====
-- codebase/relay/src/enrollment.rs: enrollment requests, challenges and registration.
pub mod Single
use safechat.Prelude.{
  ℕ, suc, ◌+◌, ◌-◌, ◌*◌, ◌^◌, Bool, true, false, ◌&&◌, ◌||◌, not, Option, none, some, List, [], ◌∷◌,
  ◌++◌, ltb, leb, if◌then◌else◌, length, take, ◌==◌,
}
use safechat.Prelude.Bytes.{Bytes, bytes_eq, codes}
use safechat.Relay.{
  Db, AllowRow, EnrollmentRow, ChallengeRow, DeviceRow, ApiError, bad_request, unauthorized,
  enrollment_request_size, identity_key_invalid, max_id_bytes, max_fingerprint_bytes,
  max_bundle_bytes, max_identity_b64_bytes, max_secret_bytes, max_signature_b64_bytes,
}
use safechat.Relay.Sql.{query_row, delete, update, count, exists, insert_or_replace}
use safechat.Relay.Host.{Host, Headers}
use safechat.Relay.Service.{
  World, Action, ◌>>=◌, ◌>>◌, pure, raise_if, or_raise, query, execute, now, checked, random_bytes,
  transaction,
}
use safechat.Relay.Validation.{
  validate_json_accept, validate_text, require_json_content, decode_bounded_base64,
}
use safechat.Relay.Auth.{hash, is_active, is_empty}

abbrev pub register_domain : Bytes
register_domain = codes "safechat-relay-register-v1" ++ (0 ∷ [])

abbrev pub enrollment_request_domain : Bytes
enrollment_request_domain = codes "safechat-relay-enrollment-request-v1" ++ (0 ∷ [])

abbrev pub api_version : Bytes
api_version = codes "safechat-relay-v1"

-- The bodies and the answers, as their JSON is read and written.
pub record EnrollmentRequest : Type 0 where
  pub device_address : Bytes
  pub identity_key : Bytes
  pub fingerprint : Bytes
  pub bundle : Bytes
  pub enrollment_secret_hash : Bytes
  pub signature : Bytes

pub record EnrollmentResponse : Type 0 where
  pub accepted : Bool
  pub client_id : Bytes
  pub expires_at : ℕ

pub record ChallengeRequest : Type 0 where
  pub client_id : Bytes
  pub enrollment_secret : Bytes

pub record ChallengeResponse : Type 0 where
  pub challenge : Bytes
  pub expires_at : ℕ

pub record RegisterRequest : Type 0 where
  pub client_id : Bytes
  pub device_address : Bytes
  pub identity_key : Bytes
  pub bundle : Bytes
  pub signature : Bytes

pub record RegisterResponse : Type 0 where
  pub access_token : Bytes
  pub device_id : Bytes
  pub api_version : Bytes

-- `u64::saturating_add`
abbrev pub saturating_add : ℕ → ℕ → ℕ
saturating_add a b = if ltb (a + b) (2 ^ 64) then a + b else 2 ^ 64 - 1

unfoldable pub is_ascii_hexdigit : ℕ → Bool
is_ascii_hexdigit b =
    leb b'0' b && leb b b'9' || (leb b'a' b && leb b b'f' || leb b'A' b && leb b b'F')

-- allowlist WHERE client_id = ?1 AND status = 'active'
abbrev pub is_active_client : Bytes → AllowRow → Bool
is_active_client client a = bytes_eq a.client_id client && is_active a.status

-- allowlist WHERE client_id = ?1 AND enrollment_used = 0
abbrev pub is_unused_client : Bytes → AllowRow → Bool
is_unused_client client a = bytes_eq a.client_id client && a.enrollment_used == 0

-- What INSERT OR REPLACE INTO devices removes: the primary key and the unique token_hash.
abbrev pub is_device_key : Bytes → Bytes → DeviceRow → Bool
is_device_key client token_hash d = bytes_eq d.client_id client || bytes_eq d.token_hash token_hash

module _ {Key : Type 0} (host : Host Key) where
  -- "sc-" and the first twelve bytes of the key's digest
  unfoldable pub client_id_of : Key → Bytes
  client_id_of identity =
      codes "sc-" ++ host.b64 (take 12 (host.sha256 (host.serialize_key identity)))

  unfoldable pub signed_enrollment : EnrollmentRequest → Bytes → Bytes
  signed_enrollment request bundle =
      enrollment_request_domain
      ++ (request.device_address
          ++ (0
              ∷ (request.fingerprint
                  ++ (0 ∷ (request.enrollment_secret_hash ++ (0 ∷ host.sha256 bundle))))))

  unfoldable pub enrollment_request : Headers → EnrollmentRequest → Action EnrollmentResponse
  enrollment_request headers request = do
    checked (require_json_content host headers)
    checked (validate_json_accept host headers)
    raise_if
        (ltb max_id_bytes (length request.device_address)
          || (ltb max_fingerprint_bytes (length request.fingerprint)
              || (not (length request.enrollment_secret_hash == 64)
                  || (exists (λ b. not (is_ascii_hexdigit b)) request.enrollment_secret_hash
                      || ltb (max_bundle_bytes * 2) (length request.bundle)))))
        (bad_request enrollment_request_size)
    identity_bytes ←
        checked (decode_bounded_base64 host request.identity_key max_identity_b64_bytes 128)
    identity ← or_raise (host.decode_key identity_bytes) (bad_request identity_key_invalid)
    bundle ←
        checked (decode_bounded_base64 host request.bundle (max_bundle_bytes * 2) max_bundle_bytes)
    signature ← checked (decode_bounded_base64 host request.signature max_signature_b64_bytes 256)
    raise_if (not (host.verify identity (signed_enrollment request bundle) signature)) unauthorized
    time ← now
    let expires_at = saturating_add time 900
    let client_id = client_id_of identity
    created_at ← now
    execute λ db. record db {
      enrollment_requests =
          insert_or_replace (λ r. bytes_eq r.client_id client_id)
            (record {
              client_id = client_id;
              device_address = request.device_address;
              identity_key = identity_bytes;
              fingerprint = request.fingerprint;
              bundle = bundle;
              enrollment_secret_hash = request.enrollment_secret_hash;
              created_at = created_at;
              expires_at = expires_at;
            })
            db.enrollment_requests;
    }
    pure (record { accepted = true; client_id = client_id; expires_at = expires_at })

  unfoldable pub challenge : Headers → ChallengeRequest → Action ChallengeResponse
  challenge headers request = do
    checked (require_json_content host headers)
    checked (validate_json_accept host headers)
    checked (validate_text request.client_id max_id_bytes)
    checked (validate_text request.enrollment_secret max_secret_bytes)
    challenge ← random_bytes
    time ← now
    let expires_at = saturating_add time 300
    allowed ← query (λ db. query_row (is_active_client request.client_id) db.allowlist)
    allowed ← or_raise allowed unauthorized
    raise_if
        (not (allowed.enrollment_used == 0)
          || not (bytes_eq allowed.enrollment_secret_hash (hash host request.enrollment_secret)))
        unauthorized
    execute λ db. record db {
      challenges =
          insert_or_replace (λ c. bytes_eq c.client_id request.client_id)
            (record {
              client_id = request.client_id;
              challenge = challenge;
              expires_at = expires_at;
            })
            db.challenges;
    }
    pure (record { challenge = host.b64 challenge; expires_at = expires_at })

  unfoldable pub signed_registration : RegisterRequest → Bytes → Bytes → Bytes
  signed_registration request bundle challenge =
      register_domain
      ++ (request.client_id
          ++ (0 ∷ (request.device_address ++ (0 ∷ (host.sha256 bundle ++ challenge)))))

  -- The checks of `register` after the client has been found, up to the verified signature: they
  -- return the bundle.
  unfoldable pub verify_registration : RegisterRequest → AllowRow → Action Bytes
  verify_registration request allowed = do
    raise_if (not (allowed.enrollment_used == 0)) unauthorized
    key ← checked (decode_bounded_base64 host request.identity_key max_identity_b64_bytes 128)
    identity ← or_raise (host.decode_key key) unauthorized
    raise_if (not (bytes_eq (host.serialize_key identity) allowed.identity_key)) unauthorized
    challenge ← query (λ db. query_row (λ c. bytes_eq c.client_id request.client_id) db.challenges)
    challenge ← or_raise challenge unauthorized
    time ← now
    raise_if (ltb challenge.expires_at time || is_empty allowed.enrollment_secret_hash) unauthorized
    bundle ←
        checked (decode_bounded_base64 host request.bundle (max_bundle_bytes * 2) max_bundle_bytes)
    signature ← checked (decode_bounded_base64 host request.signature max_signature_b64_bytes 256)
    raise_if
        (not
          (host.verify identity (signed_registration request bundle challenge.challenge) signature))
        unauthorized
    pure bundle

  -- The writes of `register`: claim the allowlist entry, store the device, use up the challenge.
  unfoldable pub claim_device : RegisterRequest → AllowRow → Bytes → Bytes → Action (Unit {0})
  claim_device request allowed bundle token = do
    claimed ← query (λ db. count (is_unused_client request.client_id) db.allowlist)
    execute (λ db. record db {
      allowlist =
          update (is_unused_client request.client_id)
            (λ a. record a { enrollment_used = 1; device_address = request.device_address })
            db.allowlist;
    })
    raise_if (not (claimed == 1)) unauthorized
    time ← now
    execute (λ db. record db {
      devices =
          insert_or_replace (is_device_key request.client_id (hash host (host.b64 token)))
            (record {
              client_id = request.client_id;
              identity_key = allowed.identity_key;
              device_address = request.device_address;
              token_hash = hash host (host.b64 token);
              bundle = bundle;
              last_seen_at = time;
            })
            db.devices;
    })
    execute (λ db. record db {
      challenges = delete (λ c. bytes_eq c.client_id request.client_id) db.challenges;
    })

  unfoldable pub register : Headers → RegisterRequest → Action RegisterResponse
  register headers request = do
    checked (require_json_content host headers)
    checked (validate_json_accept host headers)
    checked (validate_text request.client_id max_id_bytes)
    checked (validate_text request.device_address max_id_bytes)
    transaction do
      allowed ← query (λ db. query_row (is_active_client request.client_id) db.allowlist)
      allowed ← or_raise allowed unauthorized
      bundle ← verify_registration request allowed
      token ← random_bytes
      claim_device request allowed bundle token
      pure (record {
        access_token = host.b64 token;
        device_id = request.client_id;
        api_version = api_version;
      })
