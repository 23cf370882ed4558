-- ===== src/Relay/Auth.antt =====
-- codebase/relay/src/auth.rs: bearer tokens, signed requests and the nonces that stop replays.
pub mod Genuine
pub mod Untouched
use safechat.Prelude.{
  ℕ, ◌+◌, ◌-◌, ◌/◌, ◌%◌, Bool, true, false, ◌&&◌, ◌||◌, not, Option, none, some, List, [], ◌∷◌,
  ◌++◌, Result, ok, err, ltb, if◌then◌else◌, length,
}
use safechat.Prelude.Bytes.{Bytes, bytes_eq, codes, to_be_bytes}
use safechat.Prelude.Text.{strip_prefix, parse_u64}
use safechat.Relay.{
  Db, AllowRow, AllowStatus, DeviceRow, NonceRow, ApiError, unauthorized, nonce_used,
  max_signature_b64_bytes,
}
use safechat.Relay.Sql.{query_row, delete, exists, insert_or_ignore}
use safechat.Relay.Host.{Host, Headers}
use safechat.Relay.Service.{
  World, Action, ◌>>=◌, ◌>>◌, pure, raise_if, or_raise, query, execute, now,
}

abbrev pub request_domain : Bytes
request_domain = codes "safechat-relay-request-v1" ++ (0 ∷ [])

-- `timestamp.abs_diff(now)`
abbrev pub abs_diff : ℕ → ℕ → ℕ
abs_diff a b = if ltb a b then b - a else a - b

abbrev pub is_active : AllowStatus → Bool
is_active AllowStatus.active = true
is_active AllowStatus.revoked = false

abbrev pub is_empty : Bytes → Bool
is_empty [] = true
is_empty (b ∷ bs) = false

-- INNER JOIN allowlist ... WHERE status = 'active'
unfoldable pub is_allowed : List AllowRow → Bytes → Bool
is_allowed allowlist client =
    exists (λ a. bytes_eq a.client_id client && is_active a.status) allowlist

-- The nonces of a device, by the primary key.
abbrev pub is_nonce : Bytes → Bytes → NonceRow → Bool
is_nonce device nonce row = bytes_eq row.client_id device && bytes_eq row.nonce nonce

abbrev pub is_expired : ℕ → NonceRow → Bool
is_expired time row = ltb row.expires_at time

abbrev hex_digit : ℕ → ℕ
hex_digit n = if ltb n 10 then n + 48 else n + 87

-- `format!("{byte:02x}")` of every byte
unfoldable pub hex : Bytes → Bytes
hex [] = []
hex (b ∷ bs) = hex_digit (b / 16) ∷ hex_digit (b % 16) ∷ hex bs

-- The transaction on `request_nonces`: `false` when the nonce was there already.
unfoldable pub record_nonce : Bytes → Bytes → Action Bool
record_nonce device nonce = do
  purge ← now
  execute (λ db. record db { request_nonces = delete (is_expired purge) db.request_nonces })
  stamp ← now
  known ← query (λ db. exists (is_nonce device nonce) db.request_nonces)
  execute λ db. record db {
    request_nonces =
        insert_or_ignore (is_nonce device nonce)
          (record { client_id = device; nonce = nonce; expires_at = stamp + 600 })
          db.request_nonces;
  }
  pure (not known)

-- The device of the token, if its client is on the allowlist.
unfoldable pub find_device : Db → Bytes → Option DeviceRow
find_device db token_hash =
    query_row (λ d. bytes_eq d.token_hash token_hash && is_allowed db.allowlist d.client_id)
      db.devices

abbrev pub is_other : Option Bytes → Bytes → Bool
is_other none device = false
is_other (some expected) device = not (bytes_eq expected device)

module _ {Key : Type 0} (host : Host Key) where
  unfoldable pub hash : Bytes → Bytes
  hash value = hex (host.sha256 value)

  unfoldable pub bearer : Headers → Option Bytes
  bearer headers = elim (headers (codes "authorization")) [
    | none ↦ none
    | some value ↦ elim (host.to_str value) [
      | none ↦ none
      | some text ↦ strip_prefix (codes "Bearer ") text
    ]
  ]

  unfoldable pub header : Headers → Bytes → Option Bytes
  header headers name = elim (headers name) [ none ↦ none | some value ↦ host.to_str value ]

  -- The bytes that the signature is over.
  unfoldable pub signed_request : Bytes → Bytes → Bytes → Bytes → ℕ → Bytes
  signed_request method path body nonce timestamp =
      request_domain
      ++ (method
          ++ (0 ∷ (path ++ (0 ∷ (host.sha256 body ++ (nonce ++ (0 ∷ to_be_bytes 8 timestamp)))))))

  unfoldable pub verify_signature :
      Bytes → Bytes → Bytes → Bytes → Bytes → ℕ → Bytes → Action (Unit {0})
  verify_signature device method path body nonce timestamp signature = do
    time ← now
    raise_if
        (ltb 300 (abs_diff timestamp time)
          || (is_empty nonce
              || (ltb 128 (length nonce) || ltb max_signature_b64_bytes (length signature))))
        unauthorized
    row ← query (λ db. query_row (λ d. bytes_eq d.client_id device) db.devices)
    row ← or_raise row unauthorized
    identity ← or_raise (host.decode_key row.identity_key) unauthorized
    signature ← or_raise (host.b64decode signature) unauthorized
    raise_if
        (not (host.verify identity (signed_request method path body nonce timestamp) signature))
        unauthorized
    inserted ← record_nonce device nonce
    raise_if (not inserted) nonce_used

  unfoldable pub authenticate_request :
      Headers → Bytes → Bytes → Bytes → Option Bytes → Action Bytes
  authenticate_request headers method path body expected_device = do
    token ← or_raise (bearer headers) unauthorized
    raise_if (is_empty token || ltb max_signature_b64_bytes (length token)) unauthorized
    row ← query (λ db. find_device db (hash token))
    row ← or_raise row unauthorized
    raise_if (is_other expected_device row.client_id) unauthorized
    nonce ← or_raise (header headers (codes "x-safechat-nonce")) unauthorized
    timestamp ← or_raise (header headers (codes "x-safechat-timestamp")) unauthorized
    timestamp ← or_raise (parse_u64 timestamp) unauthorized
    signature ← or_raise (header headers (codes "x-safechat-signature")) unauthorized
    verify_signature row.client_id method path body nonce timestamp signature
    pure row.client_id
