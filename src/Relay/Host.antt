-- ===== src/Relay/Host.antt =====
-- What the relay calls and does not implement, as parameters: signatures, hashes, base64, the
-- header map and the JSON bodies.
use safechat.Prelude.{ℕ, ℤ, ◌≡◌, Bool, Option, some}
use safechat.Prelude.Bytes.{Bytes}

-- `HeaderMap::get(name)`: the raw value of a header.
abbrev pub Headers : Type 0
Headers = Bytes → Option Bytes

-- The JSON bodies that handlers parse themselves.
pub record ContactRequestPayload : Type 0 where
  pub request_id : Bytes
  pub recipient : Bytes
  pub sender_name : Bytes
  pub sender_fingerprint : Bytes
  pub bundle : Bytes

-- `Key` is signal_protocol's `IdentityKey`.
pub record Host (Key : Type 0) : Type 0 where
  pub decode_key : Bytes → Option Key
  pub serialize_key : Key → Bytes
  pub verify : Key → Bytes → Bytes → Bool
  pub sha256 : Bytes → Bytes
  pub b64 : Bytes → Bytes
  pub b64decode : Bytes → Option Bytes
  -- `HeaderValue::to_str`
  pub to_str : Bytes → Option Bytes
  -- `serde_json::from_slice` at `AckRequest`, `BundleRequest` and `ContactRequestPayload`
  pub parse_ack : Bytes → Option Bool
  pub parse_bundle : Bytes → Option Bytes
  -- `serde_json::to_vec` of the cursor, the nonce and the timestamp of a poll
  pub poll_body : ℤ → Bytes → ℕ → Bytes
  pub parse_contact : Bytes → Option ContactRequestPayload

-- Base64 is undone by its decoder.
abbrev pub Base64RoundTrips : {Key : Type 0} → Host Key → Type 0
Base64RoundTrips host = (bs : Bytes) → host.b64decode (host.b64 bs) ≡ some bs
