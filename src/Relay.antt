-- ===== src/Relay.antt =====
-- codebase/relay/src: the relay service. Here the limits, the error values and the tables of
-- database.rs; the children have the handlers, file by file.
pub mod Sql
pub mod Host
pub mod Service
pub mod Validation
pub mod Auth
pub mod Messages
pub mod Enrollment
pub mod Bundles
pub mod Contacts
pub mod Admin
pub mod Events
pub mod Commands
pub mod Router
pub mod Tests
use safechat.Prelude.{ℕ, ◌*◌, Option, List, ℤ}
use safechat.Prelude.Bytes.{Bytes}
use safechat.Protocol

abbrev pub max_id_bytes : ℕ
max_id_bytes = 256

abbrev pub max_fingerprint_bytes : ℕ
max_fingerprint_bytes = 256

abbrev pub max_label_bytes : ℕ
max_label_bytes = 256

abbrev pub max_secret_bytes : ℕ
max_secret_bytes = 512

abbrev pub max_identity_b64_bytes : ℕ
max_identity_b64_bytes = 256

abbrev pub max_signature_b64_bytes : ℕ
max_signature_b64_bytes = 512

abbrev pub max_bundle_bytes : ℕ
max_bundle_bytes = 1024 * 1024

-- Why a request is malformed: one constructor for each `bail!` of validation.rs and the handlers.
pub data Invalid : Type 0 where
  unsupported_media_type not_json_content not_json_accept header_not_text : Invalid
  unsupported_accept_parameters unsupported_accept not_binary_accept not_binary_content : Invalid
  text_too_long decoded_too_long not_base64 not_json : Invalid
  enrollment_request_size identity_key_invalid not_acknowledged contact_direction : Invalid
  frame : Protocol.Error → Invalid

-- `ApiError`: a constructor for each status code that the handlers answer with.
pub data ApiError : Type 0 where
  bad_request : Invalid → ApiError
  unauthorized not_found nonce_used payload_too_large internal : ApiError

-- The HTTP status of the answer.
unfoldable pub status_code : ApiError → ℕ
status_code (ApiError.bad_request reason) = 400
status_code ApiError.unauthorized = 401
status_code ApiError.not_found = 404
status_code ApiError.nonce_used = 409
status_code ApiError.payload_too_large = 413
status_code ApiError.internal = 500

-- The rows of the tables of `initialize_schema`. A Unix time read from the clock is a number; the
-- `expires_at` of a message comes from a client, and is the signed column itself.
pub data AllowStatus : Type 0 where
  active revoked : AllowStatus

pub record AllowRow : Type 0 where
  pub client_id : Bytes
  pub identity_key : Bytes
  pub fingerprint : Bytes
  pub enrollment_secret_hash : Bytes
  pub enrollment_used : ℕ
  pub device_address : Bytes
  pub status : AllowStatus
  pub label : Bytes
  pub created_at : ℕ

pub record EnrollmentRow : Type 0 where
  pub client_id : Bytes
  pub device_address : Bytes
  pub identity_key : Bytes
  pub fingerprint : Bytes
  pub bundle : Bytes
  pub enrollment_secret_hash : Bytes
  pub created_at : ℕ
  pub expires_at : ℕ

pub record ChallengeRow : Type 0 where
  pub client_id : Bytes
  pub challenge : Bytes
  pub expires_at : ℕ

pub record DeviceRow : Type 0 where
  pub client_id : Bytes
  pub identity_key : Bytes
  pub device_address : Bytes
  pub token_hash : Bytes
  pub bundle : Bytes
  pub last_seen_at : ℕ

pub record NonceRow : Type 0 where
  pub client_id : Bytes
  pub nonce : Bytes
  pub expires_at : ℕ

pub record MessageRow : Type 0 where
  pub server_id : ℕ
  pub sender : Bytes
  pub recipient : Bytes
  pub client_message_id : Bytes
  pub ciphertext : Bytes
  pub accepted_at : ℕ
  pub expires_at : Option ℤ
  pub acknowledged_at : Option ℕ

pub data ContactStatus : Type 0 where
  pending accepted rejected : ContactStatus

pub record ContactRow : Type 0 where
  pub request_id : Bytes
  pub sender : Bytes
  pub recipient : Bytes
  pub sender_name : Bytes
  pub sender_fingerprint : Bytes
  pub bundle : Bytes
  pub status : ContactStatus
  pub created_at : ℕ
  pub expires_at : ℕ

-- `last_server_id` is the counter behind AUTOINCREMENT: the largest `server_id` ever given.
pub record Db : Type 0 where
  pub allowlist : List AllowRow
  pub enrollment_requests : List EnrollmentRow
  pub challenges : List ChallengeRow
  pub devices : List DeviceRow
  pub request_nonces : List NonceRow
  pub messages : List MessageRow
  pub last_server_id : ℕ
  pub contact_requests : List ContactRow
