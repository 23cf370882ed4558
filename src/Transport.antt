-- ===== src/Transport.antt =====
-- codebase/core/src/transport.rs: what a transport carries, the ports of a transport, and the text
-- form of an envelope, with base64 as a parameter. `TextTransport`, `BundleTransport` and
-- `RecoveryTransport` have the same two operations.
pub mod RoundTrip
pub mod Tests
use safechat.Prelude.{ℕ, ℤ, Option, List, [], ◌∷◌, ◌++◌, Result, ok_or}
use safechat.Prelude.Bytes.{Bytes, codes}
use safechat.Prelude.Text.{trim}
use safechat.Prelude.Programs.{Program}

pub record TransportMessage : Type 0 where
  pub transport_id : Bytes
  pub sender : Bytes
  pub sender_address : Option Bytes
  pub message_id : Bytes
  pub ciphertext : Bytes
  pub accepted_at : ℕ
  pub expires_at : Option ℕ

pub data DeliveryStatus : Type 0 where
  sent read : DeliveryStatus

pub record ContactRequest : Type 0 where
  pub request_id : Bytes
  pub sender_id : Bytes
  pub sender_name : Bytes
  pub sender_fingerprint : Bytes
  pub bundle : Bytes

-- The ports, on a transport `T`.
pub record MessageTransport (T : Type 0) : Type 0 where
  pub send : Bytes → Bytes → Bytes → Option ℕ → Program T (Unit {0})
  pub receive : ℤ → Program T (List TransportMessage)
  pub acknowledge : TransportMessage → Program T (Unit {0})
  pub status : Bytes → Program T DeliveryStatus

pub record ContactTransport (T : Type 0) : Type 0 where
  pub request_contact : Bytes → ContactRequest → Program T (Unit {0})
  pub pending_contacts : Program T (List ContactRequest)
  pub accept_contact : Bytes → Program T ContactRequest
  pub reject_contact : Bytes → Program T (Unit {0})

-- `base64::engine::general_purpose::URL_SAFE_NO_PAD`
pub record Base64 : Type 0 where
  pub encode : Bytes → Bytes
  pub decode : Bytes → Option Bytes

-- `TextTransport`
module _ (base64 : Base64) where
  unfoldable pub encode_text : Bytes → Bytes
  encode_text envelope = base64.encode envelope ++ (10 ∷ [])

  unfoldable pub decode_text : Bytes → Result Bytes Bytes
  decode_text message =
      ok_or (base64.decode (trim message)) (codes "invalid safechat text message encoding")

  -- `BundleTransport`
  unfoldable pub encode_bundle : Bytes → Bytes
  encode_bundle bundle = base64.encode bundle ++ (10 ∷ [])

  unfoldable pub decode_bundle : Bytes → Result Bytes Bytes
  decode_bundle message =
      ok_or (base64.decode (trim message)) (codes "invalid safechat text bundle encoding")

  -- `RecoveryTransport`
  unfoldable pub encode_recovery : Bytes → Bytes
  encode_recovery record' = base64.encode record' ++ (10 ∷ [])

  unfoldable pub decode_recovery : Bytes → Result Bytes Bytes
  decode_recovery message =
      ok_or (base64.decode (trim message)) (codes "invalid safechat recovery encoding")
