-- ===== src/Protocol.antt =====
-- codebase/relay-protocol/src/lib.rs: the binary frames of the message endpoints. Here the
-- constants, the data and the errors; `Writer` has the encoders and `Reader` the decoders.
pub mod Writer
pub mod Reader
pub mod Layout
pub mod Reads
pub mod RoundTrip
pub mod Parses
pub mod Canonical
mod Tests
use safechat.Prelude.{ℕ, ◌*◌, Option, List}
use safechat.Prelude.{ℤ}
use safechat.Prelude.Bytes.{Bytes}

abbrev pub version : ℕ
version = 1

abbrev pub schema : ℕ
schema = 1

abbrev pub kind_submit : ℕ
kind_submit = 1

abbrev pub kind_messages : ℕ
kind_messages = 2

abbrev pub max_messages : ℕ
max_messages = 100

abbrev pub max_body : ℕ
max_body = 16 * 1024 * 1024

abbrev pub max_recipient_bytes : ℕ
max_recipient_bytes = 256

abbrev pub max_message_id_bytes : ℕ
max_message_id_bytes = 256

abbrev pub max_address_bytes : ℕ
max_address_bytes = 256

abbrev pub max_ciphertext_bytes : ℕ
max_ciphertext_bytes = max_body

-- Text is its UTF-8 bytes.
pub record Submit : Type 0 where
  pub recipient : Bytes
  pub message_id : Bytes
  pub expires_at : Option ℕ
  pub ciphertext : Bytes

pub record Message : Type 0 where
  pub server_id : ℤ
  pub sender : Bytes
  pub sender_address : Option Bytes
  pub message_id : Bytes
  pub accepted_at : ℕ
  pub expires_at : Option ℕ
  pub ciphertext : Bytes

-- The field names and the descriptions in the error texts.
pub data Field : Type 0 where
  recipient message_id ciphertext sender sender_address : Field

pub data What : Type 0 where
  binary_field binary_u32 binary_u64 binary_i64 : What
  field : Field → What

-- The error values: one constructor for each text that the source gives to `bail!` and `context`.
pub data Error : Type 0 where
  exceeds_limit not_utf8 : Field → Error
  truncated : What → Error
  length_overflow count_overflow offset_overflow : Error
  too_many_messages body_too_large truncated_header : Error
  unsupported_version unexpected_kind trailing_bytes : Error
  unknown_address_flag unknown_expiration_flag : Error
