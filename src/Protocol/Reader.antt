-- ===== src/Protocol/Reader.antt =====
-- `Reader` and the decoders of codebase/relay-protocol/src/lib.rs. A method on `&mut self` takes
-- the reader and returns its result with the reader as it is afterwards.
use safechat.Prelude.{
  ℕ, zero, suc, ◌+◌, ◌-◌, ◌^◌, Bool, ◌||◌, ◌&&◌, not, Option, none, some, List, [], ◌∷◌, Result, ok,
  err, bail_if, ok_or, ltb, leb, ◌==◌, if◌then◌else◌, length, get_or, take as take_list, drop, ℤ,
  as_i64,
}
use safechat.Prelude.Bytes.{Bytes, from_be_bytes}
use safechat.Prelude.Utf8.{is_utf8}
use safechat.Prelude
use safechat.Protocol.{
  version, schema, kind_submit, kind_messages, max_messages, max_body, max_recipient_bytes,
  max_message_id_bytes, max_address_bytes, max_ciphertext_bytes, Submit, Message, Field, What,
  Error, binary_field, binary_u32, binary_u64, binary_i64, exceeds_limit, not_utf8, truncated,
  offset_overflow, too_many_messages, body_too_large, truncated_header, unsupported_version,
  unexpected_kind, trailing_bytes, unknown_address_flag, unknown_expiration_flag,
}

pub record Reader : Type 0 where
  pub input : Bytes
  pub offset : ℕ

abbrev pub Read : Type 0 → Type 0
Read A = Reader → Result Error (A × Reader)

abbrev pub pure : {A : Type 0} → A → Read A
pure a r = ok (a, r)

infixl 5 ◌>>=◌ ◌>>◌
abbrev pub ◌>>=◌ : {A B : Type 0} → Read A → (A → Read B) → Read B
◌>>=◌ m f r = Prelude.◌>>=◌ (m r) λ (a, r'). f a r'

abbrev pub ◌>>◌ : {B : Type 0} → Read (Unit {0}) → Read B → Read B
m >> k = m >>= λ _. k

abbrev pub lift : {A : Type 0} → Result Error A → Read A
lift m r = Prelude.◌>>=◌ m λ a. ok (a, r)

-- `Reader::new`. The header's length has been tested before the slices are taken.
unfoldable pub new_reader : Bytes → ℕ → Result Error Reader
new_reader input kind =
    if ltb max_body (length input)
    then err body_too_large
    else if ltb (length input) 5
    then err truncated_header
    else if not (from_be_bytes (take_list 2 input) == version)
        || not (from_be_bytes (take_list 2 (drop 2 input)) == schema)
    then err unsupported_version
    else if not (get_or input 4 0 == kind)
    then err unexpected_kind
    else ok (record { input = input; offset = 5 })

-- `input.get(offset..end)`
unfoldable pub get_range : Bytes → ℕ → ℕ → Option Bytes
get_range input offset end =
    if leb offset end && leb end (length input)
    then some (take_list (end - offset) (drop offset input))
    else none

-- `checked_add` on a 64-bit `usize`
abbrev pub checked_add : ℕ → ℕ → Option ℕ
checked_add a b = if ltb (a + b) (2 ^ 64) then some (a + b) else none

unfoldable pub take : ℕ → What → Read Bytes
take n what r = Prelude.◌>>=◌ (ok_or (checked_add r.offset n) offset_overflow) λ end.
    Prelude.◌>>=◌ (ok_or (get_range r.input r.offset end) (truncated what))
      λ value. ok (value, record r { offset = end })

-- `first().copied()`
abbrev pub first : Bytes → Option ℕ
first [] = none
first (b ∷ bs) = some b

unfoldable pub read_u8 : Read ℕ
read_u8 = do value ← take 1 binary_field; lift (ok_or (first value) (truncated binary_field))

unfoldable pub read_u32 : Read ℕ
read_u32 = do value ← take 4 binary_u32; pure (from_be_bytes value)

unfoldable pub read_u64 : Read ℕ
read_u64 = do value ← take 8 binary_u64; pure (from_be_bytes value)

unfoldable pub read_i64 : Read ℤ
read_i64 = do value ← take 8 binary_i64; pure (as_i64 (from_be_bytes value))

unfoldable pub read_bytes : ℕ → Field → Read Bytes
read_bytes limit field = do
  len ← read_u32
  lift (bail_if (ltb limit len) (exceeds_limit field))
  take len (What.field field)

unfoldable pub read_string : ℕ → Field → Read Bytes
read_string limit field = do
  value ← read_bytes limit field
  lift (bail_if (not (is_utf8 value)) (not_utf8 field))
  pure value

-- The `match` on a flag byte.
unfoldable pub expiry_of_flag : ℕ → Read (Option ℕ)
expiry_of_flag zero = pure none
expiry_of_flag (suc zero) = do value ← read_u64; pure (some value)
expiry_of_flag (suc (suc flag)) = lift (err unknown_expiration_flag)

unfoldable pub read_expiry : Read (Option ℕ)
read_expiry = do flag ← read_u8; expiry_of_flag flag

unfoldable pub finish : Read (Unit {0})
finish r = if not (r.offset == length r.input) then err trailing_bytes else ok (tt, r)

-- The rest of `decode_submit`, on the reader that `Reader::new` returns.
unfoldable pub read_submit : Read Submit
read_submit = do
  recipient ← read_string max_recipient_bytes Field.recipient
  message_id ← read_string max_message_id_bytes Field.message_id
  expires_at ← read_expiry
  ciphertext ← read_bytes max_ciphertext_bytes Field.ciphertext
  finish
  pure (record {
    recipient = recipient;
    message_id = message_id;
    expires_at = expires_at;
    ciphertext = ciphertext;
  })

unfoldable pub decode_submit : Bytes → Result Error Submit
decode_submit input =
    Prelude.◌>>=◌ (new_reader input kind_submit)
      λ reader. Prelude.◌>>=◌ (read_submit reader) λ (value, _). ok value

-- The `match` on the flag byte of a sender address.
unfoldable pub address_of_flag : ℕ → Read (Option Bytes)
address_of_flag zero = pure none
address_of_flag (suc zero) = do
  address ← read_string max_address_bytes Field.sender_address
  pure (some address)
address_of_flag (suc (suc flag)) = lift (err unknown_address_flag)

unfoldable pub read_address : Read (Option Bytes)
read_address = do flag ← read_u8; address_of_flag flag

-- The body of the loop of `decode_messages`.
unfoldable pub read_message : Read Message
read_message = do
  server_id ← read_i64
  sender ← read_string max_address_bytes Field.sender
  sender_address ← read_address
  message_id ← read_string max_message_id_bytes Field.message_id
  accepted_at ← read_u64
  expires_at ← read_expiry
  ciphertext ← read_bytes max_ciphertext_bytes Field.ciphertext
  pure (record {
    server_id = server_id;
    sender = sender;
    sender_address = sender_address;
    message_id = message_id;
    accepted_at = accepted_at;
    expires_at = expires_at;
    ciphertext = ciphertext;
  })

-- `for _ in 0..count`
unfoldable pub read_messages : ℕ → Read (List Message)
read_messages zero = pure []
read_messages (suc count) = do
  message ← read_message
  messages ← read_messages count
  pure (message ∷ messages)

-- The rest of `decode_messages`, on the reader that `Reader::new` returns.
unfoldable pub read_counted : Read (List Message)
read_counted = do
  count ← read_u32
  lift (bail_if (ltb max_messages count) too_many_messages)
  messages ← read_messages count
  finish
  pure messages

unfoldable pub decode_messages : Bytes → Result Error (List Message)
decode_messages input =
    Prelude.◌>>=◌ (new_reader input kind_messages)
      λ reader. Prelude.◌>>=◌ (read_counted reader) λ (messages, _). ok messages
