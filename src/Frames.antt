-- ===== src/Frames.antt =====
-- codebase/core/src/signal_adapter.rs: the frames of messages and of Signal envelopes. Compression
-- and the Signal messages are ports; a message id is its 16 bytes.
pub mod RoundTrip
pub mod Tests
use safechat.Prelude.{
  ℕ, ◌+◌, ◌*◌, ◌^◌, Bool, true, false, ◌&&◌, ◌||◌, not, Option, none, some, List, [], ◌∷◌, ◌++◌,
  Result, ok, err, bail_if, ltb, leb, ◌==◌, if◌then◌else◌, length, get_or, take, drop, ◌>>=◌, ◌>>◌,
}
use safechat.Prelude.Bytes.{Bytes, codes, to_be_bytes, from_be_bytes}

abbrev pub format_version : ℕ
format_version = 1

abbrev pub frame_envelope : ℕ
frame_envelope = 3

abbrev pub frame_message : ℕ
frame_message = 4

abbrev pub frame_message_compressed : ℕ
frame_message_compressed = 5

abbrev pub envelope_header_len : ℕ
envelope_header_len = 7

abbrev pub max_ciphertext_len : ℕ
max_ciphertext_len = 16 * 1024 * 1024

abbrev pub min_compressible_message_len : ℕ
min_compressible_message_len = 256

abbrev pub max_message_len : ℕ
max_message_len = 8 * 1024 * 1024

pub record SafeChatMessage : Type 0 where
  pub id : Bytes
  pub plaintext : Bytes

pub record SignalEnvelope : Type 0 where
  pub message_type : ℕ
  pub ciphertext : Bytes

-- `ZlibEncoder`, and `ZlibDecoder` read to the end but not beyond a number of bytes.
pub record Zlib : Type 0 where
  pub compress : Bytes → Result Bytes Bytes
  pub decompress_at_most : ℕ → Bytes → Result Bytes Bytes

-- `MessageId::from_bytes`
unfoldable pub message_id_from_bytes : Bytes → Result Bytes Bytes
message_id_from_bytes bytes =
    if length bytes == 16 then ok bytes else err (codes "invalid message ID length")

-- `u32::try_from`
unfoldable pub try_u32 : ℕ → Bytes → Result Bytes ℕ
try_u32 n reason = if ltb n (2 ^ 32) then ok n else err reason

-- `u32::from_be_bytes(input[start..start + 4])`
abbrev pub u32_at : ℕ → Bytes → ℕ
u32_at start input = from_be_bytes (take 4 (drop start input))

abbrev pub frame : ℕ → Bytes → ℕ → ℕ → Bytes → Bytes
frame kind id original stored body =
    format_version ∷ kind ∷ (id ++ (to_be_bytes 4 original ++ (to_be_bytes 4 stored ++ body)))

-- The frame of a message that compression has shortened.
unfoldable pub encode_compressed : SafeChatMessage → ℕ → Bytes → Result Bytes Bytes
unfolding try_u32
encode_compressed message original compressed = do
  stored ← try_u32 (length compressed) (codes "compressed message length overflow")
  ok (frame frame_message_compressed message.id original stored compressed)

module _ (zlib : Zlib) where
  unfoldable pub encode_message : SafeChatMessage → Result Bytes Bytes
  unfolding try_u32 encode_compressed
  encode_message message = do
    let size = length message.plaintext
    bail_if (ltb max_message_len size) (codes "message exceeds SafeChat limit")
    original ← try_u32 size (codes "message length overflow")
    compressed ← zlib.compress message.plaintext
    if leb min_compressible_message_len size && ltb (length compressed) size
        then encode_compressed message original compressed
        else ok (frame frame_message message.id original original message.plaintext)

  unfoldable pub decode_compressed : Bytes → Result Bytes SafeChatMessage
  unfolding message_id_from_bytes
  decode_compressed input = do
    bail_if (ltb (length input) 26) (codes "truncated compressed SafeChat message")
    id ← message_id_from_bytes (take 16 (drop 2 input))
    let original_length = u32_at 18 input
    let stored_length = u32_at 22 input
    bail_if
        (ltb max_message_len original_length
          || ltb max_message_len stored_length
          || not (length input == 26 + stored_length))
        (codes "invalid compressed SafeChat message length")
    plaintext ← zlib.decompress_at_most (original_length + 1) (drop 26 input)
    bail_if (not (length plaintext == original_length))
        (codes "decompressed SafeChat message length mismatch")
    ok (record { id = id; plaintext = plaintext })

  unfoldable pub decode_plain : Bytes → Result Bytes SafeChatMessage
  unfolding message_id_from_bytes
  decode_plain input = do
    bail_if (ltb (length input) 26) (codes "truncated SafeChat message")
    id ← message_id_from_bytes (take 16 (drop 2 input))
    let original_length = u32_at 18 input
    let stored_length = u32_at 22 input
    bail_if
        (ltb max_message_len original_length
          || ltb max_message_len stored_length
          || not (stored_length == original_length)
          || not (length input == 26 + stored_length))
        (codes "message exceeds SafeChat limit")
    ok (record { id = id; plaintext = drop 26 input })

  unfoldable pub decode_message : Bytes → Result Bytes SafeChatMessage
  unfolding decode_compressed decode_plain
  decode_message input = do
    bail_if (ltb (length input) 2) (codes "truncated SafeChat message")
    bail_if (not (get_or input 0 0 == format_version))
        (codes "unsupported SafeChat message version")
    if get_or input 1 0 == frame_message_compressed
        then decode_compressed input
        else if not (get_or input 1 0 == frame_message)
        then err (codes "unsupported SafeChat message frame")
        else decode_plain input

-- The numbers of `CiphertextMessageType::Whisper` and `PreKey`, which libsignal fixes.
pub record CiphertextTypes : Type 0 where
  pub whisper : ℕ
  pub prekey : ℕ

module _ (types : CiphertextTypes) where
  abbrev pub is_supported : ℕ → Bool
  is_supported kind = kind == types.whisper || kind == types.prekey

  unfoldable pub encode_envelope : SignalEnvelope → Result Bytes Bytes
  unfolding try_u32
  encode_envelope envelope = do
    bail_if (not (is_supported envelope.message_type)) (codes "unsupported Signal ciphertext type")
    bail_if (ltb max_ciphertext_len (length envelope.ciphertext))
        (codes "Signal ciphertext exceeds SafeChat limit")
    size ← try_u32 (length envelope.ciphertext) (codes "ciphertext length overflow")
    ok (
        format_version
        ∷ frame_envelope
        ∷ envelope.message_type
        ∷ (to_be_bytes 4 size ++ envelope.ciphertext))

  unfoldable pub decode_envelope : Bytes → Result Bytes SignalEnvelope
  decode_envelope input = do
    bail_if
        (ltb (length input) envelope_header_len
          || not (get_or input 0 0 == format_version)
          || not (get_or input 1 0 == frame_envelope))
        (codes "invalid Signal envelope")
    let message_type = get_or input 2 0
    bail_if (not (is_supported message_type)) (codes "unsupported Signal ciphertext type")
    let size = u32_at 3 input
    bail_if (ltb max_ciphertext_len size || not (length input == envelope_header_len + size))
        (codes "invalid Signal envelope length")
    ok (record { message_type = message_type; ciphertext = drop envelope_header_len input })
