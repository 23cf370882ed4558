-- ===== src/Carrier.antt =====
-- codebase/src/carrier.rs: `PngCarrier`, which keeps a payload in the lowest bits of the colour
-- channels of an image. A pixel is four bytes, of which the first three are used.
pub mod RoundTrip
pub mod Tests
use safechat.Prelude.{
  ℕ, zero, suc, ◌+◌, ◌*◌, ◌/◌, ◌%◌, ◌^◌, List, [], ◌∷◌, ◌++◌, Result, ok, err, ◌>>=◌, ◌>>◌, bail_if,
  ltb, not, length, ◌==◌,
}
use safechat.Prelude.Bytes.{Bytes}

pub record RgbaImage : Type 0 where
  pub width : ℕ
  pub height : ℕ
  pub pixels : Bytes

pub data CarrierError : Type 0 where
  payload_too_long declared_too_long size_overflow ended_early : CarrierError

unfoldable pub capacity_bytes : RgbaImage → ℕ
capacity_bytes carrier = length carrier.pixels / 4 * 3 / 8

-- The bits of a byte, the highest first.
abbrev pub bits_of_byte : ℕ → List ℕ
bits_of_byte b =
    b / 128 % 2
    ∷ b / 64 % 2
    ∷ b / 32 % 2
    ∷ b / 16 % 2
    ∷ b / 8 % 2
    ∷ b / 4 % 2
    ∷ b / 2 % 2
    ∷ b % 2
    ∷ []

unfoldable pub bits_from_bytes : Bytes → List ℕ
bits_from_bytes [] = []
bits_from_bytes (b ∷ bs) = bits_of_byte b ++ bits_from_bytes bs

-- `chunks_exact(8)`: a last part of fewer than eight bits is dropped.
unfoldable pub bytes_from_bits : List ℕ → Bytes
bytes_from_bits (a ∷ b ∷ c ∷ d ∷ e ∷ f ∷ g ∷ h ∷ bits) =
    (((((((a * 2 + b) * 2 + c) * 2 + d) * 2 + e) * 2 + f) * 2 + g) * 2 + h) ∷ bytes_from_bits bits
bytes_from_bits _ = []

-- `(channel & 0xfe) | bit`
abbrev pub set_bit : ℕ → ℕ → ℕ
set_bit channel bit = channel / 2 * 2 + bit

-- The loop of `embed`: pixels after the last bit stay, and so does a last part of fewer than four
-- bytes.
unfoldable pub embed_pixels : Bytes → List ℕ → Bytes
embed_pixels (r ∷ g ∷ b ∷ a ∷ rest) [] = r ∷ g ∷ b ∷ a ∷ rest
embed_pixels (r ∷ g ∷ b ∷ a ∷ rest) (x ∷ []) = set_bit r x ∷ g ∷ b ∷ a ∷ rest
embed_pixels (r ∷ g ∷ b ∷ a ∷ rest) (x ∷ y ∷ []) = set_bit r x ∷ set_bit g y ∷ b ∷ a ∷ rest
embed_pixels (r ∷ g ∷ b ∷ a ∷ rest) (x ∷ y ∷ z ∷ bits) =
    set_bit r x ∷ set_bit g y ∷ set_bit b z ∷ a ∷ embed_pixels rest bits
embed_pixels rest bits = rest

-- `bits_from_bytes` is consumed as the loop goes; the carrier is changed in place.
unfoldable pub embed : RgbaImage → Bytes → Result CarrierError RgbaImage
embed carrier payload = do
  bail_if (ltb (capacity_bytes carrier) (length payload)) CarrierError.payload_too_long
  ok (record carrier { pixels = embed_pixels carrier.pixels (bits_from_bytes payload) })

-- The loop of `extract`, for a number of bits that is still to be read.
unfoldable pub extract_bits : Bytes → ℕ → List ℕ
extract_bits (r ∷ g ∷ b ∷ a ∷ rest) zero = []
extract_bits (r ∷ g ∷ b ∷ a ∷ rest) (suc zero) = r % 2 ∷ []
extract_bits (r ∷ g ∷ b ∷ a ∷ rest) (suc (suc zero)) = r % 2 ∷ g % 2 ∷ []
extract_bits (r ∷ g ∷ b ∷ a ∷ rest) (suc (suc (suc n))) =
    r % 2 ∷ g % 2 ∷ b % 2 ∷ extract_bits rest n
extract_bits _ n = []

unfoldable pub extract : RgbaImage → ℕ → Result CarrierError Bytes
extract carrier count = do
  bail_if (ltb (capacity_bytes carrier) count) CarrierError.declared_too_long
  bail_if (not (ltb (count * 8) (2 ^ 64))) CarrierError.size_overflow
  let bits = extract_bits carrier.pixels (count * 8)
  bail_if (not (length bits == count * 8)) CarrierError.ended_early
  ok (bytes_from_bits bits)
