-- ===== src/Carrier/RoundTrip.antt =====
-- codebase/src/carrier.rs: `embed` and `extract` together.
use safechat.Prelude.{
  ℕ, ◌+◌, ◌*◌, ◌/◌, ◌%◌, ◌^◌, ◌≤◌, ◌<◌, ◌≡◌, refl, sym, ap, ◌∙◌, List, [], ◌∷◌, ok, length, All,
  arith, map,
}
use safechat.Prelude.Bytes.{Bytes, IsByte}
use safechat.Carrier.{
  RgbaImage, capacity_bytes, bits_from_bytes, bytes_from_bits, set_bit, embed_pixels, embed,
  extract_bits, extract,
}

abbrev IsBit : ℕ → Type 0
IsBit n = n < 2

bits_of_byte-value :
    (n : ℕ)
    → n < 256
    → ((((((((n / 128 % 2) * 2 + n / 64 % 2) * 2 + n / 32 % 2) * 2 + n / 16 % 2) * 2 + n / 8 % 2)
                  * 2
                + n / 4 % 2)
              * 2
            + n / 2 % 2)
          * 2
        + n % 2)
      ≡ n
bits_of_byte-value n h = omega arith

bytes_from_bits-bits_from_bytes :
    (bs : Bytes) → All IsByte bs → bytes_from_bits (bits_from_bytes bs) ≡ bs
unfolding bytes_from_bits bits_from_bytes
bytes_from_bits-bits_from_bytes [] t = refl
bytes_from_bits-bits_from_bytes (b ∷ bs) t =
    cc (bits_of_byte-value b t.0, bytes_from_bits-bits_from_bytes bs t.1)

bits_from_bytes-bits : (bs : Bytes) → All IsBit (bits_from_bytes bs)
unfolding bits_from_bytes
bits_from_bytes-bits [] = tt
bits_from_bytes-bits (b ∷ bs) = (
  omega arith,
  (
    omega arith,
    (
      omega arith,
      (
        omega arith,
        (omega arith, (omega arith, (omega arith, (omega arith, bits_from_bytes-bits bs)))),
      ),
    ),
  ),
)

length-bits_from_bytes : (bs : Bytes) → length (bits_from_bytes bs) ≡ length bs * 8
unfolding bits_from_bytes
length-bits_from_bytes [] = refl
length-bits_from_bytes (b ∷ bs) = omega (arith, length-bits_from_bytes bs)

three :
    {a b c x y z : ℕ} {xs ys : List ℕ}
    → a ≡ x
    → b ≡ y
    → c ≡ z
    → xs ≡ ys
    → a ∷ b ∷ c ∷ xs ≡ x ∷ y ∷ z ∷ ys
three p q r s = cc (p, q, r, s)

no_bits : (bits : List ℕ) → length bits ≤ 0 → bits ≡ []
no_bits [] h = refl
no_bits (x ∷ bits) h = ground arith

-- Channels that may hold a bit are read back, as many as were written.
extract_bits-embed_pixels :
    (pixels : Bytes) (bits : List ℕ)
    → All IsBit bits
    → length bits ≤ length pixels / 4 * 3
    → extract_bits (embed_pixels pixels bits) (length bits) ≡ bits
unfolding extract_bits embed_pixels
extract_bits-embed_pixels (r ∷ g ∷ b ∷ a ∷ rest) [] t fits = refl
extract_bits-embed_pixels (r ∷ g ∷ b ∷ a ∷ rest) (x ∷ []) t fits = ground arith
extract_bits-embed_pixels (r ∷ g ∷ b ∷ a ∷ rest) (x ∷ y ∷ []) t fits = ground arith
extract_bits-embed_pixels (r ∷ g ∷ b ∷ a ∷ rest) (x ∷ y ∷ z ∷ bits) t fits =
    three (omega (arith, t.0)) (omega (arith, t.1.0)) (omega (arith, t.1.1.0))
      (extract_bits-embed_pixels rest bits t.1.1.1 (omega arith))
extract_bits-embed_pixels [] bits t fits = sym (no_bits bits (omega arith))
extract_bits-embed_pixels (r ∷ []) bits t fits = sym (no_bits bits (omega arith))
extract_bits-embed_pixels (r ∷ g ∷ []) bits t fits = sym (no_bits bits (omega arith))
extract_bits-embed_pixels (r ∷ g ∷ b ∷ []) bits t fits = sym (no_bits bits (omega arith))

length-embed_pixels :
    (pixels : Bytes) (bits : List ℕ) → length (embed_pixels pixels bits) ≡ length pixels
unfolding embed_pixels
length-embed_pixels (r ∷ g ∷ b ∷ a ∷ rest) [] = refl
length-embed_pixels (r ∷ g ∷ b ∷ a ∷ rest) (x ∷ []) = refl
length-embed_pixels (r ∷ g ∷ b ∷ a ∷ rest) (x ∷ y ∷ []) = refl
length-embed_pixels (r ∷ g ∷ b ∷ a ∷ rest) (x ∷ y ∷ z ∷ bits) =
    omega (arith, length-embed_pixels rest bits)
length-embed_pixels [] bits = refl
length-embed_pixels (r ∷ []) bits = refl
length-embed_pixels (r ∷ g ∷ []) bits = refl
length-embed_pixels (r ∷ g ∷ b ∷ []) bits = refl

embed_ok :
    (carrier image : RgbaImage) (payload : Bytes)
    → embed carrier payload ≡ ok image
    → (length payload ≤ length carrier.pixels / 4 * 3 / 8)
      × (image.pixels ≡ embed_pixels carrier.pixels (bits_from_bytes payload))
unfolding embed capacity_bytes
embed_ok carrier image payload e = ground arith

extract_ok :
    (image : RgbaImage) (count : ℕ) (bits : List ℕ)
    → count ≤ length image.pixels / 4 * 3 / 8
    → count * 8 < 2 ^ 64
    → extract_bits image.pixels (count * 8) ≡ bits
    → length bits ≡ count * 8
    → extract image count ≡ ok (bytes_from_bits bits)
unfolding extract capacity_bytes
extract_ok image count bits fits small read all = rw read (ground arith)

-- What `embed` puts into an image, `extract` gets out of it with the length of the payload, for a
-- payload of bytes and an image of fewer than 2 ^ 61 of them.
pub extract-embed :
    (carrier image : RgbaImage) (payload : Bytes)
    → All IsByte payload
    → length carrier.pixels < 2 ^ 61
    → embed carrier payload ≡ ok image
    → extract image (length payload) ≡ ok payload
extract-embed carrier image payload t small e =
    let (fits, is) = embed_ok carrier image payload e in
    let bits = bits_from_bytes payload in
    let count = length-bits_from_bytes payload in
    let written =
      extract_bits-embed_pixels carrier.pixels bits (bits_from_bytes-bits payload) (omega arith) in
    let read : extract_bits image.pixels (length payload * 8) ≡ bits = cc (is, count, written) in
    let kept = length-embed_pixels carrier.pixels bits in
    let same : length image.pixels ≡ length carrier.pixels = cc (is, kept) in
    extract_ok image (length payload) bits (omega arith) (omega arith) read count
    ∙ ap ok (bytes_from_bits-bits_from_bytes payload t)

-- The fourth bytes of the pixels.
pub alphas : Bytes → Bytes
alphas (r ∷ g ∷ b ∷ a ∷ rest) = a ∷ alphas rest
alphas _ = []

-- All that an observer of the upper seven bits and of the alpha channel sees.
abbrev pub visible : Bytes → Bytes × Bytes
visible pixels = (map (λ c. c / 2) pixels, alphas pixels)

faint : (c x : ℕ) → IsBit x → set_bit c x / 2 ≡ c / 2
faint c x h = omega arith

visible-embed_pixels :
    (pixels : Bytes) (bits : List ℕ)
    → All IsBit bits
    → visible (embed_pixels pixels bits) ≡ visible pixels
unfolding embed_pixels alphas
visible-embed_pixels (r ∷ g ∷ b ∷ a ∷ rest) [] t = refl
visible-embed_pixels (r ∷ g ∷ b ∷ a ∷ rest) (x ∷ []) t = cc (faint r x t.0)
visible-embed_pixels (r ∷ g ∷ b ∷ a ∷ rest) (x ∷ y ∷ []) t = cc (faint r x t.0, faint g y t.1.0)
visible-embed_pixels (r ∷ g ∷ b ∷ a ∷ rest) (x ∷ y ∷ z ∷ bits) t =
    let later = visible-embed_pixels rest bits t.1.1.1 in
    let kept = faint r x t.0 in
    let kept_g = faint g y t.1.0 in
    let kept_b = faint b z t.1.1.0 in cc (later, kept, kept_g, kept_b)
visible-embed_pixels [] bits t = refl
visible-embed_pixels (r ∷ []) bits t = refl
visible-embed_pixels (r ∷ g ∷ []) bits t = refl
visible-embed_pixels (r ∷ g ∷ b ∷ []) bits t = refl

-- A payload of at most the carrier's capacity is embedded, into an image of the same size that
-- differs from the carrier in nothing but the lowest bits of colour channels.
pub embed_fits :
    (carrier : RgbaImage) (payload : Bytes)
    → length payload ≤ capacity_bytes carrier
    → (image : RgbaImage) × (embed carrier payload ≡ ok image)
      × (image.width ≡ carrier.width)
      × (image.height ≡ carrier.height)
      × (length image.pixels ≡ length carrier.pixels)
      × (visible image.pixels ≡ visible carrier.pixels)
unfolding embed
embed_fits carrier payload fits =
    let bits = bits_from_bytes payload in
    (
      record carrier { pixels = embed_pixels carrier.pixels bits },
      ground arith,
      refl,
      refl,
      length-embed_pixels carrier.pixels bits,
      visible-embed_pixels carrier.pixels bits (bits_from_bytes-bits payload),
    )
