-- ===== src/Carrier/Tests.antt =====
-- Runs of the carrier on a small image, and its theorems at concrete inputs.
use safechat.Prelude.{◌≡◌, ◌≤◌, refl, [], ◌∷◌, ok, err, length, arith}
use safechat.Carrier.{
  RgbaImage, CarrierError, capacity_bytes, bits_from_bytes, embed_pixels, embed, extract,
}
use safechat.Carrier.RoundTrip.{visible, extract-embed, embed_fits}

abbrev picture : RgbaImage
picture = record {
  width = 3;
  height = 1;
  pixels = 10 ∷ 11 ∷ 12 ∷ 255 ∷ 20 ∷ 21 ∷ 22 ∷ 255 ∷ 30 ∷ 31 ∷ 32 ∷ 255 ∷ [];
}

-- 165 is 10100101 in binary.
abbrev marked : RgbaImage
marked = record picture {
  pixels = 11 ∷ 10 ∷ 13 ∷ 255 ∷ 20 ∷ 20 ∷ 23 ∷ 255 ∷ 30 ∷ 31 ∷ 32 ∷ 255 ∷ [];
}

embed-picture : embed picture (165 ∷ []) ≡ ok marked
unfolding embed capacity_bytes embed_pixels bits_from_bytes
embed-picture = refl

embed_too_much : embed picture (1 ∷ 2 ∷ []) ≡ err CarrierError.payload_too_long
unfolding embed capacity_bytes
embed_too_much = refl

one_fits : 1 ≤ capacity_bytes picture
unfolding capacity_bytes
one_fits = omega arith

extract-embed_example : extract marked 1 ≡ ok (165 ∷ [])
extract-embed_example =
    extract-embed picture marked (165 ∷ []) (omega arith, tt) (omega arith) embed-picture

embed_fits_example :
    (image : RgbaImage) × (embed picture (165 ∷ []) ≡ ok image)
    × (image.width ≡ 3)
    × (image.height ≡ 1)
    × (length image.pixels ≡ 12)
    × (visible image.pixels ≡ visible picture.pixels)
embed_fits_example = embed_fits picture (165 ∷ []) one_fits
