-- ===== src/Transport/Tests.antt =====
-- codebase/core/src/transport.rs: the text forms with a concrete encoder.
use safechat.Prelude.{
  ℕ, zero, suc, ◌==◌, if◌then◌else◌, ◌≡◌, refl, ap, ◌∙◌, true, some, [], ◌∷◌, ok, All,
}
use safechat.Prelude.Bytes.{Bytes}
use safechat.Prelude.Text.{is_space, trim, trim_start}
use safechat.Transport.{
  Base64, encode_text, decode_text, encode_bundle, decode_bundle, encode_recovery, decode_recovery,
}
use safechat.Transport.RoundTrip.{Base64Laws, is_plain, texts_round_trip}

-- A stand-in that writes a byte `n` as `n` letters A and a B.
abbrev letters : ℕ → Bytes → Bytes
letters zero rest = 66 ∷ rest
letters (suc n) rest = 65 ∷ letters n rest

abbrev one_more : Bytes → Bytes
one_more [] = []
one_more (n ∷ ns) = suc n ∷ ns

abbrev count_letters : Bytes → Bytes
count_letters [] = []
count_letters (c ∷ cs) = let rest = count_letters cs in if c == 66 then 0 ∷ rest else one_more rest

abbrev spelled : Bytes → Bytes
spelled [] = []
spelled (b ∷ bs) = letters b (spelled bs)

unfoldable pub counted : Base64
counted = record { encode = spelled; decode = λ t. some (count_letters t) }

count_letters-letters :
    (n : ℕ) (rest : Bytes) → count_letters (letters n rest) ≡ n ∷ count_letters rest
count_letters-letters zero rest = refl
count_letters-letters (suc n) rest = ap one_more (count_letters-letters n rest)

count_letters-spelled : (bs : Bytes) → count_letters (spelled bs) ≡ bs
count_letters-spelled [] = refl
count_letters-spelled (b ∷ bs) =
    count_letters-letters b (spelled bs) ∙ ap (λ r. b ∷ r) (count_letters-spelled bs)

letters-plain :
    (n : ℕ) (rest : Bytes)
    → All (λ c. is_plain c ≡ true) rest
    → All (λ c. is_plain c ≡ true) (letters n rest)
unfolding is_space
letters-plain zero rest h = (refl, h)
letters-plain (suc n) rest h = (refl, letters-plain n rest h)

spelled-plain : (bs : Bytes) → All (λ c. is_plain c ≡ true) (spelled bs)
spelled-plain [] = tt
spelled-plain (b ∷ bs) = letters-plain b (spelled bs) (spelled-plain bs)

pub counted_laws : Base64Laws counted
unfolding counted
counted_laws = record { decodes = λ bs. ap some (count_letters-spelled bs); plain = spelled-plain }

-- White space of one, of two and of three bytes, and none.
trimmed : trim (194 ∷ 160 ∷ 32 ∷ 65 ∷ 32 ∷ 66 ∷ 226 ∷ 128 ∷ 137 ∷ 10 ∷ []) ≡ 65 ∷ 32 ∷ 66 ∷ []
unfolding trim trim_start is_space
trimmed = refl

kept : trim (194 ∷ 161 ∷ 226 ∷ 128 ∷ 148 ∷ []) ≡ 194 ∷ 161 ∷ 226 ∷ 128 ∷ 148 ∷ []
unfolding trim trim_start is_space
kept = refl

encoded : encode_text counted (1 ∷ 2 ∷ []) ≡ 65 ∷ 66 ∷ 65 ∷ 65 ∷ 66 ∷ 10 ∷ []
unfolding encode_text counted
encoded = refl

texts_round_trip_example :
    (decode_text counted (encode_text counted (1 ∷ 0 ∷ 255 ∷ [])) ≡ ok (1 ∷ 0 ∷ 255 ∷ []))
    × (decode_bundle counted (encode_bundle counted (1 ∷ 0 ∷ 255 ∷ [])) ≡ ok (1 ∷ 0 ∷ 255 ∷ []))
    × (decode_recovery counted (encode_recovery counted (1 ∷ 0 ∷ 255 ∷ [])) ≡ ok (1 ∷ 0 ∷ 255 ∷ []))
texts_round_trip_example = texts_round_trip counted counted_laws (1 ∷ 0 ∷ 255 ∷ [])
