-- ===== src/Prelude/Utf8.antt =====
-- `String::from_utf8`: which byte strings are UTF-8 (the table of well-formed sequences).
use safechat.Prelude.{
  ℕ, zero, suc, ◌≡◌, Bool, true, false, ◌&&◌, Option, none, some, [], ◌∷◌, leb, if◌then◌else◌,
}
use safechat.Prelude.Bytes.{Bytes}

abbrev within : ℕ → ℕ → ℕ → Bool
within lo hi b = leb lo b && leb b hi

-- How many bytes follow a lead byte, and the range of the first of them.
unfoldable pub lead : ℕ → Option (ℕ × ℕ × ℕ)
lead b =
    if leb b 0x7f
    then some (0, 0, 0)
    else if within 0xc2 0xdf b
    then some (1, 0x80, 0xbf)
    else if within 0xe0 0xe0 b
    then some (2, 0xa0, 0xbf)
    else if within 0xed 0xed b
    then some (2, 0x80, 0x9f)
    else if within 0xe1 0xef b
    then some (2, 0x80, 0xbf)
    else if within 0xf0 0xf0 b
    then some (3, 0x90, 0xbf)
    else if within 0xf1 0xf3 b
    then some (3, 0x80, 0xbf)
    else if within 0xf4 0xf4 b
    then some (3, 0x80, 0x8f)
    else none

-- `need` bytes of a sequence are missing, the next of them in the range `lo` to `hi`.
unfoldable pub utf8_from : ℕ → ℕ → ℕ → Bytes → Bool
unfolding lead
utf8_from zero lo hi [] = true
utf8_from (suc need) lo hi [] = false
utf8_from zero lo hi (b ∷ bs) = elim (lead b) [ none ↦ false | some (n, l, h) ↦ utf8_from n l h bs ]
utf8_from (suc need) lo hi (b ∷ bs) = within lo hi b && utf8_from need 0x80 0xbf bs

unfoldable pub is_utf8 : Bytes → Bool
unfolding utf8_from
is_utf8 = utf8_from 0 0 0

-- What a Rust `String` holds.
abbrev pub IsText : Bytes → Type 0
IsText s = is_utf8 s ≡ true
