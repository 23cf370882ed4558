-- ===== src/Prelude/Text.antt =====
-- What the standard library does to text, on its bytes: splitting, trimming, prefixes, case and
-- decimal numbers.
use safechat.Prelude.{
  ℕ, zero, suc, ◌+◌, ◌-◌, ◌*◌, ◌/◌, ◌%◌, ◌^◌, ℤ, pos, negsuc, Bool, true, false, ◌&&◌, ◌||◌, Option,
  none, some, List, [], ◌∷◌, leb, ltb, ◌==◌, if◌then◌else◌,
}
use safechat.Prelude.Bytes.{Bytes}
use mathlib.Core.List.{reverse}

-- One more character in front of parts that are split already.
unfoldable pub split_step : Bool → ℕ → List Bytes → List Bytes
split_step at_separator b [] = (b ∷ []) ∷ []
split_step at_separator b (part ∷ parts) =
    if at_separator then [] ∷ part ∷ parts else (b ∷ part) ∷ parts

-- `str::split` at one ASCII character. There is always a first part.
unfoldable pub split : ℕ → Bytes → List Bytes
split c [] = [] ∷ []
split c (b ∷ bs) = split_step (b == c) b (split c bs)

unfoldable pub is_space : ℕ → Bool
is_space b = b == 32 || leb 9 b && leb b 13

-- The white-space characters of two and of three bytes.
abbrev is_space_2 : ℕ → ℕ → Bool
is_space_2 b c = b == 194 && (c == 133 || c == 160)

abbrev is_space_3 : ℕ → ℕ → ℕ → Bool
is_space_3 b c d =
    b == 225 && c == 154 && d == 128
    || b == 226 && c == 128 && (leb 128 d && leb d 138 || d == 168 || d == 169 || d == 175)
    || b == 226 && c == 129 && d == 159
    || b == 227 && c == 128 && d == 128

-- How many bytes the white-space character at the start of a text has, 0 if there is none.
abbrev pub start_width : Bytes → ℕ
start_width [] = 0
start_width (b ∷ []) = if is_space b then 1 else 0
start_width (b ∷ c ∷ []) = if is_space b then 1 else if is_space_2 b c then 2 else 0
start_width (b ∷ c ∷ d ∷ bs) =
    if is_space b then 1 else if is_space_2 b c then 2 else if is_space_3 b c d then 3 else 0

-- The same at the end of a text, whose bytes come in reverse.
abbrev pub end_width : Bytes → ℕ
end_width [] = 0
end_width (d ∷ []) = if is_space d then 1 else 0
end_width (d ∷ c ∷ []) = if is_space d then 1 else if is_space_2 c d then 2 else 0
end_width (d ∷ c ∷ b ∷ bs) =
    if is_space d then 1 else if is_space_2 c d then 2 else if is_space_3 b c d then 3 else 0

-- Takes away `skip` bytes, and then characters as long as they are white space.
abbrev pub trim_from : (Bytes → ℕ) → ℕ → Bytes → Bytes
trim_from width skip [] = []
trim_from width (suc skip) (b ∷ bs) = trim_from width skip bs
trim_from width zero (b ∷ bs) =
    let size = width (b ∷ bs) in
    let rest = trim_from width (size - 1) bs in if size == 0 then b ∷ bs else rest

unfoldable pub trim_start : Bytes → Bytes
trim_start s = trim_from start_width 0 s

-- `str::trim`
unfoldable pub trim : Bytes → Bytes
trim s = reverse (trim_from end_width 0 (reverse (trim_start s)))

unfoldable pub to_ascii_lowercase : Bytes → Bytes
to_ascii_lowercase [] = []
to_ascii_lowercase (b ∷ bs) =
    (if leb b'A' b && leb b b'Z' then b + 32 else b) ∷ to_ascii_lowercase bs

unfoldable pub strip_prefix : Bytes → Bytes → Option Bytes
strip_prefix [] s = some s
strip_prefix (p ∷ ps) [] = none
strip_prefix (p ∷ ps) (b ∷ bs) = if p == b then strip_prefix ps bs else none

unfoldable pub contains : ℕ → Bytes → Bool
contains c [] = false
contains c (b ∷ bs) = b == c || contains c bs

unfoldable pub digits_from : ℕ → Bytes → Option ℕ
digits_from acc [] = some acc
digits_from acc (b ∷ bs) =
    let acc' = acc * 10 + (b - 48) in
    let rest = digits_from acc' bs in
    if leb 48 b && leb b 57 && ltb acc' (2 ^ 64) then rest else none

-- `parse::<u64>()`: an optional `+`, then digits, at least one, with no overflow.
unfoldable pub parse_u64 : Bytes → Option ℕ
parse_u64 [] = none
parse_u64 (b ∷ []) = digits_from 0 (b ∷ [])
parse_u64 (b ∷ c ∷ bs) = digits_from 0 (if b == 43 then c ∷ bs else b ∷ c ∷ bs)

-- The digits of a number below `10 ^ fuel`, in front of `rest`.
unfoldable pub decimal_from : ℕ → ℕ → Bytes → Bytes
decimal_from zero n rest = rest
decimal_from (suc fuel) n rest =
    let more = decimal_from fuel (n / 10) ((n % 10 + 48) ∷ rest) in
    if ltb n 10 then (n + 48) ∷ rest else more

-- `format!("{n}")` of a 64-bit integer: 20 digits are enough, since `2 ^ 64 < 10 ^ 20`.
unfoldable pub decimal : ℕ → Bytes
decimal n = decimal_from 20 n []

unfoldable pub signed_decimal : ℤ → Bytes
signed_decimal (pos n) = decimal n
signed_decimal (negsuc n) = b'-' ∷ decimal (suc n)

abbrev pub is_some : {A : Type 0} → Option A → Bool
is_some none = false
is_some (some a) = true

-- `str::contains` of a text.
unfoldable pub contains_text : Bytes → Bytes → Bool
unfolding strip_prefix
contains_text needle [] = is_some (strip_prefix needle [])
contains_text needle (b ∷ bs) = is_some (strip_prefix needle (b ∷ bs)) || contains_text needle bs

abbrev digits : Bytes → Option ℕ
unfolding digits_from
digits [] = none
digits (b ∷ bs) = digits_from 0 (b ∷ bs)

abbrev negated : ℕ → ℤ
negated zero = pos 0
negated (suc n) = negsuc n

abbrev up_to : ℕ → (ℕ → ℤ) → Option ℕ → Option ℤ
up_to bound f none = none
up_to bound f (some n) = if leb n bound then some (f n) else none

-- `parse::<i64>()`: an optional sign, then digits, at least one, with no overflow.
unfoldable pub parse_i64 : Bytes → Option ℤ
unfolding digits_from
parse_i64 [] = none
parse_i64 (b ∷ bs) =
    if b == 45
    then up_to (2 ^ 63) negated (digits bs)
    else if b == 43
    then up_to (2 ^ 63 - 1) pos (digits bs)
    else up_to (2 ^ 63 - 1) pos (digits (b ∷ bs))

-- Sanitized parts of file names.
abbrev pub is_alphanumeric : ℕ → Bool
is_alphanumeric b = leb 48 b && leb b 57 || leb 65 b && leb b 90 || leb 97 b && leb b 122

-- A later byte of a character outside ASCII, which is replaced as a whole.
abbrev is_continuation : ℕ → Bool
is_continuation b = leb 128 b && ltb b 192

-- `chars().map(…)`: characters but letters, digits and those of `kept` become `_`.
unfoldable pub component : (ℕ → Bool) → Bytes → Bytes
component kept [] = []
component kept (b ∷ bs) =
    let rest = component kept bs in
    if is_alphanumeric b || kept b then b ∷ rest else if is_continuation b then rest else 95 ∷ rest

abbrev pub is_dash : ℕ → Bool
is_dash b = b == 45 || b == 95
