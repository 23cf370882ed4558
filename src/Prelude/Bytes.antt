-- ===== src/Prelude/Bytes.antt =====
-- Bytes: numbers below 256. A Rust `&[u8]` is a list of them, and a `&str` the list of its UTF-8
-- bytes. Big-endian integers and UTF-8 validity are the standard library's.
use Prim.Native.Char.{code}
use Prim.Native.String.{String}
use native.Mathlib.Nat.{pow-suc}
use safechat.Prelude.{
  ℕ, zero, suc, ◌+◌, ◌*◌, ◌/◌, ◌%◌, ◌^◌, ◌<◌, ◌≡◌, refl, ◌∙◌, ◌↔◌, Bool, true, false, ◌&&◌, List,
  [], ◌∷◌, ◌++◌, arith, ◌==◌, length, length-append, All, All-append, All-append_inv, subst,
  snoc-cases,
}

abbrev pub Bytes : Type 0
Bytes = List ℕ

abbrev pub IsByte : ℕ → Type 0
IsByte b = b < 256

-- The bytes of an ASCII literal.
abbrev pub codes : String → Bytes
codes String.[] = []
codes (String.◌∷◌ c s) = code c ∷ codes s

unfoldable pub bytes_eq : Bytes → Bytes → Bool
bytes_eq [] [] = true
bytes_eq [] (b ∷ bs) = false
bytes_eq (a ∷ as') [] = false
bytes_eq (a ∷ as') (b ∷ bs) = a == b && bytes_eq as' bs

pub bytes_eq_iff : (as' bs : Bytes) → (bytes_eq as' bs ≡ true) ↔ (as' ≡ bs)
unfolding bytes_eq
bytes_eq_iff [] [] = (λ _. refl, λ _. refl)
bytes_eq_iff [] (b ∷ bs) = (λ e. cc, λ e. cc)
bytes_eq_iff (a ∷ as') [] = (λ e. cc, λ e. cc)
bytes_eq_iff (a ∷ as') (b ∷ bs) = ground (arith, bytes_eq_iff as' bs)

pub bytes_eq_refl : (bs : Bytes) → bytes_eq bs bs ≡ true
bytes_eq_refl bs = (bytes_eq_iff bs bs).1 refl

pub bytes_eq_comm : (as' bs : Bytes) → bytes_eq as' bs ≡ bytes_eq bs as'
unfolding bytes_eq
bytes_eq_comm [] [] = refl
bytes_eq_comm [] (b ∷ bs) = refl
bytes_eq_comm (a ∷ as') [] = refl
bytes_eq_comm (a ∷ as') (b ∷ bs) = ground (arith, bytes_eq_comm as' bs)

-- `v.to_be_bytes()` of an integer of `k` bytes.
unfoldable pub to_be_bytes : ℕ → ℕ → Bytes
to_be_bytes zero v = []
to_be_bytes (suc k) v = to_be_bytes k (v / 256) ++ (v % 256 ∷ [])

-- `from_be_bytes`, with what is read so far.
unfoldable pub be_from : ℕ → Bytes → ℕ
be_from acc [] = acc
be_from acc (b ∷ bs) = be_from (acc * 256 + b) bs

unfoldable pub from_be_bytes : Bytes → ℕ
unfolding be_from
from_be_bytes = be_from 0

be_from-append :
    (acc : ℕ) (bs : Bytes) (b : ℕ) → be_from acc (bs ++ (b ∷ [])) ≡ be_from acc bs * 256 + b
unfolding be_from
be_from-append acc [] b = refl
be_from-append acc (a ∷ bs) b = be_from-append (acc * 256 + a) bs b

pub length-to_be_bytes : (k v : ℕ) → length (to_be_bytes k v) ≡ k
unfolding to_be_bytes
length-to_be_bytes zero v = refl
length-to_be_bytes (suc k) v =
    omega (
      arith,
      length-append (to_be_bytes k (v / 256)) (v % 256 ∷ []),
      length-to_be_bytes k (v / 256),
    )

pub to_be_bytes-IsByte : (k v : ℕ) → All IsByte (to_be_bytes k v)
unfolding to_be_bytes
to_be_bytes-IsByte zero v = tt
to_be_bytes-IsByte (suc k) v =
    All-append IsByte (to_be_bytes k (v / 256)) _ (to_be_bytes-IsByte k (v / 256)) (omega arith)

shift_below : (k v : ℕ) → v < 256 ^ suc k → v / 256 < 256 ^ k
shift_below k v h = omega (arith, pow-suc 256 k)

pub from_be_bytes-to_be_bytes : (k v : ℕ) → v < 256 ^ k → from_be_bytes (to_be_bytes k v) ≡ v
unfolding from_be_bytes to_be_bytes
from_be_bytes-to_be_bytes zero v h = omega arith
from_be_bytes-to_be_bytes (suc k) v h =
    let ih : be_from 0 (to_be_bytes k (v / 256)) ≡ v / 256 =
      from_be_bytes-to_be_bytes k (v / 256) (shift_below k v h) in
    be_from-append 0 (to_be_bytes k (v / 256)) (v % 256) ∙ omega arith

pub to_be_bytes-from_be_bytes :
    (k : ℕ) (bs : Bytes) → length bs ≡ k → All IsByte bs → to_be_bytes k (from_be_bytes bs) ≡ bs
unfolding to_be_bytes from_be_bytes
to_be_bytes-from_be_bytes zero [] h w = refl
to_be_bytes-from_be_bytes zero (b ∷ bs) h w = absurd (omega arith)
to_be_bytes-from_be_bytes (suc k) bs h w =
    let (ys, b, e, l) = snoc-cases k bs h in
    let (wy, wb) = All-append_inv IsByte ys (b ∷ []) (subst (All IsByte) e w) in
    let low : (be_from 0 ys * 256 + b) / 256 ≡ be_from 0 ys = omega (arith, wb.0) in
    let last : (be_from 0 ys * 256 + b) % 256 ≡ b = omega (arith, wb.0) in
    rw (e, be_from-append 0 ys b, low, last, to_be_bytes-from_be_bytes k ys l wy)

pub from_be_bytes-lt :
    (k : ℕ) (bs : Bytes) → length bs ≡ k → All IsByte bs → from_be_bytes bs < 256 ^ k
unfolding from_be_bytes
from_be_bytes-lt zero [] h w = omega arith
from_be_bytes-lt zero (b ∷ bs) h w = absurd (omega arith)
from_be_bytes-lt (suc k) bs h w =
    let (ys, b, e, l) = snoc-cases k bs h in
    let (wy, wb) = All-append_inv IsByte ys (b ∷ []) (subst (All IsByte) e w) in
    rw (e, be_from-append 0 ys b) (omega (arith, pow-suc 256 k, from_be_bytes-lt k ys l wy, wb.0))
