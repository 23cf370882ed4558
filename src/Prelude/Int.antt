-- ===== src/Prelude/Int.antt =====
-- Signed machine integers: `i64` as an integer, and its two's complement pattern.
use Prim.Native.Nat.{ℕ, ◌+◌, ◌-◌, ◌^◌, ◌<◌}
use mathlib.Core.Path.{◌≡◌}
use native.Mathlib.Omega.{arith}
use mathlib.Core.Bool.{Bool}
use safechat.Prelude.Tests.{ltb, leb, if◌then◌else◌}

-- `negsuc n` is -(n + 1).
pub data ℤ : Type 0 where
  pos : ℕ → ℤ
  negsuc : ℕ → ℤ

-- The numbers of an `i64` and of a `u64`.
abbrev pub IsI64 : ℤ → Type 0
IsI64 (pos n) = n < 2 ^ 63
IsI64 (negsuc n) = n < 2 ^ 63

abbrev pub IsU64 : ℕ → Type 0
IsU64 n = n < 2 ^ 64

-- `x as u64` and `x as i64`, which keep the 64-bit pattern.
unfoldable pub as_u64 : ℤ → ℕ
as_u64 (pos n) = n
as_u64 (negsuc n) = 2 ^ 64 - (n + 1)

unfoldable pub as_i64 : ℕ → ℤ
as_i64 n = if ltb n (2 ^ 63) then pos n else negsuc (2 ^ 64 - (n + 1))

pub as_i64-as_u64 : (z : ℤ) → IsI64 z → as_i64 (as_u64 z) ≡ z
unfolding as_i64 as_u64
as_i64-as_u64 (pos n) h = ground arith
as_i64-as_u64 (negsuc n) h = ground arith

pub as_u64-as_i64 : (n : ℕ) → IsU64 n → as_u64 (as_i64 n) ≡ n
unfolding as_i64 as_u64
as_u64-as_i64 n h = ground arith

pub as_u64-lt : (z : ℤ) → IsI64 z → as_u64 z < 2 ^ 64
unfolding as_u64
as_u64-lt (pos n) h = omega arith
as_u64-lt (negsuc n) h = omega arith

pub as_i64-IsI64 : (n : ℕ) → IsU64 n → IsI64 (as_i64 n)
unfolding as_i64
as_i64-IsI64 n h = ground arith

-- SQL and Rust comparisons of signed numbers.
abbrev pub leb_ℤ : ℤ → ℤ → Bool
leb_ℤ (pos a) (pos b) = leb a b
leb_ℤ (pos a) (negsuc b) = Bool.false
leb_ℤ (negsuc a) (pos b) = Bool.true
leb_ℤ (negsuc a) (negsuc b) = leb b a
