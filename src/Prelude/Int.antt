-- ===== src/Prelude/Int.antt =====
-- Signed integers over the native numbers, and the casts of the source between u64, i64 and i32.
use Prim.Native.Nat.{ℕ, suc, ◌+◌, ◌-◌, ◌%◌, ◌^◌, ◌≤◌, ◌<◌}
use mathlib.Core.Path.{◌≡◌}
use mathlib.Core.Bool.{Bool}
use native.Mathlib.Omega.{arith}
use das.Prelude.Tests.{ltb, leb, ◌==◌, if◌then◌else◌}

-- `negsuc n` is -(n + 1).
pub data ℤ : Type 0 where
  pos : ℕ → ℤ
  negsuc : ℕ → ℤ

abbrev pub pos_part : ℤ → ℕ
pos_part (pos n) = n
pos_part (negsuc n) = 0

abbrev pub neg_part : ℤ → ℕ
neg_part (pos n) = 0
neg_part (negsuc n) = suc n

abbrev pub sub_ℕ : ℕ → ℕ → ℤ
sub_ℕ a b = if leb b a then pos (a - b) else negsuc (b - a - 1)

infixl 65 ◌-ℤ◌
infix 50 ◌≤ℤ◌ ◌<ℤ◌
abbrev pub ◌-ℤ◌ : ℤ → ℤ → ℤ
a -ℤ b = sub_ℕ (pos_part a + neg_part b) (neg_part a + pos_part b)

abbrev pub ◌≤ℤ◌ : ℤ → ℤ → Type 0
a ≤ℤ b = pos_part a + neg_part b ≤ pos_part b + neg_part a

abbrev pub ◌<ℤ◌ : ℤ → ℤ → Type 0
a <ℤ b = pos_part a + neg_part b < pos_part b + neg_part a

abbrev pub ltb_ℤ : ℤ → ℤ → Bool
ltb_ℤ a b = ltb (pos_part a + neg_part b) (pos_part b + neg_part a)

abbrev pub leb_ℤ : ℤ → ℤ → Bool
leb_ℤ a b = leb (pos_part a + neg_part b) (pos_part b + neg_part a)

abbrev pub eqb_ℤ : ℤ → ℤ → Bool
eqb_ℤ a b = (pos_part a + neg_part b) == (pos_part b + neg_part a)

abbrev pub max_ℤ : ℤ → ℤ → ℤ
max_ℤ a b = if leb_ℤ a b then b else a

abbrev pub min_ℤ : ℤ → ℤ → ℤ
min_ℤ a b = if leb_ℤ a b then a else b

-- The sum, for `+` of i64 where it does not overflow.
infixl 65 ◌+ℤ◌
abbrev pub ◌+ℤ◌ : ℤ → ℤ → ℤ
a +ℤ b = sub_ℕ (pos_part a + pos_part b) (neg_part a + neg_part b)

abbrev pub i64_max : ℕ
i64_max = 0x7fff_ffff_ffff_ffff

-- `n as i64` for a u64 or usize `n`: the same 64 bits, read with a sign.
abbrev pub as_i64 : ℕ → ℤ
as_i64 n = if leb n i64_max then pos n else negsuc (0xffff_ffff_ffff_ffff - n)

-- `n as u64` for an i64 `n`.
abbrev pub as_u64 : ℤ → ℕ
as_u64 (pos n) = n
as_u64 (negsuc n) = 0xffff_ffff_ffff_ffff - n

-- `n as i16` for a usize `n`.
abbrev pub as_i16 : ℕ → ℤ
as_i16 n = if leb (n % 0x1_0000) 0x7fff then pos (n % 0x1_0000) else negsuc (0xffff - n % 0x1_0000)

-- The i64 that a wrapping operation leaves of an exact integer.
pub wrap_i64 : ℤ → ℤ
wrap_i64 (pos n) = as_i64 (n % 2 ^ 64)
wrap_i64 (negsuc n) = as_i64 (0xffff_ffff_ffff_ffff - n % 2 ^ 64)

pub wrap_i64_id : (n : ℕ) → n ≤ i64_max → wrap_i64 (pos n) ≡ pos n
unfolding wrap_i64
wrap_i64_id n h = ground arith
