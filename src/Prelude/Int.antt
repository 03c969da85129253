-- ===== src/Prelude/Int.antt =====
-- Go's signed integers, as ℤ over the native numbers (`negsuc n` is -(n + 1)).
use Prim.Native.Nat.{ℕ, suc, ◌+◌, ◌-◌, ◌*◌, ◌%◌, ◌^◌}
use mathlib.Core.Bool.{Bool}
use rpaas_operator.Prelude.Tests.{ltb, leb, nat_eq, if◌then◌else◌}

pub data ℤ : Type 0 where
  pos : ℕ → ℤ
  negsuc : ℕ → ℤ

abbrev pub pos_part : ℤ → ℕ
pos_part (pos n) = n
pos_part (negsuc n) = 0

abbrev pub neg_part : ℤ → ℕ
neg_part (pos n) = 0
neg_part (negsuc n) = suc n

abbrev pub ltb_ℤ : ℤ → ℤ → Bool
ltb_ℤ a b = ltb (pos_part a + neg_part b) (pos_part b + neg_part a)

abbrev pub leb_ℤ : ℤ → ℤ → Bool
leb_ℤ a b = leb (pos_part a + neg_part b) (pos_part b + neg_part a)

abbrev pub eqb_ℤ : ℤ → ℤ → Bool
eqb_ℤ a b = nat_eq (pos_part a + neg_part b) (pos_part b + neg_part a)

infix 50 ◌≤ℤ◌
abbrev pub ◌≤ℤ◌ : ℤ → ℤ → Type 0
a ≤ℤ b = Prim.Native.Nat.◌≤◌ (pos_part a + neg_part b) (pos_part b + neg_part a)

infix 50 ◌<ℤ◌
abbrev pub ◌<ℤ◌ : ℤ → ℤ → Type 0
a <ℤ b = Prim.Native.Nat.◌<◌ (pos_part a + neg_part b) (pos_part b + neg_part a)

-- The value of a 64-bit pattern in two's complement.
abbrev pub of_int64 : ℕ → ℤ
of_int64 m = if ltb m (2 ^ 63) then pos m else negsuc (2 ^ 64 - 1 - m)

-- `a * k` on Go's 64-bit int, for a constant k.
unfoldable pub scale_int64 : ℤ → ℕ → ℤ
scale_int64 (pos n) k = of_int64 ((n * k) % 2 ^ 64)
scale_int64 (negsuc n) k = of_int64 ((2 ^ 64 - (suc n * k) % 2 ^ 64) % 2 ^ 64)

-- The value of a 32-bit pattern in two's complement.
abbrev pub of_int32 : ℕ → ℤ
of_int32 m = if ltb m (2 ^ 31) then pos m else negsuc (2 ^ 32 - 1 - m)

-- `int32(n)` of an int that is positive.
unfoldable pub int32_of_positive : ℕ → ℤ
int32_of_positive n = of_int32 (n % 2 ^ 32)
