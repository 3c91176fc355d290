-- ===== src/Base/Int.antt =====
-- Signed integers over the native numbers, and the two's complement words that carry them.
use Prim.Native.Nat.{ℕ, suc, ◌+◌, ◌-◌, ◌%◌, ◌^◌, ◌≤◌, ◌<◌}
use mathlib.Core.Path.{◌≡◌}
use mathlib.Core.Bool.{Bool}
use native.Mathlib.Omega.{arith}
use stm32_board.Base.Tests.{ltb, if◌then◌else◌}

-- `negsuc n` is -(n + 1).
pub data ℤ : Type 0 where
  pos : ℕ → ℤ
  negsuc : ℕ → ℤ

abbrev pub pos_part : ℤ → ℕ
pos_part (pos n) = n
pos_part (negsuc n) = 0

abbrev pub neg_part : ℤ → ℕ
neg_part (pos n) = 0
neg_part (negsuc n) = suc n

infix 50 ◌≤ℤ◌
abbrev pub ◌≤ℤ◌ : ℤ → ℤ → Type 0
a ≤ℤ b = pos_part a + neg_part b ≤ pos_part b + neg_part a

abbrev pub ltb_ℤ : ℤ → ℤ → Bool
ltb_ℤ a b = ltb (pos_part a + neg_part b) (pos_part b + neg_part a)

-- `static_cast<uintN_t>`: the residue modulo `2 ^ w`.
abbrev pub to_unsigned : ℕ → ℤ → ℕ
to_unsigned w (pos n) = n % 2 ^ w
to_unsigned w (negsuc n) = 2 ^ w - 1 - n % 2 ^ w

-- `static_cast<intN_t>` of an unsigned word of `w` bits, by the sign bit.
abbrev pub to_signed : ℕ → ℕ → ℤ
to_signed w u = if ltb u (2 ^ (w - 1)) then pos u else negsuc (2 ^ w - u - 1)

-- The values of an `intN_t`.
abbrev pub IsInt : ℕ → ℤ → Type 0
IsInt w (pos n) = n < 2 ^ (w - 1)
IsInt w (negsuc n) = n < 2 ^ (w - 1)

pub to_signed-to_unsigned_16 : (z : ℤ) → IsInt 16 z → to_signed 16 (to_unsigned 16 z) ≡ z
to_signed-to_unsigned_16 (pos n) h = ground arith
to_signed-to_unsigned_16 (negsuc n) h = ground arith

pub to_signed-to_unsigned_32 : (z : ℤ) → IsInt 32 z → to_signed 32 (to_unsigned 32 z) ≡ z
to_signed-to_unsigned_32 (pos n) h = ground arith
to_signed-to_unsigned_32 (negsuc n) h = ground arith

pub to_unsigned-to_signed_16 : (u : ℕ) → u < 2 ^ 16 → to_unsigned 16 (to_signed 16 u) ≡ u
to_unsigned-to_signed_16 u h = ground arith

pub to_unsigned-to_signed_32 : (u : ℕ) → u < 2 ^ 32 → to_unsigned 32 (to_signed 32 u) ≡ u
to_unsigned-to_signed_32 u h = ground arith
