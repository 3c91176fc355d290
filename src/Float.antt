-- ===== src/Float.antt =====
-- The floating-point unit, which no file of the repository implements: its operations on the
-- patterns of `double` values are a parameter. Each law states documented IEEE-754 behaviour.
use stm32_board.Base.{ℕ, Bool}
use stm32_board.Base.Int.{ℤ}

pub record Fpu : Type 0 where
  -- `a < b` and `a <= b` on doubles
  pub lt : ℕ → ℕ → Bool
  pub le : ℕ → ℕ → Bool
  pub sub : ℕ → ℕ → ℕ
  pub mul : ℕ → ℕ → ℕ
  pub div : ℕ → ℕ → ℕ
  -- conversions: of an unsigned integer to double, of a double to float, and of a double to uint32
  pub of_nat : ℕ → ℕ
  pub to_f32 : ℕ → ℕ
  pub to_u32 : ℕ → ℕ
  -- operations on floats: of an integer, `*`, `+`, `/` and the sign change
  pub f32_of_int : ℤ → ℕ
  pub f32_mul : ℕ → ℕ → ℕ
  pub f32_add : ℕ → ℕ → ℕ
  pub f32_div : ℕ → ℕ → ℕ
  pub f32_neg : ℕ → ℕ

-- The patterns of the double constants that the source writes.
abbrev pub f64_zero : ℕ
f64_zero = 0

abbrev pub f64_one : ℕ
f64_one = 0x3ff0_0000_0000_0000

abbrev pub f64_five : ℕ
f64_five = 0x4014_0000_0000_0000

-- 0.01
abbrev pub f64_hundredth : ℕ
f64_hundredth = 0x3f84_7ae1_47ae_147b

-- 0.2
abbrev pub f64_fifth : ℕ
f64_fifth = 0x3fc9_9999_9999_999a

abbrev pub f64_200 : ℕ
f64_200 = 0x4069_0000_0000_0000

abbrev pub f64_1000 : ℕ
f64_1000 = 0x408f_4000_0000_0000

abbrev pub f64_2000 : ℕ
f64_2000 = 0x409f_4000_0000_0000

abbrev pub f64_8192 : ℕ
f64_8192 = 0x40c0_0000_0000_0000
