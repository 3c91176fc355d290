-- ===== src/Wire/Words.antt =====
-- Words and their little-endian bytes determine one another.
use stm32_board.Base.{ℕ, ◌+◌, ◌*◌, ◌%◌, ◌^◌, ◌<◌, ◌≡◌, ap, ◌∙◌, bit_or, List, ◌∷◌, ◌++◌, arith}
use stm32_board.Base.Bits.{bit_or-shifted}
use stm32_board.Base.Int.{
  ℤ, IsInt, to_unsigned, to_signed, to_signed-to_unsigned_16, to_signed-to_unsigned_32,
}
use stm32_board.Core.{IsU8, IsU16, IsU32}
use stm32_board.Wire.{
  shl, write_u16_le, write_u32_le, read_u16_le, read_u32_le, write_i16_le, read_i16_le,
  write_i32_le, read_i32_le, write_f32_le, read_f32_le,
}

-- What a read computes from bytes, in plain arithmetic.
pub read_u16_le_value :
    (a b : ℕ) (rest : List ℕ) → IsU8 a → IsU8 b → read_u16_le (a ∷ b ∷ rest) ≡ a + b * 2 ^ 8
unfolding read_u16_le
read_u16_le_value a b rest ha hb = omega (arith, bit_or-shifted 8 a b ha)

or_three :
    (a b c : ℕ)
    → IsU8 a
    → IsU8 b
    → IsU8 c
    → bit_or (bit_or a (shl b 8)) (shl c 16) ≡ a + b * 2 ^ 8 + c * 2 ^ 16
or_three a b c ha hb hc =
    ap (λ w. bit_or w (shl c 16)) (bit_or-shifted 8 a b ha)
    ∙ bit_or-shifted 16 (a + b * 2 ^ 8) c (omega arith)

pub read_u32_le_value :
    (a b c d : ℕ) (rest : List ℕ)
    → IsU8 a
    → IsU8 b
    → IsU8 c
    → IsU8 d
    → read_u32_le (a ∷ b ∷ c ∷ d ∷ rest) ≡ a + b * 2 ^ 8 + c * 2 ^ 16 + d * 2 ^ 24
unfolding read_u32_le
read_u32_le_value a b c d rest ha hb hc hd =
    ap (λ w. bit_or w (shl d 24) % 2 ^ 32) (or_three a b c ha hb hc)
    ∙ omega (arith, bit_or-shifted 24 (a + b * 2 ^ 8 + c * 2 ^ 16) d (omega arith))

-- Reading what was written gives the word back, whatever follows it.
pub read_u16_le-write_u16_le :
    (v : ℕ) (rest : List ℕ) → IsU16 v → read_u16_le (write_u16_le v ++ rest) ≡ v
unfolding write_u16_le
read_u16_le-write_u16_le v rest h =
    read_u16_le_value _ _ rest (omega arith) (omega arith) ∙ omega arith

pub read_u32_le-write_u32_le :
    (v : ℕ) (rest : List ℕ) → IsU32 v → read_u32_le (write_u32_le v ++ rest) ≡ v
unfolding write_u32_le
read_u32_le-write_u32_le v rest h =
    read_u32_le_value _ _ _ _ rest (omega arith) (omega arith) (omega arith) (omega arith)
    ∙ omega arith

pub read_i16_le-write_i16_le :
    (v : ℤ) (rest : List ℕ) → IsInt 16 v → read_i16_le (write_i16_le v ++ rest) ≡ v
unfolding write_i16_le read_i16_le
read_i16_le-write_i16_le v rest h =
    ap (to_signed 16) (read_u16_le-write_u16_le (to_unsigned 16 v) rest (to_unsigned_16-lt v))
    ∙ to_signed-to_unsigned_16 v h
  where
    to_unsigned_16-lt : (v : ℤ) → to_unsigned 16 v < 2 ^ 16
    to_unsigned_16-lt v = ground arith

pub read_i32_le-write_i32_le :
    (v : ℤ) (rest : List ℕ) → IsInt 32 v → read_i32_le (write_i32_le v ++ rest) ≡ v
unfolding write_i32_le read_i32_le
read_i32_le-write_i32_le v rest h =
    ap (to_signed 32) (read_u32_le-write_u32_le (to_unsigned 32 v) rest (to_unsigned_32-lt v))
    ∙ to_signed-to_unsigned_32 v h
  where
    to_unsigned_32-lt : (v : ℤ) → to_unsigned 32 v < 2 ^ 32
    to_unsigned_32-lt v = ground arith

pub read_f32_le-write_f32_le :
    (v : ℕ) (rest : List ℕ) → IsU32 v → read_f32_le (write_f32_le v ++ rest) ≡ v
unfolding write_f32_le read_f32_le
read_f32_le-write_f32_le v rest h = read_u32_le-write_u32_le v rest h
