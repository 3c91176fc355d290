-- ===== src/Wire.antt =====
-- cpp_gateway/include/connection/wire_codec.hpp, the endian helpers. A pointer into a byte array is
-- the list of the bytes from that place on; a byte is a number below 256.
pub mod Words
pub mod Payloads
pub mod Messages
pub mod RoundTrip
pub mod Layouts
pub mod StatesLayout
use stm32_board.Base.{ℕ, ◌+◌, ◌*◌, ◌/◌, ◌%◌, ◌^◌, bit_or, List, [], ◌∷◌, get_or}
use stm32_board.Base.Int.{ℤ, to_unsigned, to_signed}

-- `v & 0xFF` and `v >> k` of an unsigned word.
abbrev pub low_byte : ℕ → ℕ
low_byte v = v % 256

abbrev pub shr : ℕ → ℕ → ℕ
shr v k = v / 2 ^ k

abbrev pub shl : ℕ → ℕ → ℕ
shl v k = v * 2 ^ k

-- The bytes that the function stores from `out[0]` on.
unfoldable pub write_u16_le : ℕ → List ℕ
write_u16_le v = low_byte v ∷ low_byte (shr v 8) ∷ []

unfoldable pub write_u32_le : ℕ → List ℕ
write_u32_le v = low_byte v ∷ low_byte (shr v 8) ∷ low_byte (shr v 16) ∷ low_byte (shr v 24) ∷ []

unfoldable pub read_u16_le : List ℕ → ℕ
read_u16_le bytes = bit_or (get_or bytes 0 0) (shl (get_or bytes 1 0) 8) % 2 ^ 16

unfoldable pub read_u32_le : List ℕ → ℕ
read_u32_le bytes =
    bit_or
      (bit_or (bit_or (get_or bytes 0 0) (shl (get_or bytes 1 0) 8)) (shl (get_or bytes 2 0) 16))
      (shl (get_or bytes 3 0) 24)
    % 2 ^ 32

unfoldable pub write_i16_le : ℤ → List ℕ
write_i16_le v = write_u16_le (to_unsigned 16 v)

unfoldable pub read_i16_le : List ℕ → ℤ
read_i16_le bytes = to_signed 16 (read_u16_le bytes)

unfoldable pub write_i32_le : ℤ → List ℕ
write_i32_le v = write_u32_le (to_unsigned 32 v)

unfoldable pub read_i32_le : List ℕ → ℤ
read_i32_le bytes = to_signed 32 (read_u32_le bytes)

-- `std::bit_cast` between a float and its pattern does nothing here.
unfoldable pub write_f32_le : ℕ → List ℕ
write_f32_le f = write_u32_le f

unfoldable pub read_f32_le : List ℕ → ℕ
read_f32_le bytes = read_u32_le bytes
