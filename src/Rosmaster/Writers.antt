-- ===== src/Rosmaster/Writers.antt =====
-- What holds of the frames that are written to the board.
use stm32_board.Base.{
  ℕ, ◌+◌, ◌-◌, ◌%◌, ◌≤◌, ◌<◌, ◌≡◌, ◌⊎◌, ap₂, ◌∙◌, List, [], ◌∷◌, ◌++◌, length, arith,
}
use stm32_board.Base.Int.{ℤ, pos, negsuc, to_signed, ◌≤ℤ◌}
use stm32_board.Rosmaster.{
  head, device_id, complement, checksum, send_fixed5, send_var, limit_motor_value, motor_byte,
}

abbrev pub sum : List ℕ → ℕ
sum [] = 0
sum (b ∷ bytes) = b + sum bytes

pub checksum-sum :
    (start : ℕ) (bytes : List ℕ) → start < 256 → checksum start bytes ≡ (start + sum bytes) % 256
unfolding checksum
checksum-sum start [] h = omega arith
checksum-sum start (b ∷ bytes) h =
    checksum-sum ((start + b) % 256) bytes (omega arith) ∙ omega arith

-- A frame by the board's rules: two head bytes, the size of what follows them, the function word, the
-- payload, and the sum of these from the size on, modulo 256.
abbrev pub board_frame : ℕ → List ℕ → List ℕ
board_frame func payload =
    head
    ∷ device_id
    ∷ (length payload + 3)
    ∷ func
    ∷ (payload ++ ((length payload + 3 + func + sum payload) % 256 ∷ []))

size_byte : (n : ℕ) → n ≤ 252 → (4 + n - 1) % 256 ≡ n + 3
size_byte n h = omega arith

-- Both writers follow the rules, up to the largest payload whose size fits its byte: the start value
-- of the checksum cancels the two head bytes.
pub send_var-board_frame :
    (func : ℕ) (payload : List ℕ)
    → length payload ≤ 252
    → send_var func payload ≡ board_frame func payload
unfolding send_var
send_var-board_frame func payload h =
    ap₂ (λ size c. head ∷ device_id ∷ size ∷ func ∷ (payload ++ c ∷ []))
      (size_byte (length payload) h) (total ∙ omega (arith, size_byte (length payload) h))
  where
    total :
        checksum complement (head ∷ device_id ∷ ((4 + length payload - 1) % 256) ∷ func ∷ payload)
        ≡ (complement + sum (head ∷ device_id ∷ ((4 + length payload - 1) % 256) ∷ func ∷ payload))
          % 256
    total = checksum-sum complement _ (omega arith)

pub send_fixed5-board_frame :
    (func p0 p1 : ℕ) → send_fixed5 func p0 p1 ≡ board_frame func (p0 ∷ p1 ∷ [])
unfolding send_fixed5 checksum
send_fixed5-board_frame func p0 p1 = ground arith

-- Every motor value that is sent is from -100 to 100, or the 127 that asks to keep the speed.
pub limit_motor_value_range :
    (v : ℤ)
    → ((negsuc 99 ≤ℤ limit_motor_value v) × (limit_motor_value v ≤ℤ pos 100))
      ⊎ ((v ≡ pos 127) × (limit_motor_value v ≡ pos 127))
unfolding limit_motor_value
limit_motor_value_range v = ground arith

-- The board reads back the limited value from its byte.
pub motor_byte-to_signed : (v : ℤ) → to_signed 8 (motor_byte v) ≡ limit_motor_value v
unfolding motor_byte limit_motor_value
motor_byte-to_signed v = ground arith
