-- ===== src/Rosmaster.antt =====
-- cpp_gateway/src/rosmaster/rosmaster.cpp: the frames that the gateway writes to the robot's board.
-- A setter returns the bytes that it hands to `write_all`, or `none` where it returns false at once.
pub mod Func
pub mod Writers
pub mod Receive
pub mod Readings
pub mod Reports
pub mod Device
use stm32_board.Base.{
  ℕ, zero, suc, ◌+◌, ◌-◌, ◌/◌, ◌%◌, List, [], ◌∷◌, ◌++◌, Bool, true, false, ◌||◌, Option, none,
  some, ltb, leb, ◌==◌, if◌then◌else◌, length,
}
use stm32_board.Base.Int.{ℤ, pos, negsuc, ltb_ℤ, to_unsigned}
use stm32_board.Core.{MotorCommands}
use Func

abbrev pub head : ℕ
head = 0xff

abbrev pub device_id : ℕ
device_id = 0xfc

abbrev pub complement : ℕ
complement = 257 - device_id

-- `uint8_t sum = start; for (b : bytes) sum = uint8_t(sum + b);`
unfoldable pub checksum : ℕ → List ℕ → ℕ
checksum sum [] = sum
checksum sum (b ∷ bytes) = checksum ((sum + b) % 256) bytes

-- The bytes of a frame with two parameters.
unfoldable pub send_fixed5 : ℕ → ℕ → ℕ → List ℕ
send_fixed5 func p0 p1 =
    let cmd = head ∷ device_id ∷ 0x05 ∷ func ∷ p0 ∷ p1 ∷ [] in cmd ++ checksum complement cmd ∷ []

-- The bytes of a frame with a payload; its third byte is the frame's size less one, as a byte.
unfoldable pub send_var : ℕ → List ℕ → List ℕ
send_var func payload =
    let cmd = head ∷ device_id ∷ ((4 + length payload - 1) % 256) ∷ func ∷ payload in
    cmd ++ checksum complement cmd ∷ []

unfoldable pub request_data : ℕ → ℕ → List ℕ
request_data function param = send_fixed5 Func.request_data function param

-- `std::clamp`
unfoldable pub clamp_int : ℤ → ℤ → ℤ → ℤ
clamp_int v lo hi = if ltb_ℤ v lo then lo else if ltb_ℤ hi v then hi else v

unfoldable pub limit_motor_value : ℤ → ℤ
limit_motor_value (pos v) = if v == 127 then pos 127 else if ltb 100 v then pos 100 else pos v
-- -100 is `negsuc 99`
limit_motor_value (negsuc v) = if ltb 99 v then negsuc 99 else negsuc v

unfoldable pub set_auto_report_state : Bool → Bool → List ℕ
set_auto_report_state enable forever =
    send_fixed5 Func.auto_report (if enable then 1 else 0) (if forever then 0x5f else 0)

-- The low and the high byte of the int16 that `on_time_ms` is cast to.
unfoldable pub set_beep : ℤ → Option (List ℕ)
set_beep (negsuc _) = none
set_beep (pos on_time_ms) =
    let v = to_unsigned 16 (pos on_time_ms) in
    some (send_fixed5 Func.beep (v % 256) (v / 256 % 256))

unfoldable pub set_pwm_servo : ℕ → ℤ → Option (List ℕ)
set_pwm_servo servo_id angle_deg =
    if ltb servo_id 1 || ltb 4 servo_id
    then none
    else some (
        send_var Func.pwm_servo
          (servo_id ∷ to_unsigned 8 (clamp_int angle_deg (pos 0) (pos 180)) ∷ []))

-- The angle, or 255 if it is out of range.
unfoldable pub fix_angle : ℤ → ℕ
fix_angle a = if ltb_ℤ a (pos 0) || ltb_ℤ (pos 180) a then 255 else to_unsigned 8 a

unfoldable pub set_pwm_servo_all : ℤ → ℤ → ℤ → ℤ → List ℕ
set_pwm_servo_all a1 a2 a3 a4 =
    send_var Func.pwm_servo_all (fix_angle a1 ∷ fix_angle a2 ∷ fix_angle a3 ∷ fix_angle a4 ∷ [])

unfoldable pub set_colorful_lamps : ℕ → ℕ → ℕ → ℕ → List ℕ
set_colorful_lamps led_id r g b = send_var Func.rgb (led_id ∷ r ∷ g ∷ b ∷ [])

unfoldable pub set_colorful_effect : ℕ → ℕ → ℕ → List ℕ
set_colorful_effect effect speed parm = send_var Func.rgb_effect (effect ∷ speed ∷ parm ∷ [])

unfoldable pub motor_byte : ℤ → ℕ
motor_byte v = to_unsigned 8 (limit_motor_value v)

unfoldable pub set_motor : ℤ → ℤ → ℤ → ℤ → List ℕ
set_motor s1 s2 s3 s4 =
    send_var Func.motor (motor_byte s1 ∷ motor_byte s2 ∷ motor_byte s3 ∷ motor_byte s4 ∷ [])

unfoldable pub apply_motor_cmd : MotorCommands → List ℕ
apply_motor_cmd cmd = set_motor cmd.m1 cmd.m2 cmd.m3 cmd.m4

unfoldable pub reset_flash_value : List ℕ
reset_flash_value = send_var Func.reset_flash (0x5f ∷ [])
