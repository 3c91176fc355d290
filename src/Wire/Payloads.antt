-- ===== src/Wire/Payloads.antt =====
-- cpp_gateway/include/connection/wire_codec.hpp and cpp_gateway/src/connection/wire_codec.cpp: the
-- encoders and decoders of the payload structs.
use stm32_board.Base.{
  ℕ, zero, suc, ◌+◌, ◌-◌, ◌*◌, List, [], ◌∷◌, ◌++◌, Bool, true, false, ◌==◌, if◌then◌else◌, length,
  drop, get_or,
}
use stm32_board.Core.{States, Vec3d}
use stm32_board.Wire.{
  write_u16_le, write_u32_le, read_u16_le, read_u32_le, write_i16_le, read_i16_le, write_i32_le,
  write_f32_le, read_f32_le,
}
use stm32_board.Wire.Messages.{
  states_payload_size, motor_cmd_payload_size, setpoint_payload_size, config_payload_size,
  stats_payload_size, MotorCmdPayload, SetpointPayload, ConfigPayload, StatsPayload,
}

-- The output span during an encoder: the bytes before the offset `o`, and those from it on.
pub record Cursor : Type 0 where
  pub written : List ℕ
  pub left : List ℕ

-- One `write_...(out.data() + o, v); o += n;`: it replaces as many bytes as it stores.
unfoldable pub write_at : Cursor → List ℕ → Cursor
write_at c bytes = record { written = c.written ++ bytes; left = drop (length bytes) c.left }

unfoldable pub write_fields : Cursor → List (List ℕ) → Cursor
write_fields c [] = c
write_fields c (bytes ∷ more) = write_fields (write_at c bytes) more

-- The check of the span's size, the writes in order, and `return (o == size)`.
unfoldable pub encode_fields : ℕ → List ℕ → List (List ℕ) → Bool × List ℕ
encode_fields size out fields =
    if length out == size
    then finish (write_fields (record { written = []; left = out }) fields)
    else (false, out)
  where
    finish : Cursor → Bool × List ℕ
    finish c = (length c.written == size, c.written ++ c.left)

-- `while (o < kStatsPayloadSize) out[o++] = 0;`, by the number of bytes left to the end.
unfoldable pub pad_zero : ℕ → Cursor → Cursor
pad_zero zero c = c
pad_zero (suc n) c = pad_zero n (write_at c (0 ∷ []))

abbrev vec3_fields : Vec3d → List (List ℕ)
vec3_fields v = write_f32_le v.x ∷ write_f32_le v.y ∷ write_f32_le v.z ∷ []

unfoldable pub states_fields : ℕ → ℕ → States → List (List ℕ)
states_fields seq t_mono_s st =
    write_u32_le seq
    ∷ write_f32_le t_mono_s
    ∷ (vec3_fields st.imu.acc
        ++ (vec3_fields st.imu.gyro
            ++ (vec3_fields st.imu.mag
                ++ (write_f32_le st.ang.roll
                    ∷ write_f32_le st.ang.pitch
                    ∷ write_f32_le st.ang.yaw
                    ∷ write_i32_le st.enc.e1
                    ∷ write_i32_le st.enc.e2
                    ∷ write_i32_le st.enc.e3
                    ∷ write_i32_le st.enc.e4
                    ∷ write_f32_le st.battery_voltage
                    ∷ []))))

unfoldable pub encode_states_payload : List ℕ → ℕ → ℕ → States → Bool × List ℕ
encode_states_payload out seq t_mono_s st =
    encode_fields states_payload_size out (states_fields seq t_mono_s st)

unfoldable pub cmd_fields : MotorCmdPayload → List (List ℕ)
cmd_fields p =
    write_u32_le p.seq
    ∷ write_i16_le p.motors.m1
    ∷ write_i16_le p.motors.m2
    ∷ write_i16_le p.motors.m3
    ∷ write_i16_le p.motors.m4
    ∷ []

unfoldable pub encode_cmd_payload : List ℕ → MotorCmdPayload → Bool × List ℕ
encode_cmd_payload out p = encode_fields motor_cmd_payload_size out (cmd_fields p)

-- A decoder leaves its output argument as it was when the size is wrong. `drop o bytes` is
-- `in.data() + o`.
unfoldable pub decode_cmd_payload : List ℕ → MotorCmdPayload → Bool × MotorCmdPayload
decode_cmd_payload bytes out =
    if length bytes == motor_cmd_payload_size
    then (
      4 + 2 + 2 + 2 + 2 == motor_cmd_payload_size,
      record {
        seq = read_u32_le bytes;
        motors = record {
          m1 = read_i16_le (drop 4 bytes);
          m2 = read_i16_le (drop 6 bytes);
          m3 = read_i16_le (drop 8 bytes);
          m4 = read_i16_le (drop 10 bytes);
        };
      },
    )
    else (false, out)

unfoldable pub setpoint_fields : SetpointPayload → List (List ℕ)
setpoint_fields p =
    write_u32_le p.seq
    ∷ write_f32_le p.sp0
    ∷ write_f32_le p.sp1
    ∷ write_f32_le p.sp2
    ∷ write_f32_le p.sp3
    ∷ (p.flags ∷ [])
    ∷ []

unfoldable pub encode_setpoint_payload : List ℕ → SetpointPayload → Bool × List ℕ
encode_setpoint_payload out p = encode_fields setpoint_payload_size out (setpoint_fields p)

unfoldable pub decode_setpoint_payload : List ℕ → SetpointPayload → Bool × SetpointPayload
decode_setpoint_payload bytes out =
    if length bytes == setpoint_payload_size
    then (
      4 + 4 * 4 + 1 == setpoint_payload_size,
      record {
        seq = read_u32_le bytes;
        sp0 = read_f32_le (drop 4 bytes);
        sp1 = read_f32_le (drop 8 bytes);
        sp2 = read_f32_le (drop 12 bytes);
        sp3 = read_f32_le (drop 16 bytes);
        flags = get_or bytes 20 0;
      },
    )
    else (false, out)

unfoldable pub config_fields : ConfigPayload → List (List ℕ)
config_fields p =
    write_u32_le p.seq ∷ (p.key ∷ []) ∷ (p.u8 ∷ []) ∷ write_u16_le p.u16 ∷ write_u32_le p.u32 ∷ []

unfoldable pub encode_config_payload : List ℕ → ConfigPayload → Bool × List ℕ
encode_config_payload out p = encode_fields config_payload_size out (config_fields p)

unfoldable pub decode_config_payload : List ℕ → ConfigPayload → Bool × ConfigPayload
decode_config_payload bytes out =
    if length bytes == config_payload_size
    then (
      4 + 1 + 1 + 2 + 4 == config_payload_size,
      record {
        seq = read_u32_le bytes;
        key = get_or bytes 4 0;
        u8 = get_or bytes 5 0;
        u16 = read_u16_le (drop 6 bytes);
        u32 = read_u32_le (drop 8 bytes);
      },
    )
    else (false, out)

unfoldable pub stats_fields : StatsPayload → List (List ℕ)
stats_fields p =
    write_u32_le p.seq
    ∷ write_u32_le p.uptime_ms
    ∷ write_f32_le p.usb_hz
    ∷ write_f32_le p.tcp_hz
    ∷ write_f32_le p.ctrl_hz
    ∷ write_u32_le p.drops_state
    ∷ write_u32_le p.drops_cmd
    ∷ write_u32_le p.drops_event
    ∷ write_u32_le p.drops_sys_event
    ∷ write_u32_le p.tcp_frames_bad
    ∷ write_u32_le p.serial_errors
    ∷ write_u32_le p.reserved0
    ∷ []

unfoldable pub encode_stats_payload : List ℕ → StatsPayload → Bool × List ℕ
encode_stats_payload out p =
    if length out == stats_payload_size
    then padded (write_fields (record { written = []; left = out }) (stats_fields p))
    else (false, out)
  where
    padded : Cursor → Bool × List ℕ
    padded c =
        let end = pad_zero (stats_payload_size - length c.written) c in
        (true, end.written ++ end.left)

unfoldable pub decode_stats_payload : List ℕ → StatsPayload → Bool × StatsPayload
decode_stats_payload bytes out =
    if length bytes == stats_payload_size
    then (
      true,
      record {
        seq = read_u32_le bytes;
        uptime_ms = read_u32_le (drop 4 bytes);
        usb_hz = read_f32_le (drop 8 bytes);
        tcp_hz = read_f32_le (drop 12 bytes);
        ctrl_hz = read_f32_le (drop 16 bytes);
        drops_state = read_u32_le (drop 20 bytes);
        drops_cmd = read_u32_le (drop 24 bytes);
        drops_event = read_u32_le (drop 28 bytes);
        drops_sys_event = read_u32_le (drop 32 bytes);
        tcp_frames_bad = read_u32_le (drop 36 bytes);
        serial_errors = read_u32_le (drop 40 bytes);
        reserved0 = read_u32_le (drop 44 bytes);
      },
    )
    else (false, out)
