-- ===== src/Wire/RoundTrip.antt =====
-- That the decoders read back what the encoders store.
use stm32_board.Base.{ℕ, ◌≡◌, List, true, length, drop}
use stm32_board.Core.{IsU16, IsU32, MotorsInRange}
use stm32_board.Wire.{write_u16_le, write_u32_le, write_i16_le, write_f32_le}
use stm32_board.Wire.Words.{
  read_u16_le-write_u16_le, read_u32_le-write_u32_le, read_i16_le-write_i16_le,
  read_f32_le-write_f32_le,
}
use stm32_board.Wire.Payloads.{
  cmd_fields, setpoint_fields, config_fields, stats_fields, encode_cmd_payload, decode_cmd_payload,
  encode_setpoint_payload, decode_setpoint_payload, encode_config_payload, decode_config_payload,
  encode_stats_payload, decode_stats_payload,
}
use stm32_board.Wire.Messages.{
  MotorCmdPayload, SetpointPayload, ConfigPayload, StatsPayload, motor_cmd_payload_size,
  setpoint_payload_size, config_payload_size, stats_payload_size,
}
use stm32_board.Wire.Layouts.{
  joined, encode_cmd_payload_layout, encode_setpoint_payload_layout, encode_config_payload_layout,
  encode_stats_payload_layout,
}

pub record CmdInRange (p : MotorCmdPayload) : Type 0 where
  pub seq : IsU32 p.seq
  pub motors : MotorsInRange p.motors

-- A command that an encoder stored is decoded to itself, whatever the output argument held.
pub decode_cmd_payload-encode_cmd_payload :
    (out : List ℕ) (p out' : MotorCmdPayload)
    → length out ≡ motor_cmd_payload_size
    → CmdInRange p
    → decode_cmd_payload (encode_cmd_payload out p).1 out' ≡ (true, p)
unfolding decode_cmd_payload cmd_fields write_u32_le write_i16_le write_u16_le
decode_cmd_payload-encode_cmd_payload out p out' h r =
    let bytes = joined (cmd_fields p) in
    rw (encode_cmd_payload_layout out p h) (λ i. (
      true,
      record {
        seq = read_u32_le-write_u32_le p.seq (drop 4 bytes) r.seq i;
        motors = record {
          m1 = read_i16_le-write_i16_le p.motors.m1 (drop 6 bytes) r.motors.m1 i;
          m2 = read_i16_le-write_i16_le p.motors.m2 (drop 8 bytes) r.motors.m2 i;
          m3 = read_i16_le-write_i16_le p.motors.m3 (drop 10 bytes) r.motors.m3 i;
          m4 = read_i16_le-write_i16_le p.motors.m4 (drop 12 bytes) r.motors.m4 i;
        };
      },
    ))

pub record SetpointInRange (p : SetpointPayload) : Type 0 where
  pub seq : IsU32 p.seq
  pub sp0 : IsU32 p.sp0
  pub sp1 : IsU32 p.sp1
  pub sp2 : IsU32 p.sp2
  pub sp3 : IsU32 p.sp3

-- A setpoint that the encoder stored is decoded to itself, bit for bit in its four floats.
pub decode_setpoint_payload-encode_setpoint_payload :
    (out : List ℕ) (p out' : SetpointPayload)
    → length out ≡ setpoint_payload_size
    → SetpointInRange p
    → decode_setpoint_payload (encode_setpoint_payload out p).1 out' ≡ (true, p)
unfolding decode_setpoint_payload setpoint_fields write_u32_le write_f32_le
decode_setpoint_payload-encode_setpoint_payload out p out' h r =
    let bytes = joined (setpoint_fields p) in
    rw (encode_setpoint_payload_layout out p h) (λ i. (
      true,
      record {
        seq = read_u32_le-write_u32_le p.seq (drop 4 bytes) r.seq i;
        sp0 = read_f32_le-write_f32_le p.sp0 (drop 8 bytes) r.sp0 i;
        sp1 = read_f32_le-write_f32_le p.sp1 (drop 12 bytes) r.sp1 i;
        sp2 = read_f32_le-write_f32_le p.sp2 (drop 16 bytes) r.sp2 i;
        sp3 = read_f32_le-write_f32_le p.sp3 (drop 20 bytes) r.sp3 i;
        flags = p.flags;
      },
    ))

pub record ConfigInRange (p : ConfigPayload) : Type 0 where
  pub seq : IsU32 p.seq
  pub u16 : IsU16 p.u16
  pub u32 : IsU32 p.u32

-- A configuration message that the encoder stored is decoded to itself.
pub decode_config_payload-encode_config_payload :
    (out : List ℕ) (p out' : ConfigPayload)
    → length out ≡ config_payload_size
    → ConfigInRange p
    → decode_config_payload (encode_config_payload out p).1 out' ≡ (true, p)
unfolding decode_config_payload config_fields write_u32_le write_u16_le
decode_config_payload-encode_config_payload out p out' h r =
    let bytes = joined (config_fields p) in
    rw (encode_config_payload_layout out p h) (λ i. (
      true,
      record {
        seq = read_u32_le-write_u32_le p.seq (drop 4 bytes) r.seq i;
        key = p.key;
        u8 = p.u8;
        u16 = read_u16_le-write_u16_le p.u16 (drop 8 bytes) r.u16 i;
        u32 = read_u32_le-write_u32_le p.u32 (drop 12 bytes) r.u32 i;
      },
    ))

pub record StatsInRange (p : StatsPayload) : Type 0 where
  pub seq : IsU32 p.seq
  pub uptime_ms : IsU32 p.uptime_ms
  pub usb_hz : IsU32 p.usb_hz
  pub tcp_hz : IsU32 p.tcp_hz
  pub ctrl_hz : IsU32 p.ctrl_hz
  pub drops_state : IsU32 p.drops_state
  pub drops_cmd : IsU32 p.drops_cmd
  pub drops_event : IsU32 p.drops_event
  pub drops_sys_event : IsU32 p.drops_sys_event
  pub tcp_frames_bad : IsU32 p.tcp_frames_bad
  pub serial_errors : IsU32 p.serial_errors
  pub reserved0 : IsU32 p.reserved0

-- A statistics response that the encoder stored is decoded to itself.
pub decode_stats_payload-encode_stats_payload :
    (out : List ℕ) (p out' : StatsPayload)
    → length out ≡ stats_payload_size
    → StatsInRange p
    → decode_stats_payload (encode_stats_payload out p).1 out' ≡ (true, p)
unfolding decode_stats_payload stats_fields write_u32_le write_f32_le
decode_stats_payload-encode_stats_payload out p out' h r =
    let bytes = joined (stats_fields p) in
    rw (encode_stats_payload_layout out p h) (λ i. (
      true,
      record {
        seq = read_u32_le-write_u32_le p.seq (drop 4 bytes) r.seq i;
        uptime_ms = read_u32_le-write_u32_le p.uptime_ms (drop 8 bytes) r.uptime_ms i;
        usb_hz = read_f32_le-write_f32_le p.usb_hz (drop 12 bytes) r.usb_hz i;
        tcp_hz = read_f32_le-write_f32_le p.tcp_hz (drop 16 bytes) r.tcp_hz i;
        ctrl_hz = read_f32_le-write_f32_le p.ctrl_hz (drop 20 bytes) r.ctrl_hz i;
        drops_state = read_u32_le-write_u32_le p.drops_state (drop 24 bytes) r.drops_state i;
        drops_cmd = read_u32_le-write_u32_le p.drops_cmd (drop 28 bytes) r.drops_cmd i;
        drops_event = read_u32_le-write_u32_le p.drops_event (drop 32 bytes) r.drops_event i;
        drops_sys_event =
            read_u32_le-write_u32_le p.drops_sys_event (drop 36 bytes) r.drops_sys_event i;
        tcp_frames_bad =
            read_u32_le-write_u32_le p.tcp_frames_bad (drop 40 bytes) r.tcp_frames_bad i;
        serial_errors = read_u32_le-write_u32_le p.serial_errors (drop 44 bytes) r.serial_errors i;
        reserved0 = read_u32_le-write_u32_le p.reserved0 (drop 48 bytes) r.reserved0 i;
      },
    ))
