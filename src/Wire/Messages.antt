-- ===== src/Wire/Messages.antt =====
-- The sizes and the structs of the payloads in cpp_gateway/include/connection/wire_codec.hpp.
use stm32_board.Base.{ℕ}
use stm32_board.Core.{MotorCommands}

abbrev pub states_payload_size : ℕ
states_payload_size = 76

abbrev pub motor_cmd_payload_size : ℕ
motor_cmd_payload_size = 12

abbrev pub setpoint_payload_size : ℕ
setpoint_payload_size = 21

abbrev pub config_payload_size : ℕ
config_payload_size = 12

abbrev pub stats_payload_size : ℕ
stats_payload_size = 48

pub record MotorCmdPayload : Type 0 where
  pub seq : ℕ
  pub motors : MotorCommands

-- The array `sp[4]` is four fields.
pub record SetpointPayload : Type 0 where
  pub seq : ℕ
  pub sp0 : ℕ
  pub sp1 : ℕ
  pub sp2 : ℕ
  pub sp3 : ℕ
  pub flags : ℕ

pub record ConfigPayload : Type 0 where
  pub seq : ℕ
  pub key : ℕ
  pub u8 : ℕ
  pub u16 : ℕ
  pub u32 : ℕ

pub record StatsPayload : Type 0 where
  pub seq : ℕ
  pub uptime_ms : ℕ
  pub usb_hz : ℕ
  pub tcp_hz : ℕ
  pub ctrl_hz : ℕ
  pub drops_state : ℕ
  pub drops_cmd : ℕ
  pub drops_event : ℕ
  pub drops_sys_event : ℕ
  pub tcp_frames_bad : ℕ
  pub serial_errors : ℕ
  pub reserved0 : ℕ
