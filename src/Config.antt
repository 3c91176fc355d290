-- ===== src/Config.antt =====
-- cpp_gateway/include/gateway/{enums,commands,runtime_config}.hpp: modes, events and the
-- configuration that the workers read.
use Prim.Native.String.{String}
use stm32_board.Base.{ℕ, Bool, true}
use stm32_board.Base.Int.{ℤ, pos, negsuc}
use stm32_board.Float.{f64_200, f64_fifth}

pub data ControlMode : Type 0 where
  pass_through_cmd autonomous autonomous_with_remote_setpoint : ControlMode

pub data UsbTimeoutMode : Type 0 where
  enforce disable : UsbTimeoutMode

pub data EventType : Type 0 where
  beep flag_rise config_applied : EventType

pub record EventCmd : Type 0 where
  pub type_ : EventType
  pub seq : ℕ
  pub data0 : ℕ
  pub data1 : ℕ
  pub data2 : ℕ
  pub data3 : ℕ
  pub aux_u32 : ℕ

abbrev pub blank_event : EventCmd
blank_event = record {
  type_ = beep;
  seq = 0;
  data0 = 0;
  data1 = 0;
  data2 = 0;
  data3 = 0;
  aux_u32 = 0;
}

-- A field of type `double` is a binary64 pattern.
pub record RuntimeConfig : Type 0 where
  pub usb_hz : ℕ
  pub tcp_hz : ℕ
  pub ctrl_hz : ℕ
  pub bind_ip : String
  pub state_port : ℕ
  pub cmd_port : ℕ
  pub serial_dev : String
  pub serial_baud : ℤ
  pub cmd_timeout_s : ℕ
  pub usb_timeout_mode : UsbTimeoutMode
  pub control_mode : ControlMode
  pub ctrl_thread_priority : ℤ
  pub binary_log : Bool
  pub log_path : String
  pub log_rotate_mb : ℕ
  pub log_rotate_keep : ℕ
  pub flag_event_mask : ℕ
  pub flag_start_bit : ℤ
  pub flag_stop_bit : ℤ
  pub flag_reset_bit : ℤ

-- `RuntimeConfig{}`
abbrev pub default_config : RuntimeConfig
default_config = record {
  usb_hz = f64_200;
  tcp_hz = f64_200;
  ctrl_hz = f64_200;
  bind_ip = "0.0.0.0";
  state_port = 30001;
  cmd_port = 30002;
  serial_dev = "/dev/ttyUSB0";
  serial_baud = pos 115200;
  cmd_timeout_s = f64_fifth;
  usb_timeout_mode = enforce;
  control_mode = pass_through_cmd;
  ctrl_thread_priority = pos 0;
  binary_log = true;
  log_path = "./logs/gateway.bin";
  log_rotate_mb = 256;
  log_rotate_keep = 10;
  flag_event_mask = 0x07;
  flag_start_bit = negsuc 0;
  flag_stop_bit = negsuc 0;
  flag_reset_bit = negsuc 0;
}
