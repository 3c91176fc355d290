-- ===== src/Tcp.antt =====
-- cpp_gateway/app/workers/tcp_worker.cpp: the helpers, and what the worker does with a frame.
pub mod Worker
pub mod Configure
pub mod Frames
pub mod Incoming
pub mod Attributed
pub mod Loop
pub mod Outgoing
use stm32_board.Base.{
  ℕ, zero, suc, ◌+◌, ◌-◌, ◌%◌, ◌^◌, bit_and, List, [], ◌∷◌, ◌++◌, Bool, true, false, Option, none,
  some, leb, ◌==◌, if◌then◌else◌, length,
}
use stm32_board.Base.Int.{to_signed}
use stm32_board.Core.{Timestamps}
use stm32_board.Float.{Fpu, f64_one, f64_five, f64_hundredth, f64_200, f64_1000, f64_2000, f64_8192}
use stm32_board.Wire.Payloads.{
  decode_cmd_payload, decode_setpoint_payload, decode_config_payload, encode_stats_payload,
  encode_states_payload,
}
use stm32_board.Wire.Messages.{
  MotorCmdPayload, SetpointPayload, ConfigPayload, StatsPayload, stats_payload_size,
  states_payload_size,
}
use stm32_board.Framed.{
  Frame, FrameRx, make_hdr, hdr_bytes, msg_cmd, msg_setpoint, msg_config, msg_stats_req,
  msg_stats_resp, msg_state, push_bytes, pop_all, available_bytes,
}
use stm32_board.Config.{
  ControlMode, pass_through_cmd, autonomous, autonomous_with_remote_setpoint, UsbTimeoutMode,
  enforce, disable, EventCmd, beep, flag_rise, config_applied, blank_event, RuntimeConfig,
  default_config,
}
use stm32_board.Mailbox.{store}
use stm32_board.Ring.{push_overwrite}
use stm32_board.Shared.{
  SharedState, EventSample, blank_event_sample, queue_capacity, log_ring_capacity, zero_setpoint,
  bump_tcp_frames_bad,
}
use stm32_board.Core.{zero_motor_commands}

-- `(~prev) & now` on bytes
unfoldable pub rising_edges : ℕ → ℕ → ℕ
rising_edges prev now = bit_and (255 - prev) now

-- An event for the controller, and its sample for the log; `now` is what `utils::now()` returns.
unfoldable pub publish_sys_event : SharedState → Timestamps → EventCmd → SharedState
publish_sys_event sh now ev = record sh {
  sys_event_q = (push_overwrite queue_capacity blank_event sh.sys_event_q ev).0;
  sys_event_ring =
      (push_overwrite log_ring_capacity blank_event_sample sh.sys_event_ring
        (record { ts = now; ev = ev })).0;
}

unfoldable pub push_sys_event : SharedState → Timestamps → ℕ → ℕ → ℕ → SharedState
push_sys_event sh now seq bit_index flags_snapshot =
    publish_sys_event sh now (record blank_event {
      type_ = flag_rise;
      seq = seq;
      data0 = bit_index;
      data1 = flags_snapshot;
    })

unfoldable pub push_hw_beep_event : SharedState → ℕ → ℕ → SharedState
push_hw_beep_event sh seq beep_ms = record sh {
  event_cmd_q =
      (push_overwrite queue_capacity blank_event sh.event_cmd_q
        (record blank_event { type_ = beep; seq = seq; data0 = beep_ms })).0;
}

unfoldable pub emit_config_applied : SharedState → Timestamps → ℕ → ℕ → SharedState
emit_config_applied sh now seq key =
    publish_sys_event sh now (record blank_event { type_ = config_applied; seq = seq; data0 = key })

unfoldable pub is_valid_control_mode : ℕ → Bool
is_valid_control_mode m = leb m 2

unfoldable pub is_valid_usb_timeout_mode : ℕ → Bool
is_valid_usb_timeout_mode m = leb m 1

-- `static_cast` of a checked byte to the enumeration
unfoldable pub control_mode_of : ℕ → ControlMode
control_mode_of m =
    if m == 0
    then pass_through_cmd
    else if m == 1
    then autonomous
    else autonomous_with_remote_setpoint

unfoldable pub usb_timeout_mode_of : ℕ → UsbTimeoutMode
usb_timeout_mode_of m = if m == 0 then enforce else disable

module _ (fpu : Fpu) where
  open fpu use {lt, sub, mul, div, of_nat, to_f32, to_u32}

  unfoldable pub clampd : ℕ → ℕ → ℕ → ℕ
  clampd v lo hi = if lt v lo then lo else if lt hi v then hi else v

  -- The `switch` on the key, on the copy of the configuration.
  unfoldable pub configure : RuntimeConfig → ConfigPayload → RuntimeConfig
  configure next p =
      if p.key == 1
      then record next { usb_hz = clampd (of_nat p.u16) f64_one f64_2000 }
      else if p.key == 2
      then record next { tcp_hz = clampd (of_nat p.u16) f64_one f64_2000 }
      else if p.key == 3
      then record next { ctrl_hz = clampd (of_nat p.u16) f64_one f64_2000 }
      else if p.key == 4
      then record next {
        cmd_timeout_s = clampd (div (of_nat p.u16) f64_1000) f64_hundredth f64_five;
      }
      else if p.key == 5
      then (if is_valid_usb_timeout_mode p.u8
          then record next { usb_timeout_mode = usb_timeout_mode_of p.u8 }
          else next)
      else if p.key == 6
      then record next { log_rotate_mb = to_u32 (clampd (of_nat p.u16) f64_one f64_8192) }
      else if p.key == 7
      then record next { log_rotate_keep = to_u32 (clampd (of_nat p.u16) f64_one f64_200) }
      else if p.key == 10
      then record next { flag_event_mask = p.u8 }
      else if p.key == 20
      then (if is_valid_control_mode p.u8
          then record next { control_mode = control_mode_of p.u8 }
          else next)
      else if p.key == 30
      then record next { ctrl_thread_priority = to_signed 16 p.u16 }
      else next

  -- The configuration that `apply_config_payload` copies.
  unfoldable pub current_config : SharedState → RuntimeConfig
  current_config sh = elim sh.cfg [ some c ↦ c | none ↦ default_config ]

  unfoldable pub apply_config_payload : SharedState → Timestamps → ConfigPayload → SharedState
  apply_config_payload sh now p =
      emit_config_applied (record sh { cfg = some (configure (current_config sh) p) }) now p.seq
        p.key

  unfoldable pub build_stats : SharedState → ℕ → ℕ → StatsPayload
  build_stats sh now_mono seq = record {
    seq = seq;
    uptime_ms = to_u32 (mul (sub now_mono sh.start_mono_s) f64_1000);
    usb_hz = elim sh.cfg [ some c ↦ to_f32 c.usb_hz | none ↦ 0 ];
    tcp_hz = elim sh.cfg [ some c ↦ to_f32 c.tcp_hz | none ↦ 0 ];
    ctrl_hz = elim sh.cfg [ some c ↦ to_f32 c.ctrl_hz | none ↦ 0 ];
    drops_state = sh.state_ring.drops % 2 ^ 32;
    drops_cmd = sh.cmd_ring.drops % 2 ^ 32;
    drops_event = sh.event_ring.drops % 2 ^ 32;
    drops_sys_event = sh.sys_event_ring.drops % 2 ^ 32;
    tcp_frames_bad = sh.tcp_frames_bad;
    serial_errors = sh.serial_errors;
    reserved0 = 0;
  }
