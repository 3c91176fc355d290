-- ===== src/Shared.antt =====
-- cpp_gateway/app/workers/shared_state.hpp: the state that the four workers share. The model runs one
-- worker's operation on it at a time.
use stm32_board.Base.{ℕ, ◌+◌, ◌%◌, ◌^◌, Bool, false, Option, none}
use stm32_board.Core.{States, MotorCommands, Timestamps, zero_states, zero_motor_commands}
use stm32_board.Wire.Messages.{SetpointPayload}
use stm32_board.Config.{ControlMode, pass_through_cmd, EventCmd, blank_event, RuntimeConfig}
use stm32_board.Mailbox.{LatestValue, unset}
use stm32_board.Ring.{SpscOverwriteRing, empty_ring}

pub record SystemState : Type 0 where
  pub running : Bool
  pub control_mode : ControlMode

pub record StateSample : Type 0 where
  pub ts : Timestamps
  pub seq : ℕ
  pub st : States

pub record MotorCommandsSample : Type 0 where
  pub ts : Timestamps
  pub seq : ℕ
  pub motors : MotorCommands

pub record EventSample : Type 0 where
  pub ts : Timestamps
  pub ev : EventCmd

abbrev pub queue_capacity : ℕ
queue_capacity = 256

abbrev pub state_ring_capacity : ℕ
state_ring_capacity = 4096

abbrev pub log_ring_capacity : ℕ
log_ring_capacity = 2048

pub record SharedState : Type 0 where
  pub cfg : Option RuntimeConfig
  pub latest_state : LatestValue States
  pub latest_remote_motor_cmd : LatestValue MotorCommands
  pub latest_setpoint_cmd : LatestValue SetpointPayload
  pub latest_motor_command_request : LatestValue MotorCommands
  pub system_state : LatestValue SystemState
  pub last_cmd_rx_mono_s : ℕ
  pub tcp_frames_bad : ℕ
  pub serial_errors : ℕ
  pub start_mono_s : ℕ
  pub event_cmd_q : SpscOverwriteRing EventCmd
  pub sys_event_q : SpscOverwriteRing EventCmd
  pub state_ring : SpscOverwriteRing StateSample
  pub cmd_ring : SpscOverwriteRing MotorCommandsSample
  pub event_ring : SpscOverwriteRing EventSample
  pub sys_event_ring : SpscOverwriteRing EventSample

-- The values of `T{}`.
abbrev pub zero_timestamps : Timestamps
zero_timestamps = record { epoch_s = 0; mono_s = 0 }

abbrev pub zero_setpoint : SetpointPayload
zero_setpoint = record { seq = 0; sp0 = 0; sp1 = 0; sp2 = 0; sp3 = 0; flags = 0 }

abbrev pub blank_system : SystemState
blank_system = record { running = false; control_mode = pass_through_cmd }

abbrev pub blank_event_sample : EventSample
blank_event_sample = record { ts = zero_timestamps; ev = blank_event }

abbrev pub blank_state_sample : StateSample
blank_state_sample = record { ts = zero_timestamps; seq = 0; st = zero_states }

abbrev pub blank_motor_sample : MotorCommandsSample
blank_motor_sample = record { ts = zero_timestamps; seq = 0; motors = zero_motor_commands }

-- `SharedState{}`, started at `start_mono_s`.
unfoldable pub fresh_shared : ℕ → SharedState
fresh_shared start_mono_s = record {
  cfg = none;
  latest_state = unset zero_states;
  latest_remote_motor_cmd = unset zero_motor_commands;
  latest_setpoint_cmd = unset zero_setpoint;
  latest_motor_command_request = unset zero_motor_commands;
  system_state = unset blank_system;
  last_cmd_rx_mono_s = 0;
  tcp_frames_bad = 0;
  serial_errors = 0;
  start_mono_s = start_mono_s;
  event_cmd_q = empty_ring queue_capacity blank_event;
  sys_event_q = empty_ring queue_capacity blank_event;
  state_ring = empty_ring state_ring_capacity blank_state_sample;
  cmd_ring = empty_ring log_ring_capacity blank_motor_sample;
  event_ring = empty_ring log_ring_capacity blank_event_sample;
  sys_event_ring = empty_ring log_ring_capacity blank_event_sample;
}

-- `fetch_add(1)` on a uint32 counter.
unfoldable pub bump_tcp_frames_bad : SharedState → SharedState
bump_tcp_frames_bad sh = record sh { tcp_frames_bad = (sh.tcp_frames_bad + 1) % 2 ^ 32 }

unfoldable pub bump_serial_errors : SharedState → SharedState
bump_serial_errors sh = record sh { serial_errors = (sh.serial_errors + 1) % 2 ^ 32 }
