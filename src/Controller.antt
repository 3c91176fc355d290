-- ===== src/Controller.antt =====
-- cpp_gateway/app/workers/controller_worker.cpp: one cycle of the control loop.
pub mod Safety
use stm32_board.Base.{
  ℕ, ◌+◌, List, [], ◌∷◌, Bool, true, false, not, ◌&&◌, ◌||◌, Option, none, some, ltb, leb, ◌==◌,
  if◌then◌else◌,
}
use stm32_board.Base.Int.{ℤ, pos, negsuc}
use stm32_board.Core.{MotorCommands, zero_motor_commands}
use stm32_board.Wire.Messages.{SetpointPayload}
use stm32_board.Float.{Fpu, f64_zero}
use stm32_board.Config.{
  ControlMode, pass_through_cmd, autonomous, autonomous_with_remote_setpoint, enforce, disable,
  EventType, beep, flag_rise, config_applied, EventCmd, blank_event, RuntimeConfig, UsbTimeoutMode,
}
use stm32_board.Mailbox.{LatestValue, store, load_or_default}
use stm32_board.Ring.{drain}
use stm32_board.Shared.{SharedState, SystemState, queue_capacity, zero_setpoint}

unfoldable pub bit_matches : ℤ → ℕ → Bool
bit_matches (pos bit) idx = ltb bit 8 && bit == idx
bit_matches (negsuc _) idx = false

-- What the lambda passed to `drain` changes: the snapshot `sys`, and the two mailboxes that a reset
-- clears.
pub record Draining : Type 0 where
  pub sys : SystemState
  pub remote : LatestValue MotorCommands
  pub setpoint : LatestValue SetpointPayload

unfoldable pub start_on : RuntimeConfig → ℕ → Draining → Draining
start_on cfg bit d =
    if bit_matches cfg.flag_start_bit bit
    then record d { sys = record d.sys { running = true } }
    else d

unfoldable pub stop_on : RuntimeConfig → ℕ → Draining → Draining
stop_on cfg bit d =
    if bit_matches cfg.flag_stop_bit bit
    then record d { sys = record d.sys { running = false } }
    else d

unfoldable pub reset_on : RuntimeConfig → ℕ → Draining → Draining
reset_on cfg bit d =
    if bit_matches cfg.flag_reset_bit bit
    then record {
      sys = record d.sys { running = false };
      remote = store d.remote zero_motor_commands;
      setpoint = store d.setpoint zero_setpoint;
    }
    else d

unfoldable pub apply_sys_event : Option RuntimeConfig → EventCmd → Draining → Draining
unfolding start_on stop_on reset_on
apply_sys_event cfg ev d = elim ev.type_ [
  | flag_rise ↦ elim cfg [
    | none ↦ d
    | some c ↦ reset_on c ev.data0 (stop_on c ev.data0 (start_on c ev.data0 d))
  ]
  | _ ↦ d
]

-- The timeout test of the cycle, at the time `now_mono`.
unfoldable pub cmd_timeout_active : Fpu → Option RuntimeConfig → ℕ → ℕ → Bool
cmd_timeout_active fpu none now_mono last_rx = false
cmd_timeout_active fpu (some c) now_mono last_rx = elim c.usb_timeout_mode [
  | enforce ↦ fpu.lt f64_zero last_rx && fpu.lt c.cmd_timeout_s (fpu.sub now_mono last_rx)
  | disable ↦ false
]

unfoldable pub desired_cmd : SystemState → Bool → MotorCommands → MotorCommands
desired_cmd sys timeout remote_cmd =
    if not sys.running || timeout then zero_motor_commands else elim sys.control_mode [
      | pass_through_cmd ↦ remote_cmd
      | autonomous ↦ zero_motor_commands
      | autonomous_with_remote_setpoint ↦ zero_motor_commands
    ]

-- The snapshot of the system state, with the configured mode.
unfoldable pub system_snapshot : SharedState → SystemState
system_snapshot sh = elim sh.cfg [
  | none ↦ load_or_default sh.system_state
  | some c ↦ record (load_or_default sh.system_state) { control_mode = c.control_mode }
]

-- `while (!stop_requested())`, one round; the rate limiter is left out. `remote_cmd` is read before
-- the events are drained.
unfoldable pub control_cycle : Fpu → ℕ → SharedState → SharedState
control_cycle fpu now_mono sh =
    let remote_cmd = load_or_default sh.latest_remote_motor_cmd in
    let start : Draining = record {
      sys = system_snapshot sh;
      remote = sh.latest_remote_motor_cmd;
      setpoint = sh.latest_setpoint_cmd;
    } in
    let (_, q, d) =
      drain queue_capacity blank_event 32 (apply_sys_event sh.cfg) sh.sys_event_q start in
    let timeout = cmd_timeout_active fpu sh.cfg now_mono sh.last_cmd_rx_mono_s in
    record sh {
      latest_remote_motor_cmd = d.remote;
      latest_setpoint_cmd = d.setpoint;
      sys_event_q = q;
      system_state = store sh.system_state d.sys;
      latest_motor_command_request =
          store sh.latest_motor_command_request (desired_cmd d.sys timeout remote_cmd);
    }

-- What the thread publishes when it ends.
unfoldable pub control_exit : SharedState → SharedState
control_exit sh = record sh {
  latest_motor_command_request = store sh.latest_motor_command_request zero_motor_commands;
}
