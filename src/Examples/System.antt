-- ===== src/Examples/System.antt =====
-- A few steps of the whole program.
use stm32_board.Base.{true, false, if◌then◌else◌, ◌≡◌, refl, [], ◌∷◌, take, arith}
use stm32_board.Base.Int.{pos, negsuc}
use stm32_board.Wire.Messages.{MotorCmdPayload}
use stm32_board.Ring.Refine.{IsValid, contents, empty_ring-IsValid}
use stm32_board.System.EndToEnd.{controlled, cmd_frame-usb_cycle}
use stm32_board.Usb.Safety.{motor_frame, beep_frames}
use stm32_board.Core.{zero_motor_commands, zero_states}
use stm32_board.Framed.{Frame, fresh, msg_cmd}
use stm32_board.Mailbox.{load_or_default}
use stm32_board.Shared.{SharedState, fresh_shared, queue_capacity}
use stm32_board.Tcp.Worker.{TcpState, handle_frame}
use stm32_board.Controller.{control_cycle, cmd_timeout_active}
use stm32_board.Config.{default_config, blank_event}
use stm32_board.Usb.{UsbState, usb_cycle, cmd_fresh, usb_command}
use stm32_board.System.{gateway_start, start, frame, cycle}
use stm32_board.System.Steps.{Reached_stays_armed}
use stm32_board.Examples.Data.{unit, noon}

abbrev worker : TcpState
worker = record {
  sh = gateway_start 5 default_config;
  cmd_frx = fresh;
  last_sp_seq = 0;
  state_seq = 0;
  stats_seq = 0;
  sent = [];
}

abbrev command : Frame
command = record {
  type_ = msg_cmd;
  payload = 7 ∷ 0 ∷ 0 ∷ 0 ∷ 30 ∷ 0 ∷ 30 ∷ 0 ∷ 30 ∷ 0 ∷ 30 ∷ 0 ∷ [];
}

-- A client's command, and a cycle of the controller.
abbrev driven : SharedState
driven = control_cycle unit noon.mono_s (handle_frame unit worker 4 noon command).sh

Reached_stays_armed_example :
    ((load_or_default driven.system_state).running ≡ true)
    × (usb_command unit noon.mono_s driven ≡ (
        if cmd_fresh unit driven.cfg noon.mono_s driven.last_cmd_rx_mono_s
        then load_or_default driven.latest_motor_command_request
        else zero_motor_commands))
Reached_stays_armed_example =
    Reached_stays_armed unit noon.mono_s driven
      (cycle noon.mono_s _ (frame worker 4 noon command (start 5 default_config)))

abbrev forward : MotorCmdPayload
forward = record {
  seq = 7;
  motors = record { m1 = pos 30; m2 = negsuc 29; m3 = pos 100; m4 = pos 0 };
}

abbrev board : UsbState
board = record {
  sh = worker.sh;
  stop = record { stop = false };
  frames = [];
  state_seq = 0;
  local_cmd_seq = 0;
}

hardware_queue-IsValid : IsValid queue_capacity worker.sh.event_cmd_q
unfolding gateway_start fresh_shared
hardware_queue-IsValid = empty_ring-IsValid queue_capacity blank_event (omega arith)

cmd_frame-usb_cycle_example :
    (usb_cycle unit
      (λ n. true)
      8
      noon
      zero_states
      (record board { sh = controlled unit worker 4 noon forward noon.mono_s })).1.frames
    ≡ motor_frame forward.motors
      ∷ beep_frames (take 8 (contents queue_capacity blank_event worker.sh.event_cmd_q))
unfolding cmd_fresh cmd_timeout_active gateway_start
cmd_frame-usb_cycle_example =
    cmd_frame-usb_cycle unit worker 4 noon forward noon.mono_s (λ n. true) 8 noon zero_states board
      default_config (start 5 default_config) refl refl (ground arith) hardware_queue-IsValid refl
      refl
