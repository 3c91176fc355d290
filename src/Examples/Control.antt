-- ===== src/Examples/Control.antt =====
-- Cycles of the controller on a queue with a reset and a start.
use stm32_board.Base.{
  ℕ, ◌+◌, ◌≡◌, refl, List, [], ◌∷◌, Bool, true, false, not, ◌&&◌, Option, none, some, if◌then◌else◌,
  arith, take, drop,
}
use stm32_board.Core.{zero_motor_commands}
use stm32_board.Config.{EventCmd, blank_event}
use stm32_board.Mailbox.{load_or_default}
use stm32_board.Ring.{SpscOverwriteRing, push_overwrite, empty_ring, inc}
use stm32_board.Ring.Refine.{IsValid, contents, empty_ring-IsValid, push_overwrite-IsValid}
use stm32_board.Shared.{SharedState, fresh_shared, queue_capacity}
use stm32_board.Controller.{cmd_timeout_active, control_cycle, bit_matches}
use stm32_board.Controller.Safety.{
  is_pass, armed, control_cycle_request, control_cycle-armed, control_cycle_reset_start,
}
use stm32_board.Examples.Data.{unit, noon, with_bits, rise, started}

-- The queue after a reset and a start.
abbrev queued : SpscOverwriteRing EventCmd
queued =
    (push_overwrite queue_capacity blank_event
      (push_overwrite queue_capacity blank_event (empty_ring queue_capacity blank_event) (rise 2)).0
      (rise 0)).0

queued-IsValid : IsValid queue_capacity queued
queued-IsValid = push_overwrite-IsValid queue_capacity blank_event _ (rise 0) (
    push_overwrite-IsValid queue_capacity blank_event _ (rise 2)
      (empty_ring-IsValid queue_capacity blank_event (omega arith)))

queued-contents : contents queue_capacity blank_event queued ≡ rise 2 ∷ rise 0 ∷ []
unfolding push_overwrite empty_ring inc
queued-contents = refl

abbrev operated : SharedState
operated = record started {
  sys_event_q = queued;
  latest_remote_motor_cmd = record {
    value = record zero_motor_commands { m1 = stm32_board.Base.Int.pos 40 };
    seq = 1;
  };
}

control_cycle_request_example :
    let sh = control_cycle unit noon.mono_s operated in
    let sys = load_or_default sh.system_state in
    load_or_default sh.latest_motor_command_request ≡ (
      if sys.running
        && (not (cmd_timeout_active unit operated.cfg noon.mono_s operated.last_cmd_rx_mono_s)
            && is_pass sys.control_mode)
      then load_or_default operated.latest_remote_motor_cmd
      else zero_motor_commands)
control_cycle_request_example = control_cycle_request unit noon.mono_s operated queued-IsValid

control_cycle-armed_example :
    let q = contents queue_capacity blank_event queued in
    let sh = control_cycle unit noon.mono_s operated in
    let sys = load_or_default sh.system_state in
    (sys.running ≡ armed with_bits (take 32 q) (load_or_default operated.system_state).running)
    × (sys.control_mode ≡ with_bits.control_mode)
    × (contents queue_capacity blank_event sh.sys_event_q ≡ drop 32 q)
control_cycle-armed_example =
    control_cycle-armed unit noon.mono_s operated with_bits queued-IsValid refl

stale_command :
    let sh = control_cycle unit noon.mono_s operated in
    (load_or_default sh.latest_motor_command_request
      ≡ load_or_default operated.latest_remote_motor_cmd)
    × (load_or_default sh.latest_remote_motor_cmd ≡ zero_motor_commands)
unfolding bit_matches cmd_timeout_active fresh_shared
stale_command =
    control_cycle_reset_start unit noon.mono_s operated with_bits queued-IsValid refl (rise 2)
      (rise 0) queued-contents refl refl refl refl refl refl
