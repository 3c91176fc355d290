-- ===== src/Examples/Usb.antt =====
-- Rounds of the USB worker with a beep in the queue.
use stm32_board.Base.{ℕ, ◌≡◌, refl, [], ◌∷◌, ◌++◌, Bool, true, false, if◌then◌else◌, arith, take}
use stm32_board.Core.{zero_states}
use stm32_board.Config.{blank_event}
use stm32_board.Mailbox.{StopFlag, stop_requested}
use stm32_board.Ring.{push_overwrite, empty_ring}
use stm32_board.Ring.Refine.{IsValid, contents, empty_ring-IsValid, push_overwrite-IsValid}
use stm32_board.Shared.{
  SharedState, queue_capacity, state_ring_capacity, log_ring_capacity, blank_state_sample,
  blank_motor_sample, fresh_shared,
}
use stm32_board.Usb.{UsbState, usb_cycle, usb_run, Round, begin_round}
use stm32_board.Usb.Safety.{
  beep_frames, motor_frame, safe_command, off_frames, usb_cycle-frames, usb_run_ends,
}
use stm32_board.Examples.Data.{unit, noon, started}

abbrev pub shared : SharedState
shared = record started {
  event_cmd_q =
      (push_overwrite queue_capacity blank_event (empty_ring queue_capacity blank_event)
        (record blank_event { data0 = 100 })).0;
}

beeps-IsValid : IsValid queue_capacity shared.event_cmd_q
beeps-IsValid =
    push_overwrite-IsValid queue_capacity blank_event _ (record blank_event { data0 = 100 })
      (empty_ring-IsValid queue_capacity blank_event (omega arith))

abbrev pub running : StopFlag
running = record { stop = false }

abbrev pub idle : UsbState
idle = record { sh = shared; stop = running; frames = []; state_seq = 0; local_cmd_seq = 0 }

-- A port that takes every frame, and one that fails.
abbrev pub works : ℕ → Bool
works n = true

abbrev broken : ℕ → Bool
broken n = false

usb_cycle-frames_example :
    (usb_cycle unit works 8 noon zero_states idle).1.frames
    ≡ motor_frame (safe_command unit noon.mono_s shared)
      ∷ beep_frames (take 8 (contents queue_capacity blank_event shared.event_cmd_q))
usb_cycle-frames_example = usb_cycle-frames unit works 8 noon zero_states idle beeps-IsValid

states-IsValid : IsValid state_ring_capacity started.state_ring
unfolding fresh_shared
states-IsValid = empty_ring-IsValid state_ring_capacity blank_state_sample (omega arith)

commands-IsValid : IsValid log_ring_capacity started.cmd_ring
unfolding fresh_shared
commands-IsValid = empty_ring-IsValid log_ring_capacity blank_motor_sample (omega arith)

abbrev pub round : Round
round = record { ts = noon; st = zero_states; others = λ sh. sh; stop_now = false }

usb_run_ends_example :
    let u = begin_round round idle in
    (usb_run unit broken 8 (round ∷ round ∷ []) idle).frames
    ≡ (if stop_requested u.stop then [] else motor_frame (safe_command unit noon.mono_s u.sh) ∷ [])
      ++ off_frames 5
unfolding begin_round stop_requested
usb_run_ends_example = usb_run_ends unit broken 8 round (round ∷ []) idle beeps-IsValid refl
