-- ===== src/Usb/Safety.antt =====
-- What reaches the board from a round of the USB worker, and when the worker ends.
use stm32_board.Base.{
  ℕ, zero, suc, ◌≡◌, refl, sym, ap, ◌∙◌, List, [], ◌∷◌, ◌++◌, Bool, true, false, not, ◌&&◌, ◌||◌,
  none, some, if◌then◌else◌, length, take, arith, append_assoc, append-nil, Bool-cases, inl, inr,
}
use stm32_board.Base.Int.{pos}
use stm32_board.Core.{States, MotorCommands, Timestamps, zero_motor_commands}
use stm32_board.Float.{Fpu}
use stm32_board.Config.{beep, EventCmd, blank_event}
use stm32_board.Mailbox.{load_or_default, request_stop, stop_requested}
use stm32_board.Ring.Refine.{IsValid, contents}
use stm32_board.Ring.Drain.{fold, drain_lem}
use stm32_board.Shared.{SharedState, queue_capacity, bump_serial_errors}
use stm32_board.Rosmaster.{set_motor, set_beep}
use stm32_board.Usb.{
  UsbState, write_all, send, cmd_fresh, usb_command, beep_on, apply_hw_event, drain_events, publish,
  usb_cycle, Round, begin_round, usb_loop, stop_motors_burst, usb_run,
}

-- The frames of the beeps among the events.
abbrev pub beep_frame : EventCmd → List (List ℕ)
beep_frame ev = elim ev.type_ [
  | beep ↦ elim (set_beep (pos ev.data0)) [ none ↦ [] | some frame ↦ frame ∷ [] ]
  | _ ↦ []
]

abbrev pub beep_frames : List EventCmd → List (List ℕ)
beep_frames [] = []
beep_frames (ev ∷ evs) = beep_frame ev ++ beep_frames evs

abbrev pub motor_frame : MotorCommands → List ℕ
motor_frame cmd = set_motor cmd.m1 cmd.m2 cmd.m3 cmd.m4

-- The command that the safety rules ask for.
abbrev pub safe_command : Fpu → ℕ → SharedState → MotorCommands
safe_command fpu now_mono sh =
    if (load_or_default sh.system_state).running
      && cmd_fresh fpu sh.cfg now_mono sh.last_cmd_rx_mono_s
    then load_or_default sh.latest_motor_command_request
    else zero_motor_commands

pub usb_command_lem :
    (fpu : Fpu) (now_mono : ℕ) (sh : SharedState)
    → usb_command fpu now_mono sh ≡ safe_command fpu now_mono sh
unfolding usb_command
usb_command_lem fpu now_mono sh = ground arith

module _ (answers : ℕ → Bool) (ts : Timestamps) where
  apply_hw_event-frames :
      (ev : EventCmd) (u : UsbState)
      → (apply_hw_event answers ts ev u).frames ≡ u.frames ++ beep_frame ev
  unfolding apply_hw_event beep_on send write_all bump_serial_errors
  apply_hw_event-frames ev u = ground (arith, append-nil u.frames)

  fold-frames :
      (evs : List EventCmd) (u : UsbState)
      → (fold (apply_hw_event answers ts) u evs).frames ≡ u.frames ++ beep_frames evs
  fold-frames [] u = sym (append-nil u.frames)
  fold-frames (ev ∷ evs) u =
      fold-frames evs (apply_hw_event answers ts ev u)
      ∙ ap (λ fs. fs ++ beep_frames evs) (apply_hw_event-frames ev u)
      ∙ append_assoc u.frames (beep_frame ev) (beep_frames evs)

  drain_events-frames :
      (n : ℕ) (u : UsbState)
      → IsValid queue_capacity u.sh.event_cmd_q
      → (drain_events answers ts n u).frames
        ≡ u.frames ++ beep_frames (take n (contents queue_capacity blank_event u.sh.event_cmd_q))
  unfolding drain_events
  drain_events-frames n u v =
      ap (λ (w : UsbState). w.frames)
        (drain_lem queue_capacity blank_event (apply_hw_event answers ts) n u.sh.event_cmd_q u v).2
      ∙ fold-frames (take n (contents queue_capacity blank_event u.sh.event_cmd_q)) u

module _ (fpu : Fpu) (answers : ℕ → Bool) (max_hw_events : ℕ) (ts : Timestamps) (st : States) where
  -- A round writes the motor command first: the published request if the system runs and the last
  -- command is fresh, else zero on all four motors. Behind it come the beeps of the oldest
  -- `max_hw_events` queued events, in order, and only if the motor write succeeded.
  pub usb_cycle-frames :
      (u : UsbState)
      → IsValid queue_capacity u.sh.event_cmd_q
      → (usb_cycle fpu answers max_hw_events ts st u).1.frames
        ≡ u.frames
          ++ motor_frame (safe_command fpu ts.mono_s u.sh)
            ∷ (if answers (length u.frames)
                then beep_frames
                    (take max_hw_events (contents queue_capacity blank_event u.sh.event_cmd_q))
                else [])
  unfolding usb_cycle write_all publish
  usb_cycle-frames u v =
      let cmd = usb_command fpu ts.mono_s u.sh in
      let u1 = (write_all answers (motor_frame cmd) u).1 in
      let beeps = drain_events-frames answers ts max_hw_events u1 v in
      rw (← usb_command_lem fpu ts.mono_s u.sh) (elim (Bool-cases (answers (length u.frames))) [
        | inl e ↦
            rw (usb_cycle, write_all, e) (beeps ∙ append_assoc u.frames (motor_frame cmd ∷ []) _)
        | inr e ↦ rw (usb_cycle, write_all, e)
      ])

  -- A motor write that fails ends the loop: the stop flag is set for all workers, the error is
  -- counted, and nothing else of the shared state changes.
  pub usb_cycle_failure :
      (u : UsbState)
      → answers (length u.frames) ≡ false
      → let (go_on, u') = usb_cycle fpu answers max_hw_events ts st u in
        (go_on ≡ false) × (stop_requested u'.stop ≡ true) × (u'.sh ≡ bump_serial_errors u.sh)
  unfolding usb_cycle write_all stop_requested request_stop
  usb_cycle_failure u refused = rw (write_all, refused) (refl, refl, refl)

abbrev pub off_frames : ℕ → List (List ℕ)
off_frames zero = []
off_frames (suc n) = motor_frame zero_motor_commands ∷ off_frames n

module _ (fpu : Fpu) (answers : ℕ → Bool) (max_hw_events : ℕ) where
  stop_motors_burst-frames :
      (n : ℕ) (u : UsbState) → (stop_motors_burst answers n u).frames ≡ u.frames ++ off_frames n
  unfolding stop_motors_burst write_all
  stop_motors_burst-frames zero u = sym (append-nil u.frames)
  stop_motors_burst-frames (suc n) u =
      stop_motors_burst-frames n (write_all answers (motor_frame zero_motor_commands) u).1
      ∙ append_assoc u.frames (motor_frame zero_motor_commands ∷ []) (off_frames n)

  -- However the loop goes and whatever the writes return, the last frames of a run are motor-off
  -- frames, five of them.
  pub usb_run-off_frames :
      (rounds : List Round) (u : UsbState)
      → (usb_run fpu answers max_hw_events rounds u).frames
        ≡ (usb_loop fpu answers max_hw_events rounds u).frames ++ off_frames 5
  unfolding usb_run
  usb_run-off_frames rounds u =
      stop_motors_burst-frames 5 (usb_loop fpu answers max_hw_events rounds u)

  -- A stop that is seen at the start of a round, or a motor write of the round that fails, ends the
  -- run: no later round writes anything, and what is still written is the motor-off burst, behind the
  -- one frame that failed if it was a failure.
  pub usb_run_ends :
      (round : Round) (rounds : List Round) (u : UsbState)
      → let u' = begin_round round u in
        let stopped = stop_requested u'.stop in
        IsValid queue_capacity u'.sh.event_cmd_q
        → stopped || not (answers (length u.frames)) ≡ true
        → (usb_run fpu answers max_hw_events (round ∷ rounds) u).frames
          ≡ u.frames
            ++ (if stopped then [] else motor_frame (safe_command fpu round.ts.mono_s u'.sh) ∷ [])
            ++ off_frames 5
  unfolding begin_round usb_loop
  usb_run_ends round rounds u v ends =
      usb_run-off_frames (round ∷ rounds) u
      ∙ ap (λ fs. fs ++ off_frames 5)
          (elim (Bool-cases (stop_requested (begin_round round u).stop)) [
            | inl e ↦ rw (usb_loop, e) (sym (append-nil u.frames))
            | inr e ↦ failed e (refused e) ∙ rw e
          ])
    where
      refused :
          stop_requested (begin_round round u).stop ≡ false → answers (length u.frames) ≡ false
      refused e = ground arith

      failed :
          stop_requested (begin_round round u).stop ≡ false
          → answers (length u.frames) ≡ false
          → (usb_loop fpu answers max_hw_events (round ∷ rounds) u).frames
            ≡ u.frames
              ++ motor_frame (safe_command fpu round.ts.mono_s (begin_round round u).sh) ∷ []
      failed e f =
          let u' = begin_round round u in
          rw (usb_loop, e, (usb_cycle_failure fpu answers max_hw_events round.ts round.st u' f).0)
            (usb_cycle-frames fpu answers max_hw_events round.ts round.st u' v
              ∙ ap
                  (λ ok.
                    u.frames
                    ++ motor_frame (safe_command fpu round.ts.mono_s u'.sh)
                      ∷ (if ok
                          then beep_frames (
                              take max_hw_events
                                (contents queue_capacity blank_event u'.sh.event_cmd_q))
                          else []))
                  f)
