-- ===== src/Usb/Published.antt =====
-- What a round of the USB worker hands to the other workers.
use stm32_board.Base.{
  ℕ, ◌+◌, ◌-◌, ◌%◌, ◌^◌, ◌≡◌, refl, ap, ap₂, ◌∙◌, List, [], ◌∷◌, Bool, true, length, take, drop,
  arith,
}
use stm32_board.Core.{States, Timestamps}
use stm32_board.Float.{Fpu}
use stm32_board.Config.{EventCmd, blank_event}
use stm32_board.Mailbox.{store, load_or_default}
use stm32_board.Ring.{SpscOverwriteRing, push_overwrite}
use stm32_board.Ring.Queue
use stm32_board.Ring.Refine.{IsValid, contents, push_overwrite_refines}
use stm32_board.Ring.Drain.{fold, drain_lem}
use stm32_board.Shared.{
  StateSample, MotorCommandsSample, queue_capacity, state_ring_capacity, log_ring_capacity,
  blank_state_sample, blank_motor_sample, bump_serial_errors,
}
use stm32_board.Usb.Safety.{motor_frame, safe_command, usb_command_lem}
use stm32_board.Usb.{
  UsbState, write_all, send, usb_command, beep_on, apply_hw_event, drain_events, publish, usb_cycle,
}

-- What the events of a round leave as it is.
abbrev view :
    UsbState → SpscOverwriteRing StateSample × SpscOverwriteRing MotorCommandsSample × ℕ × ℕ
view u = (u.sh.state_ring, u.sh.cmd_ring, u.state_seq, u.local_cmd_seq)

module _ (answers : ℕ → Bool) (ts : Timestamps) where
  apply_hw_event-view :
      (ev : EventCmd) (u : UsbState) → view (apply_hw_event answers ts ev u) ≡ view u
  unfolding apply_hw_event beep_on send write_all bump_serial_errors
  apply_hw_event-view ev u = ground arith

  fold-view :
      (evs : List EventCmd) (u : UsbState) → view (fold (apply_hw_event answers ts) u evs) ≡ view u
  fold-view [] u = refl
  fold-view (ev ∷ evs) u = fold-view evs (apply_hw_event answers ts ev u) ∙ apply_hw_event-view ev u

  drain_events-view :
      (n : ℕ) (u : UsbState)
      → IsValid queue_capacity u.sh.event_cmd_q
      → view (drain_events answers ts n u) ≡ view u
  unfolding drain_events
  drain_events-view n u v =
      ap view
        (drain_lem queue_capacity blank_event (apply_hw_event answers ts) n u.sh.event_cmd_q u v).2
      ∙ fold-view (take n (contents queue_capacity blank_event u.sh.event_cmd_q)) u

  drain_events-contents :
      (n : ℕ) (u : UsbState)
      → IsValid queue_capacity u.sh.event_cmd_q
      → contents queue_capacity blank_event (drain_events answers ts n u).sh.event_cmd_q
        ≡ drop n (contents queue_capacity blank_event u.sh.event_cmd_q)
  unfolding drain_events
  drain_events-contents n u v =
      (drain_lem queue_capacity blank_event (apply_hw_event answers ts) n u.sh.event_cmd_q u v).1

pushed :
    {T : Type 0} (capacity : ℕ) (blank : T) {r r' : SpscOverwriteRing T} {x x' : T}
    → r' ≡ r
    → x' ≡ x
    → IsValid capacity r
    → contents capacity blank (push_overwrite capacity blank r' x').0
      ≡ (Queue.push (capacity - 1) (contents capacity blank r) x).0
pushed capacity blank {r = r} {x = x} ring item v =
    ap₂ (λ r x. contents capacity blank (push_overwrite capacity blank r x).0) ring item
    ∙ (push_overwrite_refines capacity blank r x v).0

module _ (fpu : Fpu) (answers : ℕ → Bool) (max_hw_events : ℕ) (ts : Timestamps) (st : States) where
  -- A round that goes on hands the board's state and the command that it wrote to the logs, as the
  -- newest items of their rings, numbered by its counters, and replaces the latest state.
  pub usb_cycle_published :
      (u : UsbState)
      → answers (length u.frames) ≡ true
      → IsValid state_ring_capacity u.sh.state_ring
      → IsValid log_ring_capacity u.sh.cmd_ring
      → IsValid queue_capacity u.sh.event_cmd_q
      → let (go_on, u') = usb_cycle fpu answers max_hw_events ts st u in
        let state : StateSample = record { ts = ts; seq = (u.state_seq + 1) % 2 ^ 32; st = st } in
        let applied : MotorCommandsSample = record {
          ts = ts;
          seq = (u.local_cmd_seq + 1) % 2 ^ 32;
          motors = safe_command fpu ts.mono_s u.sh;
        } in
        (go_on ≡ true)
        × (load_or_default u'.sh.latest_state ≡ st)
        × (contents state_ring_capacity blank_state_sample u'.sh.state_ring
            ≡ (Queue.push
                (state_ring_capacity - 1)
                (contents state_ring_capacity blank_state_sample u.sh.state_ring)
                state).0)
        × (contents log_ring_capacity blank_motor_sample u'.sh.cmd_ring
            ≡ (Queue.push
                (log_ring_capacity - 1)
                (contents log_ring_capacity blank_motor_sample u.sh.cmd_ring)
                applied).0)
        × (contents queue_capacity blank_event u'.sh.event_cmd_q
            ≡ drop max_hw_events (contents queue_capacity blank_event u.sh.event_cmd_q))
  unfolding usb_cycle write_all publish load_or_default store
  usb_cycle_published u sent vs vc vq =
      let cmd = usb_command fpu ts.mono_s u.sh in
      let u1 = (write_all answers (motor_frame cmd) u).1 in
      let w = drain_events answers ts max_hw_events u1 in
      let kept : view w ≡ view u1 = drain_events-view answers ts max_hw_events u1 vq in
      let taken = drain_events-contents answers ts max_hw_events u1 vq in
      rw (← usb_command_lem fpu ts.mono_s u.sh) (
        rw (usb_cycle, write_all, sent)
          (
            refl,
            refl,
            pushed state_ring_capacity blank_state_sample (ap (λ p. p.0) kept)
                (ap (λ p. record { ts = ts; seq = (p.2 + 1) % 2 ^ 32; st = st }) kept) vs,
            pushed log_ring_capacity blank_motor_sample (ap (λ p. p.1) kept)
                (ap (λ p. record { ts = ts; seq = (p.3 + 1) % 2 ^ 32; motors = cmd }) kept) vc,
            taken,
          ))
