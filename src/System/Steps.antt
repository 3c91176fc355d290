-- ===== src/System/Steps.antt =====
-- That no step of the workers stops the system.
use stm32_board.Base.{
  true, ℕ, zero, suc, ◌≡◌, refl, sym, ap, ◌∙◌, subst, Bool, arith, take, drop, length, Bool-cases,
  Option-cases, inl, inr, if◌then◌else◌,
}
use stm32_board.Core.{States, Timestamps, zero_motor_commands}
use stm32_board.Float.{Fpu}
use stm32_board.Config.{EventCmd, blank_event}
use stm32_board.Mailbox.{load_or_default, store}
use stm32_board.Ring.{pop, SpscOverwriteRing, drain, empty_ring}
use stm32_board.Ring.Refine.{IsValid, contents, empty_ring-IsValid}
use stm32_board.Ring.Drain.{fold, drain_lem}
use stm32_board.Shared.{SharedState, fresh_shared, queue_capacity, bump_serial_errors}
use stm32_board.Controller.{Draining, apply_sys_event, control_cycle, control_exit, system_snapshot}
use stm32_board.Controller.Safety.{start_of}
use stm32_board.Usb.{
  cmd_fresh, usb_command, UsbState, usb_cycle, write_all, drain_events, apply_hw_event, publish,
  beep_on, send,
}
use stm32_board.Usb.Safety.{usb_command_lem}
use stm32_board.BinaryLog.{Os}
use stm32_board.BinaryLog.Rotating.{RotatingBinaryLog}
use stm32_board.LogWorker.{log_round}
use stm32_board.System.{
  gateway_start, Reached, start, frame, tcp, cycle, log, unstarted, exit, round,
}
use stm32_board.System.Serving.{handle_frame-Armed, tcp_cycle-Armed}
use stm32_board.System.Armed.{
  NoRise, Armed, NoRise-take, NoRise-drop, fold-id, control_part, Armed-same,
}

module _ (fpu : Fpu) where
  drained :
      (sh : SharedState)
      → IsValid queue_capacity sh.sys_event_q
      → let q = contents queue_capacity blank_event sh.sys_event_q in
        let (_, r, d) =
          drain queue_capacity blank_event 32
            (apply_sys_event sh.cfg)
            sh.sys_event_q
            (start_of sh) in
        (contents queue_capacity blank_event r ≡ drop 32 q)
        × (d ≡ fold (apply_sys_event sh.cfg) (start_of sh) (take 32 q))
        × IsValid queue_capacity r
  drained sh v =
      let d =
        drain_lem queue_capacity blank_event (apply_sys_event sh.cfg) 32 sh.sys_event_q
          (start_of sh) v in
      (d.1, d.2, d.3)

  snapshot :
      (sh : SharedState) → (system_snapshot sh).running ≡ (load_or_default sh.system_state).running
  unfolding system_snapshot
  snapshot sh = ground arith

  pub control_cycle-Armed :
      (now_mono : ℕ) (sh : SharedState) → Armed sh → Armed (control_cycle fpu now_mono sh)
  unfolding control_cycle load_or_default store
  control_cycle-Armed now_mono sh h =
      let q = contents queue_capacity blank_event sh.sys_event_q in
      let (left, state, valid) = drained sh h.valid in
      record {
        armed =
            ap (λ (d : Draining). d.sys.running)
              (state ∙ fold-id sh.cfg (take 32 q) (start_of sh) (NoRise-take 32 q h.no_rise))
            ∙ snapshot sh
            ∙ h.armed;
        no_rise = subst NoRise (sym left) (NoRise-drop 32 q h.no_rise);
        valid = valid;
      }

  apply_hw_event-part :
      (answers : ℕ → Bool) (ts : Timestamps) (ev : EventCmd) (u : UsbState)
      → control_part (apply_hw_event answers ts ev u).sh ≡ control_part u.sh
  unfolding apply_hw_event beep_on send write_all bump_serial_errors
  apply_hw_event-part answers ts ev u = ground arith

  drain-part :
      (answers : ℕ → Bool) (ts : Timestamps) (n : ℕ) (r : SpscOverwriteRing EventCmd) (u : UsbState)
      → control_part (drain queue_capacity blank_event n (apply_hw_event answers ts) r u).2.sh
        ≡ control_part u.sh
  unfolding drain
  drain-part answers ts zero r u = refl
  drain-part answers ts (suc n) r u = elim (Option-cases (pop queue_capacity blank_event r).0) [
    | inl e ↦ rw (drain, e)
    | inr (ev, e) ↦
        rw (drain, e)
          (drain-part answers ts n (pop queue_capacity blank_event r).1
              (apply_hw_event answers ts ev u)
            ∙ apply_hw_event-part answers ts ev u)
  ]

  usb_cycle-part :
      (answers : ℕ → Bool) (n : ℕ) (ts : Timestamps) (st : States) (u : UsbState)
      → control_part (usb_cycle fpu answers n ts st u).1.sh ≡ control_part u.sh
  unfolding usb_cycle write_all publish drain_events bump_serial_errors
  usb_cycle-part answers n ts st u = elim (Bool-cases (answers (length u.frames))) [
    | inl e ↦ rw (usb_cycle, write_all, e) (drain-part answers ts n u.sh.event_cmd_q _)
    | inr e ↦ rw (usb_cycle, write_all, e)
  ]

  usb_cycle-Armed :
      (answers : ℕ → Bool) (n : ℕ) (ts : Timestamps) (st : States) (u : UsbState)
      → Armed u.sh
      → Armed (usb_cycle fpu answers n ts st u).1.sh
  usb_cycle-Armed answers n ts st u h = Armed-same u.sh _ (usb_cycle-part answers n ts st u) h

  log_round-part :
      (os : Os) (sh : SharedState) (l : RotatingBinaryLog)
      → control_part (log_round os sh l).0 ≡ control_part sh
  unfolding log_round
  log_round-part os sh l = refl

  pub Reached-Armed : {sh : SharedState} → Reached fpu sh → Armed sh
  unfolding gateway_start store fresh_shared load_or_default control_exit empty_ring
      bump_serial_errors
  Reached-Armed (start t c) = record {
    armed = refl;
    no_rise = tt;
    valid = empty_ring-IsValid queue_capacity blank_event (omega arith);
  }
  Reached-Armed (frame s client now f r) = handle_frame-Armed fpu s client now f (Reached-Armed r)
  Reached-Armed (cycle now_mono sh r) = control_cycle-Armed now_mono sh (Reached-Armed r)
  Reached-Armed (tcp chrono c w r) = tcp_cycle-Armed fpu chrono c w (Reached-Armed r)
  Reached-Armed (log os sh l r) = Armed-same sh _ (log_round-part os sh l) (Reached-Armed r)
  Reached-Armed (unstarted sh r) = Armed-same sh _ refl (Reached-Armed r)
  Reached-Armed (exit sh r) = Armed-same sh _ refl (Reached-Armed r)
  Reached-Armed (round answers n ts st u r) = usb_cycle-Armed answers n ts st u (Reached-Armed r)

  -- In every state that the program reaches from its start, whatever clients send, the system runs: no
  -- step puts a stop or a reset in the queue, and the command that the USB worker would write to the
  -- motors is the controller's request whenever the last command is fresh.
  pub Reached_stays_armed :
      (now_mono : ℕ) (sh : SharedState)
      → Reached fpu sh
      → ((load_or_default sh.system_state).running ≡ true)
        × (usb_command fpu now_mono sh ≡ (
            if cmd_fresh fpu sh.cfg now_mono sh.last_cmd_rx_mono_s
            then load_or_default sh.latest_motor_command_request
            else zero_motor_commands))
  Reached_stays_armed now_mono sh r =
      let armed = (Reached-Armed r).armed in
      (armed, ground (arith, usb_command_lem fpu now_mono sh, armed))
