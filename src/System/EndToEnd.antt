-- ===== src/System/EndToEnd.antt =====
-- A command on its way from a client through three workers to the board.
use stm32_board.Base.{
  ℕ, ◌≡◌, refl, sym, ap₂, ◌∙◌, subst, [], ◌∷◌, ◌++◌, Bool, true, false, some, arith, take, length,
  if◌then◌else◌,
}
use stm32_board.Core.{States, Timestamps}
use stm32_board.Float.{Fpu}
use stm32_board.Config.{pass_through_cmd, blank_event, RuntimeConfig}
use stm32_board.Controller.{cmd_timeout_active, control_cycle}
use stm32_board.Controller.Safety.{control_cycle_request, control_cycle-armed}
use stm32_board.Mailbox.{load_or_default}
use stm32_board.Ring.Refine.{IsValid, contents}
use stm32_board.Shared.{SharedState, queue_capacity}
use stm32_board.System.{Reached, frame, cycle}
use stm32_board.System.Steps.{Reached-Armed}
use stm32_board.Tcp.Incoming.{cmd_frame, handle_frame-cmd_frame}
use stm32_board.Tcp.Worker.{TcpState, handle_frame, handle_cmd, accept_cmd}
use stm32_board.Wire.Messages.{MotorCmdPayload}
use stm32_board.Wire.RoundTrip.{CmdInRange}
use stm32_board.Shared.{bump_tcp_frames_bad}
use stm32_board.Usb.{UsbState, usb_cycle, cmd_fresh}
use stm32_board.Usb.Safety.{motor_frame, safe_command, beep_frames, usb_cycle-frames}

-- What a motor command and a control cycle leave as they are.
cmd_frame-rest :
    (fpu : Fpu) (s : TcpState) (client : ℕ) (now : Timestamps) (p : MotorCmdPayload)
    → let sh' = (handle_frame fpu s client now (cmd_frame p)).sh in
      (sh'.cfg ≡ s.sh.cfg) × (sh'.event_cmd_q ≡ s.sh.event_cmd_q)
unfolding handle_frame handle_cmd accept_cmd bump_tcp_frames_bad
cmd_frame-rest fpu s client now p = ground arith

control_cycle-rest :
    (fpu : Fpu) (now_mono : ℕ) (sh : SharedState)
    → let sh' = control_cycle fpu now_mono sh in
      (sh'.cfg ≡ sh.cfg)
      × (sh'.event_cmd_q ≡ sh.event_cmd_q)
      × (sh'.last_cmd_rx_mono_s ≡ sh.last_cmd_rx_mono_s)
unfolding control_cycle
control_cycle-rest fpu now_mono sh = (refl, refl, refl)

module _ (fpu : Fpu) (s : TcpState) (client : ℕ) (now : Timestamps) (p : MotorCmdPayload)
    (now_mono : ℕ) where
  -- The shared state behind the client's frame, and behind the control cycle after it.
  abbrev pub framed : SharedState
  framed = (handle_frame fpu s client now (cmd_frame p)).sh

  abbrev pub controlled : SharedState
  controlled = control_cycle fpu now_mono framed

  timely :
      (c : RuntimeConfig)
      → framed.cfg ≡ some c
      → framed.last_cmd_rx_mono_s ≡ now.mono_s
      → cmd_timeout_active fpu (some c) now_mono now.mono_s ≡ false
      → cmd_timeout_active fpu framed.cfg now_mono framed.last_cmd_rx_mono_s ≡ false
  timely c cfg last live = ap₂ (λ cfg t. cmd_timeout_active fpu cfg now_mono t) cfg last ∙ live

  -- The request that the cycle publishes.
  requested :
      (c : RuntimeConfig)
      → Reached fpu s.sh
      → s.sh.cfg ≡ some c
      → c.control_mode ≡ pass_through_cmd
      → CmdInRange p
      → cmd_timeout_active fpu (some c) now_mono now.mono_s ≡ false
      → load_or_default controlled.latest_motor_command_request ≡ p.motors
  requested c reached cfg pass r live =
      let (arrived, last) = handle_frame-cmd_frame fpu s client now p r in
      let cfg1 = (cmd_frame-rest fpu s client now p).0 ∙ cfg in
      let reached1 = frame s client now (cmd_frame p) reached in
      let valid1 = (Reached-Armed fpu reached1).valid in
      let running = (Reached-Armed fpu (cycle now_mono framed reached1)).armed in
      let (_, mode, _) = control_cycle-armed fpu now_mono framed c valid1 cfg1 in
      ground (
        arith,
        control_cycle_request fpu now_mono framed valid1,
        running,
        mode,
        pass,
        timely c cfg1 last live,
        arrived,
      )

  -- The command that the USB worker takes from that.
  commanded :
      (ts : Timestamps) (c : RuntimeConfig)
      → Reached fpu s.sh
      → s.sh.cfg ≡ some c
      → c.control_mode ≡ pass_through_cmd
      → CmdInRange p
      → cmd_timeout_active fpu (some c) now_mono now.mono_s ≡ false
      → cmd_fresh fpu (some c) ts.mono_s now.mono_s ≡ true
      → safe_command fpu ts.mono_s controlled ≡ p.motors
  commanded ts c reached cfg pass r live fresh =
      let last = (handle_frame-cmd_frame fpu s client now p r).1 in
      let cfg1 = (cmd_frame-rest fpu s client now p).0 ∙ cfg in
      let (cfg2, _, last2) = control_cycle-rest fpu now_mono framed in
      let fresh2 =
        ap₂ (λ cfg t. cmd_fresh fpu cfg ts.mono_s t) (cfg2 ∙ cfg1) (last2 ∙ last) ∙ fresh in
      let reached1 = frame s client now (cmd_frame p) reached in
      let running = (Reached-Armed fpu (cycle now_mono framed reached1)).armed in
      ground (arith, requested c reached cfg pass r live, fresh2, running)

  -- A motor command that a client sends reaches the board. In every state that the program reaches from
  -- its start, with the pass-through mode configured and the hardware queue valid: when the client's
  -- frame is followed by a control cycle and a round of the USB worker, and neither finds the command
  -- older than the timeout by its own test, the round's first bytes on the line are the board's frame
  -- for exactly the four values that the client sent, and only the beeps come behind it.
  pub cmd_frame-usb_cycle :
      (answers : ℕ → Bool) (max_hw_events : ℕ) (ts : Timestamps) (st : States) (u : UsbState)
      (c : RuntimeConfig)
      → Reached fpu s.sh
      → s.sh.cfg ≡ some c
      → c.control_mode ≡ pass_through_cmd
      → CmdInRange p
      → IsValid queue_capacity s.sh.event_cmd_q
      → cmd_timeout_active fpu (some c) now_mono now.mono_s ≡ false
      → cmd_fresh fpu (some c) ts.mono_s now.mono_s ≡ true
      → (usb_cycle fpu answers max_hw_events ts st (record u { sh = controlled })).1.frames
        ≡ u.frames
          ++ motor_frame p.motors
            ∷ (if answers (length u.frames)
                then beep_frames
                    (take max_hw_events (contents queue_capacity blank_event s.sh.event_cmd_q))
                else [])
  cmd_frame-usb_cycle answers max_hw_events ts st u c reached cfg pass r valid live fresh =
      let queue =
        (control_cycle-rest fpu now_mono framed).1 ∙ (cmd_frame-rest fpu s client now p).1 in
      let valid2 = subst (λ q. IsValid queue_capacity q) (sym queue) valid in
      usb_cycle-frames fpu answers max_hw_events ts st (record u { sh = controlled }) valid2
      ∙ ap₂
          (λ cmd q.
            u.frames
            ++ motor_frame cmd
              ∷ (if answers (length u.frames)
                  then beep_frames (take max_hw_events (contents queue_capacity blank_event q))
                  else []))
          (commanded ts c reached cfg pass r live fresh) queue
