-- ===== src/Tcp/Frames.antt =====
-- What the TCP worker does with a frame of each type and with a stream of frames.
use stm32_board.Base.{
  Option-cases, ℕ, zero, suc, ◌+◌, ◌%◌, ◌^◌, ◌≡◌, refl, ap, ◌∙◌, List, [], ◌∷◌, Bool, false, ◌&&◌,
  ◌||◌, ◌==◌, if◌then◌else◌, length, arith, inl, inr,
}
use stm32_board.Core.{Timestamps}
use stm32_board.Float.{Fpu}
use stm32_board.Wire.Payloads.{decode_cmd_payload, decode_setpoint_payload, decode_config_payload}
use stm32_board.Wire.Messages.{MotorCmdPayload, SetpointPayload, ConfigPayload}
use stm32_board.Framed.{
  Frame, FrameRx, pop, pop_all, msg_cmd, msg_setpoint, msg_config, msg_stats_req,
}
use stm32_board.Shared.{zero_setpoint, bump_tcp_frames_bad}
use stm32_board.Tcp.{apply_config_payload, emit_config_applied, publish_sys_event}
use stm32_board.Tcp.Worker.{
  TcpState, blank_cmd, blank_config, accept_cmd, handle_cmd, handle_setpoint, handle_config,
  handle_stats_req, handle_frame, handle_frames,
}

decode_cmd_payload_ok :
    (payload : List ℕ) (out : MotorCmdPayload)
    → (decode_cmd_payload payload out).0 ≡ (length payload == 12)
unfolding decode_cmd_payload
decode_cmd_payload_ok payload out = ground arith

decode_setpoint_payload_ok :
    (payload : List ℕ) (out : SetpointPayload)
    → (decode_setpoint_payload payload out).0 ≡ (length payload == 21)
unfolding decode_setpoint_payload
decode_setpoint_payload_ok payload out = ground arith

decode_config_payload_ok :
    (payload : List ℕ) (out : ConfigPayload)
    → (decode_config_payload payload out).0 ≡ (length payload == 12)
unfolding decode_config_payload
decode_config_payload_ok payload out = ground arith

-- The frames that the protocol counts as a sign of life of the operator.
abbrev pub is_command : Frame → Bool
is_command f =
    (f.type_ == msg_cmd && length f.payload == 12)
    || (f.type_ == msg_setpoint && length f.payload == 21)

-- The frames that the worker acts on.
abbrev pub is_accepted : Frame → Bool
is_accepted f =
    is_command f || ((f.type_ == msg_config && length f.payload == 12) || f.type_ == msg_stats_req)

module _ (fpu : Fpu) (s : TcpState) (client : ℕ) (now : Timestamps) (f : Frame) where
  -- Exactly a motor command or a setpoint of the right size feeds the watchdog, with the time of its
  -- arrival; no other frame, whatever its type and its payload, moves that time.
  pub handle_frame_watchdog :
      (handle_frame fpu s client now f).sh.last_cmd_rx_mono_s
      ≡ (if is_command f then now.mono_s else s.sh.last_cmd_rx_mono_s)
  unfolding handle_frame handle_cmd accept_cmd handle_setpoint handle_config apply_config_payload
      emit_config_applied publish_sys_event handle_stats_req bump_tcp_frames_bad
  handle_frame_watchdog = ground (
    arith,
    decode_cmd_payload_ok f.payload blank_cmd,
    decode_setpoint_payload_ok f.payload zero_setpoint,
    decode_config_payload_ok f.payload blank_config,
  )

  -- Exactly the frames that the worker does not act on are counted as bad, modulo 2 ^ 32.
  pub handle_frame_bad :
      (handle_frame fpu s client now f).sh.tcp_frames_bad
      ≡ (if is_accepted f then s.sh.tcp_frames_bad else (s.sh.tcp_frames_bad + 1) % 2 ^ 32)
  unfolding handle_frame handle_cmd accept_cmd handle_setpoint handle_config apply_config_payload
      emit_config_applied publish_sys_event handle_stats_req bump_tcp_frames_bad
  handle_frame_bad = ground (
    arith,
    decode_cmd_payload_ok f.payload blank_cmd,
    decode_setpoint_payload_ok f.payload zero_setpoint,
    decode_config_payload_ok f.payload blank_config,
  )

  -- A frame that the worker does not act on changes nothing but the counter of bad frames.
  pub handle_frame_reject :
      is_accepted f ≡ false
      → handle_frame fpu s client now f ≡ record s { sh = bump_tcp_frames_bad s.sh }
  unfolding handle_frame handle_cmd handle_setpoint handle_config
  handle_frame_reject h = ground (
    arith,
    decode_cmd_payload_ok f.payload blank_cmd,
    decode_setpoint_payload_ok f.payload zero_setpoint,
    decode_config_payload_ok f.payload blank_config,
  )

  -- The worker's own decoder does not take part.
  pub handle_frame-cmd_frx :
      (rx : FrameRx)
      → handle_frame fpu (record s { cmd_frx = rx }) client now f
        ≡ record (handle_frame fpu s client now f) { cmd_frx = rx }
  unfolding handle_frame handle_setpoint handle_stats_req
  handle_frame-cmd_frx rx = ground arith

module _ (fpu : Fpu) where
  -- The frames handled in turn, the decoder left aside; `clock` is read as in the loop.
  unfoldable pub deliver : ℕ → (ℕ → Timestamps) → TcpState → ℕ → List Frame → TcpState
  deliver fuel clock s client [] = s
  deliver zero clock s client (f ∷ fs) = s
  deliver (suc fuel) clock s client (f ∷ fs) =
      deliver fuel clock (handle_frame fpu s client (clock fuel) f) client fs

  pub deliver-cmd_frx :
      (fs : List Frame) (fuel : ℕ) (clock : ℕ → Timestamps) (s : TcpState) (client : ℕ)
      (rx : FrameRx)
      → deliver fuel clock (record s { cmd_frx = rx }) client fs
        ≡ record (deliver fuel clock s client fs) { cmd_frx = rx }
  unfolding deliver
  deliver-cmd_frx [] fuel clock s client rx = refl
  deliver-cmd_frx (f ∷ fs) zero clock s client rx = refl
  deliver-cmd_frx (f ∷ fs) (suc fuel) clock s client rx =
      rw (handle_frame-cmd_frx fpu s client (clock fuel) f rx)
        (deliver-cmd_frx fs fuel clock (handle_frame fpu s client (clock fuel) f) client rx)

  -- The loop handles the frames that `pop_all` collects.
  pub handle_frames-deliver :
      (fuel : ℕ) (clock : ℕ → Timestamps) (s : TcpState) (client : ℕ)
      → handle_frames fpu fuel clock s client ≡ (
          let (fs, rx) = pop_all fuel s.cmd_frx in
          record (deliver fuel clock s client fs) { cmd_frx = rx })
  unfolding handle_frames pop_all deliver
  handle_frames-deliver zero clock s client = refl
  handle_frames-deliver (suc fuel) clock s client = elim (Option-cases (pop s.cmd_frx).0) [
    | inl e ↦ rw (e, handle_frames, pop_all)
    | inr (f, e) ↦
        let rx = (pop s.cmd_frx).1 in
        let s' = handle_frame fpu s client (clock fuel) f in
        let (fs, rx') = pop_all fuel rx in
        rw (e, handle_frames, pop_all, handle_frame-cmd_frx fpu s client (clock fuel) f rx)
          (handle_frames-deliver fuel clock (record s' { cmd_frx = rx }) client
            ∙ ap (λ (t : TcpState). record t { cmd_frx = rx' })
                (deliver-cmd_frx fs fuel clock s' client rx))
  ]
