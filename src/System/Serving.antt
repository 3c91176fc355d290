-- ===== src/System/Serving.antt =====
-- The TCP worker does not stop the system, whatever clients send.
use stm32_board.Base.{
  true, ℕ, zero, suc, ◌-◌, ◌≡◌, refl, sym, subst, List, [], ◌∷◌, none, some, arith, ◌==◌,
  Bool-cases, Option-cases, inl, inr, if◌then◌else◌,
}
use stm32_board.Core.{Timestamps}
use stm32_board.Float.{Fpu}
use stm32_board.Config.{config_applied, blank_event}
use stm32_board.Wire.Payloads.{decode_config_payload}
use stm32_board.Ring.Refine.{contents, push_overwrite_refines, push_overwrite-IsValid}
use stm32_board.Framed.{Frame, msg_cmd, msg_setpoint, msg_config, msg_stats_req}
use stm32_board.Shared.{SharedState, queue_capacity, bump_tcp_frames_bad}
use stm32_board.Tcp.{
  configure, current_config, apply_config_payload, emit_config_applied, publish_sys_event,
}
use stm32_board.Tcp.Worker.{
  blank_config, TcpState, handle_frames, handle_frame, handle_cmd, accept_cmd, handle_setpoint,
  handle_config, handle_stats_req,
}
use stm32_board.Framed.{pop}
use stm32_board.Tcp.Loop.{TcpWorker, Cycle, accept_block, take_bytes, receive_sockets, tcp_cycle}
use stm32_board.Tcp.Loop.Reading.{publish_sockets-sh}
use stm32_board.Rate.{Chrono}
use stm32_board.Socket.{Ledger, Fd, close}
use stm32_board.Transfer.{Ret, try_recv}
use stm32_board.System.Armed.{NoRise, Armed, NoRise-push, control_part, Armed-same}

module _ (fpu : Fpu) where
  emit_config_applied-Armed :
      (sh : SharedState) (now : Timestamps) (seq key : ℕ)
      → Armed sh
      → Armed (emit_config_applied sh now seq key)
  unfolding emit_config_applied publish_sys_event
  emit_config_applied-Armed sh now seq key h =
      let ev = record blank_event { type_ = config_applied; seq = seq; data0 = key } in
      record {
        armed = h.armed;
        no_rise =
            subst NoRise
              (sym (push_overwrite_refines queue_capacity blank_event sh.sys_event_q ev h.valid).0)
              (NoRise-push (queue_capacity - 1) (contents queue_capacity blank_event sh.sys_event_q)
                ev h.no_rise refl);
        valid = push_overwrite-IsValid queue_capacity blank_event sh.sys_event_q ev h.valid;
      }

  handle_cmd-part :
      (sh : SharedState) (now_mono : ℕ) (payload : List ℕ)
      → control_part (handle_cmd sh now_mono payload) ≡ control_part sh
  unfolding handle_cmd accept_cmd bump_tcp_frames_bad
  handle_cmd-part sh now_mono payload = ground arith

  handle_setpoint-part :
      (s : TcpState) (now_mono : ℕ) (payload : List ℕ)
      → control_part (handle_setpoint s now_mono payload).sh ≡ control_part s.sh
  unfolding handle_setpoint bump_tcp_frames_bad
  handle_setpoint-part s now_mono payload = ground arith

  handle_config-Armed :
      (sh : SharedState) (now : Timestamps) (payload : List ℕ)
      → Armed sh
      → Armed (handle_config fpu sh now payload)
  unfolding handle_config apply_config_payload bump_tcp_frames_bad
  handle_config-Armed sh now payload h =
      elim (Bool-cases (decode_config_payload payload blank_config).0) [
        | inl e ↦
            let p = (decode_config_payload payload blank_config).1 in
            let sh' = record sh { cfg = some (configure fpu (current_config fpu sh) p) } in
            rw (handle_config, e)
              (emit_config_applied-Armed sh' now p.seq p.key (Armed-same sh sh' refl h))
        | inr e ↦ rw (handle_config, e) (Armed-same sh _ refl h)
      ]

  other_part :
      (s : TcpState) (client : ℕ) (now : Timestamps) (f : Frame)
      → Armed s.sh
      → Armed
          (if f.type_ == msg_stats_req
            then handle_stats_req fpu s client now.mono_s
            else record s { sh = bump_tcp_frames_bad s.sh }).sh
  unfolding handle_stats_req bump_tcp_frames_bad
  other_part s client now f h = elim (Bool-cases (f.type_ == msg_stats_req)) [
    | inl e ↦ rw e h
    | inr e ↦ rw e (Armed-same s.sh _ refl h)
  ]

  pub handle_frame-Armed :
      (s : TcpState) (client : ℕ) (now : Timestamps) (f : Frame)
      → Armed s.sh
      → Armed (handle_frame fpu s client now f).sh
  unfolding handle_frame
  handle_frame-Armed s client now f h = elim (Bool-cases (f.type_ == msg_cmd)) [
    | inl e ↦ rw (handle_frame, e) (Armed-same s.sh _ (handle_cmd-part s.sh now.mono_s f.payload) h)
    | inr e ↦ elim (Bool-cases (f.type_ == msg_setpoint)) [
      | inl e' ↦
          rw (handle_frame, e, e')
            (Armed-same s.sh _ (handle_setpoint-part s now.mono_s f.payload) h)
      | inr e' ↦ elim (Bool-cases (f.type_ == msg_config)) [
        | inl k ↦ rw (handle_frame, e, e', k) (handle_config-Armed s.sh now f.payload h)
        | inr k ↦ rw (handle_frame, e, e', k) (other_part s client now f h)
      ]
    ]
  ]

  handle_frames-Armed :
      (fuel : ℕ) (clock : ℕ → Timestamps) (s : TcpState) (client : ℕ)
      → Armed s.sh
      → Armed (handle_frames fpu fuel clock s client).sh
  unfolding handle_frames
  handle_frames-Armed zero clock s client h = h
  handle_frames-Armed (suc fuel) clock s client h = elim (Option-cases (pop s.cmd_frx).0) [
    | inl e ↦ rw (e, handle_frames) h
    | inr (f, e) ↦
        let s' = record s { cmd_frx = (pop s.cmd_frx).1 } in
        rw (e, handle_frames)
          (handle_frames-Armed fuel clock (handle_frame fpu s' client (clock fuel) f) client
            (handle_frame-Armed s' client (clock fuel) f h))
  ]

  receive_sockets-Armed :
      (clock : ℕ → ℕ → Timestamps) (recv : ℕ → Ret (List ℕ)) (cs : List Fd) (s : TcpState)
      (l : Ledger)
      → Armed s.sh
      → Armed (receive_sockets fpu clock recv s l cs).1.sh
  unfolding receive_sockets take_bytes
  receive_sockets-Armed clock recv [] s l h = h
  receive_sockets-Armed clock recv (none ∷ more) s l h = receive_sockets-Armed clock recv more s l h
  receive_sockets-Armed clock recv (some fd ∷ more) s l h =
      let bytes = (try_recv true (recv fd)).1 in
      elim (Bool-cases (try_recv true (recv fd)).0) [
        | inr e ↦ rw e (receive_sockets-Armed clock recv more s (close (some fd) l).1 h)
        | inl e ↦ rw e (
            receive_sockets-Armed clock recv more (take_bytes fpu (clock fd) s fd bytes) l
              (handle_frames-Armed _ (clock fd) _ fd h))
      ]

  pub tcp_cycle-Armed :
      (chrono : Chrono) (c : Cycle) (w : TcpWorker)
      → Armed w.tcp.sh
      → Armed (tcp_cycle fpu chrono c w).tcp.sh
  unfolding tcp_cycle
  tcp_cycle-Armed chrono c w h =
      let (states, l1) =
        accept_block w.state_srv c.state_temp c.state_calls w.state_clients w.ledger in
      let (cmds, l2) = accept_block w.cmd_srv c.cmd_temp c.cmd_calls w.cmd_clients l1 in
      let (cmds', s1, l3) = receive_sockets fpu c.clock c.recv w.tcp l2 cmds in
      subst Armed (sym (publish_sockets-sh c.accepts c.t_mono_s s1 l3 states).0)
        (receive_sockets-Armed c.clock c.recv cmds w.tcp l2 h)
