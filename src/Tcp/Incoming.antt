-- ===== src/Tcp/Incoming.antt =====
-- From the bytes that a client sends to the shared state.
use stm32_board.Base.{
  ℕ, zero, suc, ◌≤◌, ◌≡◌, refl, sym, ap, ◌∙◌, List, [], ◌∷◌, length, length-append, arith,
  append-nil, All,
}
use stm32_board.Core.{Timestamps}
use stm32_board.Float.{Fpu}
use stm32_board.Wire.Payloads.{encode_cmd_payload}
use stm32_board.Wire.Messages.{MotorCmdPayload}
use stm32_board.Wire.RoundTrip.{CmdInRange, decode_cmd_payload-encode_cmd_payload}
use stm32_board.Framed.{
  Frame, FrameRx, fresh, receive, receive_all, push_bytes, available_bytes, msg_cmd,
}
use stm32_board.Framed.Stream.{unread, push_bytes-fits, available_bytes-length}
use stm32_board.Framed.RoundTrip.{stream, IsFrame, frame_bytes, length-frame_bytes}
use stm32_board.Framed.Session.{receive_all-frames}
use stm32_board.Mailbox.{load_or_default, store}
use stm32_board.Tcp.Worker.{
  TcpState, handle_frame, receive_clients, got, blank_bytes, blank_cmd, handle_cmd, accept_cmd,
}
use stm32_board.Tcp.Frames.{deliver, deliver-cmd_frx, handle_frames-deliver}

-- The frames handled one after the other at one time.
abbrev pub handle_all : Fpu → TcpState → ℕ → Timestamps → List Frame → TcpState
handle_all fpu s client now [] = s
handle_all fpu s client now (f ∷ fs) =
    handle_all fpu (handle_frame fpu s client now f) client now fs

pub deliver-handle_all :
    (fpu : Fpu) (fs : List Frame) (fuel : ℕ) (now : Timestamps) (s : TcpState) (client : ℕ)
    → length fs ≤ fuel
    → deliver fpu fuel (λ _. now) s client fs ≡ handle_all fpu s client now fs
unfolding deliver
deliver-handle_all fpu [] fuel now s client h = refl
deliver-handle_all fpu (f ∷ fs) zero now s client h = absurd (omega arith)
deliver-handle_all fpu (f ∷ fs) (suc fuel) now s client h =
    deliver-handle_all fpu fs fuel now (handle_frame fpu s client now f) client (omega arith)

length-stream : (fs : List Frame) → length fs ≤ length (stream fs)
length-stream [] = omega arith
length-stream (f ∷ fs) =
    omega (arith, length-append (frame_bytes f) (stream fs), length-frame_bytes f, length-stream fs)

available-fresh :
    (fs : List Frame)
    → length (stream fs) ≤ 2048
    → length fs ≤ suc (available_bytes (push_bytes fresh (stream fs)))
available-fresh fs h = omega (
  arith,
  available_bytes-length (push_bytes fresh (stream fs)),
  ap length (push_bytes-fits fresh (stream fs) (omega arith) (omega arith)),
  length-stream fs,
)

received :
    (fs : List Frame)
    → All IsFrame fs
    → length (stream fs) ≤ 2048
    → ((receive fresh (stream fs)).0 ≡ fs) × (unread (receive fresh (stream fs)).1 ≡ [])
unfolding receive_all
received fs legal h =
    let r = receive_all-frames fs (stream fs ∷ []) legal (h, tt) (append-nil (stream fs)) in
    (sym (append-nil (receive fresh (stream fs)).0) ∙ r.0, r.1)

-- A client that sends whole frames in one piece of at most 2048 bytes, to a worker whose decoder is
-- empty and whose clock stands still meanwhile: the frames are handled in order and all of them, the
-- client stays, and no byte is left over.
pub receive_clients-stream :
    (fpu : Fpu) (now : Timestamps) (s : TcpState) (client : ℕ) (fs : List Frame)
    → All IsFrame fs
    → length (stream fs) ≤ 2048
    → (rx : FrameRx) × (receive_clients fpu
          (λ _. now)
          (record s { cmd_frx = fresh })
          ((client, got (stream fs)) ∷ [])
        ≡ (client ∷ [], record (handle_all fpu s client now fs) { cmd_frx = rx }))
      × (unread rx ≡ [])
unfolding receive_clients receive
receive_clients-stream fpu now s client fs legal short =
    let rx = push_bytes fresh (stream fs) in
    let fuel = suc (available_bytes rx) in
    let r = received fs legal short in
    let left = (receive fresh (stream fs)).1 in
    (
      left,
      ap (λ (t : TcpState). (client ∷ [], t))
          (handle_frames-deliver fpu fuel (λ _. now) (record s { cmd_frx = rx }) client
            ∙ ap (λ (t : TcpState). record t { cmd_frx = left })
                (deliver-cmd_frx fpu (receive fresh (stream fs)).0 fuel (λ _. now) s client rx)
            ∙ ap (λ gs. record (deliver fpu fuel (λ _. now) s client gs) { cmd_frx = left }) r.0
            ∙ ap (λ (t : TcpState). record t { cmd_frx = left })
                (deliver-handle_all fpu fs fuel now s client (available-fresh fs short))),
      r.1,
    )

-- The frame that a client sends for a motor command.
abbrev pub cmd_frame : MotorCmdPayload → Frame
cmd_frame p = record { type_ = msg_cmd; payload = (encode_cmd_payload (blank_bytes 12) p).1 }

-- A motor command that a client encodes and sends reaches the mailbox as it was, and feeds the
-- watchdog with the time of its arrival.
pub handle_frame-cmd_frame :
    (fpu : Fpu) (s : TcpState) (client : ℕ) (now : Timestamps) (p : MotorCmdPayload)
    → CmdInRange p
    → let sh' = (handle_frame fpu s client now (cmd_frame p)).sh in
      (load_or_default sh'.latest_remote_motor_cmd ≡ p.motors)
      × (sh'.last_cmd_rx_mono_s ≡ now.mono_s)
unfolding handle_frame handle_cmd accept_cmd load_or_default store
handle_frame-cmd_frame fpu s client now p r =
    rw (decode_cmd_payload-encode_cmd_payload (blank_bytes 12) p blank_cmd refl r) (refl, refl)
