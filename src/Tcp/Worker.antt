-- ===== src/Tcp/Worker.antt =====
-- cpp_gateway/app/workers/tcp_worker.cpp, the loop of `TcpWorker::operator()`. What the sockets do in
-- a cycle is an argument: which clients connect, what each `try_recv` and each `send_all` returns.
use stm32_board.Base.{
  ℕ, zero, suc, ◌+◌, ◌%◌, ◌^◌, List, [], ◌∷◌, ◌++◌, Bool, none, some, ◌==◌, if◌then◌else◌,
}
use stm32_board.Core.{States, Timestamps, zero_motor_commands}
use stm32_board.Float.{Fpu}
use stm32_board.Wire.Payloads.{
  decode_cmd_payload, decode_setpoint_payload, decode_config_payload, encode_stats_payload,
  encode_states_payload,
}
use stm32_board.Wire.Messages.{
  MotorCmdPayload, ConfigPayload, stats_payload_size, states_payload_size,
}
use stm32_board.Framed.{
  Frame, FrameRx, make_hdr, hdr_bytes, msg_cmd, msg_setpoint, msg_config, msg_stats_req,
  msg_stats_resp, msg_state, push_bytes, pop, available_bytes,
}
use stm32_board.Mailbox.{store, load}
use stm32_board.Shared.{SharedState, zero_setpoint, bump_tcp_frames_bad}
use stm32_board.Tcp.{apply_config_payload, build_stats}

-- The shared state and the locals of the worker that live across frames. `sent` are the frames
-- handed to `send_all`, each with the client, in order.
pub record TcpState : Type 0 where
  pub sh : SharedState
  pub cmd_frx : FrameRx
  pub last_sp_seq : ℕ
  pub state_seq : ℕ
  pub stats_seq : ℕ
  pub sent : List (ℕ × List ℕ)

abbrev pub blank_cmd : MotorCmdPayload
blank_cmd = record { seq = 0; motors = zero_motor_commands }

abbrev pub blank_config : ConfigPayload
blank_config = record { seq = 0; key = 0; u8 = 0; u16 = 0; u32 = 0 }

-- `uint8_t frame[n]`: its bytes before they are written.
abbrev pub blank_bytes : ℕ → List ℕ
blank_bytes zero = []
blank_bytes (suc n) = 0 ∷ blank_bytes n

-- The two stores of a motor command.
unfoldable pub accept_cmd : SharedState → ℕ → MotorCmdPayload → SharedState
accept_cmd sh now_mono p = record sh {
  last_cmd_rx_mono_s = now_mono;
  latest_remote_motor_cmd = store sh.latest_remote_motor_cmd p.motors;
}

unfoldable pub handle_cmd : SharedState → ℕ → List ℕ → SharedState
handle_cmd sh now_mono payload =
    let (ok, p) = decode_cmd_payload payload blank_cmd in
    if ok then accept_cmd sh now_mono p else bump_tcp_frames_bad sh

unfoldable pub handle_setpoint : TcpState → ℕ → List ℕ → TcpState
handle_setpoint s now_mono payload =
    let (ok, p) = decode_setpoint_payload payload zero_setpoint in
    if ok
    then record s {
      sh = record s.sh {
        last_cmd_rx_mono_s = now_mono;
        latest_setpoint_cmd = store s.sh.latest_setpoint_cmd p;
      };
      last_sp_seq = p.seq;
    }
    else record s { sh = bump_tcp_frames_bad s.sh }

-- `try_recv` of a client: the connection is closed or fails, or it gives bytes (or none yet).
pub data Recv : Type 0 where
  closed : Recv
  got : List ℕ → Recv

module _ (fpu : Fpu) where
  unfoldable pub handle_config : SharedState → Timestamps → List ℕ → SharedState
  handle_config sh now payload =
      let (ok, p) = decode_config_payload payload blank_config in
      if ok then apply_config_payload fpu sh now p else bump_tcp_frames_bad sh

  -- The bytes of the answer to a request for statistics.
  unfoldable pub stats_frame : SharedState → ℕ → ℕ → List ℕ
  stats_frame sh now_mono seq =
      hdr_bytes (make_hdr msg_stats_resp stats_payload_size)
      ++ (encode_stats_payload (blank_bytes stats_payload_size) (build_stats fpu sh now_mono seq)).1

  unfoldable pub handle_stats_req : TcpState → ℕ → ℕ → TcpState
  handle_stats_req s client now_mono =
      let seq = (s.stats_seq + 1) % 2 ^ 32 in
      record s { stats_seq = seq; sent = s.sent ++ (client, stats_frame s.sh now_mono seq) ∷ [] }

  -- The body of the loop over the frames of client `client`; `now` stands for what the clock says while
  -- the frame is handled.
  unfoldable pub handle_frame : TcpState → ℕ → Timestamps → Frame → TcpState
  handle_frame s client now f =
      if f.type_ == msg_cmd
      then record s { sh = handle_cmd s.sh now.mono_s f.payload }
      else if f.type_ == msg_setpoint
      then handle_setpoint s now.mono_s f.payload
      else if f.type_ == msg_config
      then record s { sh = handle_config s.sh now f.payload }
      else if f.type_ == msg_stats_req
      then handle_stats_req s client now.mono_s
      else record s { sh = bump_tcp_frames_bad s.sh }

  -- `while (cmd_frx.pop(type, payload)) { ... }`, with fuel; `clock` tells the time of each round.
  unfoldable pub handle_frames : ℕ → (ℕ → Timestamps) → TcpState → ℕ → TcpState
  handle_frames zero clock s client = s
  handle_frames (suc fuel) clock s client =
      let (r, rx) = pop s.cmd_frx in
      elim r [
        | none ↦ record s { cmd_frx = rx }
        | some f ↦
            handle_frames fuel clock
              (handle_frame (record s { cmd_frx = rx }) client (clock fuel) f) client
      ]

  -- `for (size_t i = 0; i < cmd_clients.size();)`: the clients that stay, and the new state.
  unfoldable pub receive_clients : (ℕ → Timestamps) → TcpState → List (ℕ × Recv) → List ℕ × TcpState
  receive_clients clock s [] = ([], s)
  receive_clients clock s ((client, closed) ∷ more) = receive_clients clock s more
  receive_clients clock s ((client, got bytes) ∷ more) =
      let rx = push_bytes s.cmd_frx bytes in
      let s' = handle_frames (suc (available_bytes rx)) clock (record s { cmd_frx = rx }) client in
      let (stay, s'') = receive_clients clock s' more in (client ∷ stay, s'')

-- The bytes of a STATE frame.
unfoldable pub state_frame : ℕ → ℕ → States → List ℕ
state_frame seq t_mono_s st =
    hdr_bytes (make_hdr msg_state states_payload_size)
    ++ (encode_states_payload (blank_bytes states_payload_size) seq t_mono_s st).1

-- A state client, and whether its socket is open and `send_all` succeeds.
unfoldable pub send_clients : List ℕ → List (ℕ × Bool × Bool) → List ℕ × List (ℕ × List ℕ)
send_clients frame [] = ([], [])
send_clients frame ((client, is_open, accepts) ∷ more) =
    let (stay, sent) = send_clients frame more in
    if is_open
    then (if accepts then (client ∷ stay, (client, frame) ∷ sent) else (stay, sent))
    else (stay, sent)

-- `t_mono_s` is the clock's reading as a float.
unfoldable pub publish_state : TcpState → ℕ → List (ℕ × Bool × Bool) → List ℕ × TcpState
publish_state s t_mono_s clients = elim (load s.sh.latest_state) [
  | none ↦ (all clients, s)
  | some st ↦
      let seq = (s.state_seq + 1) % 2 ^ 32 in
      let (stay, sent) = send_clients (state_frame seq t_mono_s st) clients in
      (stay, record s { state_seq = seq; sent = s.sent ++ sent })
]
  where
    all : List (ℕ × Bool × Bool) → List ℕ
    all [] = []
    all ((client, _, _) ∷ more) = client ∷ all more
