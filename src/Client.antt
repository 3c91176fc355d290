-- ===== src/Client.antt =====
-- cpp_gateway/app/tcp_client.cpp: the command line client. Its log lines are left out, not what the
-- state line shows. The number parsers of the library are a parameter.
pub mod Arguments
pub mod Receiving
pub mod Sending
pub mod Sent
pub mod Main
pub mod Watching
use Prim.Native.String.{String}
use stm32_board.Base.{
  ℕ, zero, suc, ◌+◌, ◌%◌, ◌^◌, List, [], ◌∷◌, ◌++◌, Bool, true, false, not, ◌&&◌, ◌==◌, leb, ltb,
  if◌then◌else◌, Option, none, some, length, take, drop, get_or, bit_and,
}
use stm32_board.Base.Int.{ℤ, pos, to_unsigned, to_signed}
use stm32_board.Core.{MotorCommands}
use stm32_board.Float.{Fpu, f64_zero, f64_one}
use stm32_board.Wire.{read_u32_le, read_i32_le, read_f32_le}
use stm32_board.Wire.Payloads.{encode_cmd_payload, encode_setpoint_payload, encode_config_payload}
use stm32_board.Wire.Messages.{MotorCmdPayload, SetpointPayload, ConfigPayload, states_payload_size}
use stm32_board.Framed.{
  FrameRx, Frame, msg_state, msg_cmd, msg_setpoint, msg_config, make_hdr, hdr_bytes, receive,
}
use stm32_board.Transfer.{Ret, try_send, try_recv}

-- 10.0 and 50.0
abbrev f64_ten : ℕ
f64_ten = 0x4024_0000_0000_0000

abbrev f64_fifty : ℕ
f64_fifty = 0x4049_0000_0000_0000

-- `Config`
pub record ClientConfig : Type 0 where
  pub server_ip : String
  pub state_port : ℕ
  pub cmd_port : ℕ
  pub print_hz : ℕ
  pub cmd_hz : ℕ
  pub m1 : ℤ
  pub m2 : ℤ
  pub m3 : ℤ
  pub m4 : ℤ
  pub beep_ms : ℤ
  pub flags : ℕ
  pub setpoint_hz : ℕ
  pub sp0 : ℕ
  pub sp1 : ℕ
  pub sp2 : ℕ
  pub sp3 : ℕ
  pub sp_flags : ℕ
  pub send_config : Bool
  pub cfg_key : ℕ
  pub cfg_u8 : ℕ
  pub cfg_u16 : ℕ
  pub cfg_u32 : ℕ

abbrev pub default_client : ClientConfig
default_client = record {
  server_ip = "127.0.0.1";
  state_port = 30001;
  cmd_port = 30002;
  print_hz = f64_ten;
  cmd_hz = f64_fifty;
  m1 = pos 0;
  m2 = pos 0;
  m3 = pos 0;
  m4 = pos 0;
  beep_ms = pos 0;
  flags = 0;
  setpoint_hz = f64_zero;
  sp0 = 0;
  sp1 = 0;
  sp2 = 0;
  sp3 = 0;
  sp_flags = 0;
  send_config = false;
  cfg_key = 0;
  cfg_u8 = 0;
  cfg_u16 = 0;
  cfg_u32 = 0;
}

-- The buffer of `send_frame` up to `total`: a payload is at most 255 bytes.
unfoldable pub frame_buffer : ℕ → List ℕ → List ℕ
frame_buffer type_ payload = hdr_bytes (make_hdr type_ (length payload)) ++ payload

-- The loop of `send_frame` over at most `it` turns; in each, whether `g_run` is set and what the `send`
-- behind `try_send` returns. Nothing while it still waits, and the bytes that were sent.
unfoldable pub send_turns : ℕ → List (Bool × Ret ℕ) → List ℕ → Option Bool × List ℕ
send_turns zero turns data_ = (some false, [])
send_turns (suc it) [] data_ = (none, [])
send_turns (suc it) ((g_run, ret) ∷ turns) data_ =
    let (ok, sent) = try_send true ret in
    let (done, more) = send_turns it turns (drop sent data_) in
    if not g_run
    then (some false, [])
    else if not ok
    then (some false, [])
    else if ltb 0 sent && leb (length data_) sent
    then (some true, take sent data_)
    else (done, take sent data_ ++ more)

abbrev pub max_iters : ℕ
max_iters = 200

unfoldable pub send_frame : List (Bool × Ret ℕ) → ℕ → List ℕ → Option Bool × List ℕ
send_frame turns type_ payload = send_turns max_iters turns (frame_buffer type_ payload)

abbrev pub blank : ℕ → List ℕ
blank zero = []
blank (suc n) = 0 ∷ blank n

-- The frame of the one-shot configuration message.
unfoldable pub config_payload : ClientConfig → ConfigPayload
config_payload c = record {
  seq = 1;
  key = c.cfg_key;
  u8 = c.cfg_u8;
  u16 = c.cfg_u16;
  u32 = c.cfg_u32;
}

unfoldable pub config_frame : ClientConfig → Option Frame
config_frame c =
    if c.send_config
    then some (record {
      type_ = msg_config;
      payload = (encode_config_payload (blank 12) (config_payload c)).1;
    })
    else none

-- `static_cast<int16_t>` of an int.
abbrev pub to_i16 : ℤ → ℤ
to_i16 v = to_signed 16 (to_unsigned 16 v)

-- The motor command number `seq`.
unfoldable pub motor_payload : ClientConfig → ℕ → MotorCmdPayload
motor_payload c seq = record {
  seq = seq;
  motors = record { m1 = to_i16 c.m1; m2 = to_i16 c.m2; m3 = to_i16 c.m3; m4 = to_i16 c.m4 };
}

unfoldable pub motor_frame : ClientConfig → ℕ → Frame
motor_frame c seq = record {
  type_ = msg_cmd;
  payload = (encode_cmd_payload (blank 12) (motor_payload c seq)).1;
}

-- `std::clamp(sp_flags & 0xFF, 0, 255)` changes nothing.
unfoldable pub setpoint_payload : ClientConfig → ℕ → SetpointPayload
setpoint_payload c seq = record {
  seq = seq;
  sp0 = c.sp0;
  sp1 = c.sp1;
  sp2 = c.sp2;
  sp3 = c.sp3;
  flags = c.sp_flags % 2 ^ 8;
}

unfoldable pub setpoint_frame : ClientConfig → ℕ → Frame
setpoint_frame c seq = record {
  type_ = msg_setpoint;
  payload = (encode_setpoint_payload (blank 21) (setpoint_payload c seq)).1;
}

-- A sender thread as a whole: the rounds up to a stop or a frame that is not sent. In each round,
-- whether `g_run` is set before it, and the turns of `send_frame`. The bytes that go out.
unfoldable pub sender : (ℕ → Frame) → List (Bool × List (Bool × Ret ℕ)) → ℕ → List ℕ
sender frame [] seq = []
sender frame ((g_run, turns) ∷ rounds) seq =
    let seq' = (seq + 1) % 2 ^ 32 in
    let f = frame seq' in
    let (ok, sent) = send_frame turns f.type_ f.payload in
    let rest = sender frame rounds seq' in
    if not g_run then [] else elim ok [ some true ↦ sent ++ rest | _ ↦ sent ]

unfoldable pub cmd_thread : Fpu → ClientConfig → List (Bool × List (Bool × Ret ℕ)) → List ℕ
cmd_thread fpu c rounds = if fpu.le c.cmd_hz f64_zero then [] else sender (motor_frame c) rounds 0

unfoldable pub setpoint_thread : Fpu → ClientConfig → List (Bool × List (Bool × Ret ℕ)) → List ℕ
setpoint_thread fpu c rounds =
    if fpu.le c.setpoint_hz f64_zero then [] else sender (setpoint_frame c) rounds 0
