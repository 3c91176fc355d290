-- ===== src/Client/Sent.antt =====
-- What the client's frames are worth to the gateway, if they all go out.
use stm32_board.Base.{
  ℕ, zero, suc, ◌+◌, ◌%◌, ◌^◌, ◌≤◌, ◌≡◌, refl, sym, ap, ap₂, ◌∙◌, List, [], ◌∷◌, ◌++◌, All, Bool,
  true, false, Option, some, length, append-nil, arith,
}
use stm32_board.Base.Int.{ℤ, IsInt}
use stm32_board.Core.{IsU32}
use stm32_board.Wire.{write_u16_le, write_u32_le, write_i16_le}
use stm32_board.Wire.Payloads.{cmd_fields, decode_cmd_payload}
use stm32_board.Wire.Messages.{MotorCmdPayload}
use stm32_board.Wire.RoundTrip.{decode_cmd_payload-encode_cmd_payload}
use stm32_board.Wire.Layouts.{joined, encode_cmd_payload_layout}
use stm32_board.Framed.{Frame, fresh, receive_all, is_known_type, needs_payload}
use stm32_board.Framed.RoundTrip.{frame_bytes, stream, IsFrame}
use stm32_board.Framed.Session.{receive_all-frames}
use stm32_board.Transfer.{Ret}
use stm32_board.Transfer.Prefix.{Moved, succeeded}
use stm32_board.Float.{Fpu, f64_zero}
use stm32_board.Client.{
  ClientConfig, send_frame, to_i16, motor_payload, motor_frame, sender, cmd_thread, blank,
}
use stm32_board.Client.Sending.{send_frame-Moved, numbered, nothing_left}

-- Every round runs and sends its frame.
abbrev pub AllSent : (ℕ → Frame) → List (Bool × List (Bool × Ret ℕ)) → ℕ → Type 0
AllSent frame [] seq = Unit
AllSent frame ((g_run, turns) ∷ rounds) seq =
    let seq' = (seq + 1) % 2 ^ 32 in
    let f = frame seq' in
    (g_run ≡ true)
    × ((send_frame turns f.type_ f.payload).0 ≡ some true)
    × AllSent frame rounds seq'

whole :
    (f : Frame) (out : Option Bool × List ℕ)
    → Moved (frame_bytes f) out
    → out.0 ≡ some true
    → out.1 ≡ frame_bytes f
whole f out (rest, split, ok) e = sym (
    split ∙ ap (λ r. out.1 ++ r) (nothing_left rest (sym (ap succeeded e) ∙ ok)) ∙ append-nil out.1)

sender-AllSent :
    (frame : ℕ → Frame) (rounds : List (Bool × List (Bool × Ret ℕ))) (seq : ℕ)
    → AllSent frame rounds seq
    → sender frame rounds seq ≡ stream (numbered frame (length rounds) seq)
unfolding sender numbered
sender-AllSent frame [] seq h = refl
sender-AllSent frame ((g_run, turns) ∷ rounds) seq (run, ok, more) =
    let seq' = (seq + 1) % 2 ^ 32 in
    let f = frame seq' in
    rw (run, ok)
      (ap₂ (◌++◌) (whole f (send_frame turns f.type_ f.payload) (send_frame-Moved turns f) ok)
        (sender-AllSent frame rounds seq' more))

motor_frame-IsFrame : (c : ClientConfig) (seq : ℕ) → IsFrame (motor_frame c seq)
unfolding motor_frame cmd_fields write_u32_le write_i16_le write_u16_le is_known_type needs_payload
motor_frame-IsFrame c seq =
    rw (encode_cmd_payload_layout (blank 12) (motor_payload c seq) refl, motor_frame)
      (record { known = refl; short = omega arith; filled = refl })

numbered-IsFrame :
    (frame : ℕ → Frame)
    → ((seq : ℕ) → IsFrame (frame seq))
    → (n seq : ℕ) → All IsFrame (numbered frame n seq)
unfolding numbered
numbered-IsFrame frame h zero seq = tt
numbered-IsFrame frame h (suc n) seq =
    (h ((seq + 1) % 2 ^ 32), numbered-IsFrame frame h n ((seq + 1) % 2 ^ 32))

-- The commands of a client whose rate is positive and whose frames all go out reach the gateway's decoder as its numbered motor
-- frames, in order, whatever the pieces of at most 2048 bytes in which they arrive.
pub cmd_thread-receive_all :
    (fpu : Fpu) (c : ClientConfig) (rounds : List (Bool × List (Bool × Ret ℕ)))
    (chunks : List (List ℕ))
    → fpu.le c.cmd_hz f64_zero ≡ false
    → AllSent (motor_frame c) rounds 0
    → All (λ bytes. length bytes ≤ 2048) chunks
    → joined chunks ≡ cmd_thread fpu c rounds
    → (receive_all fresh chunks).0 ≡ numbered (motor_frame c) (length rounds) 0
unfolding cmd_thread
cmd_thread-receive_all fpu c rounds chunks on sent pieces e =
    (receive_all-frames (numbered (motor_frame c) (length rounds) 0) chunks
      (numbered-IsFrame (motor_frame c) (motor_frame-IsFrame c) (length rounds) 0) pieces
      (e ∙ runs on ∙ sender-AllSent (motor_frame c) rounds 0 sent)).0
  where
    runs :
        fpu.le c.cmd_hz f64_zero ≡ false → cmd_thread fpu c rounds ≡ sender (motor_frame c) rounds 0
    runs h = rw (h, cmd_thread) refl

to_i16-IsInt : (v : ℤ) → IsInt 16 (to_i16 v)
to_i16-IsInt v = ground arith

-- The gateway decodes a motor frame of the client to its number and the four values of the command
-- line, as 16-bit integers.
pub decode_cmd_payload-motor_frame :
    (c : ClientConfig) (seq : ℕ) (out : MotorCmdPayload)
    → IsU32 seq
    → decode_cmd_payload (motor_frame c seq).payload out ≡ (true, motor_payload c seq)
unfolding motor_frame motor_payload
decode_cmd_payload-motor_frame c seq out h =
    decode_cmd_payload-encode_cmd_payload (blank 12) (motor_payload c seq) out refl (record {
      seq = h;
      motors = record {
        m1 = to_i16-IsInt c.m1;
        m2 = to_i16-IsInt c.m2;
        m3 = to_i16-IsInt c.m3;
        m4 = to_i16-IsInt c.m4;
      };
    })
