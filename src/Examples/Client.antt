-- ===== src/Examples/Client.antt =====
-- The command lines, and a client that sends two motor commands.
use Prim.Native.String.{String}
use stm32_board.Base.{ℕ, ◌≡◌, refl, List, [], ◌∷◌, append-nil, Bool, true, some, length, arith}
use stm32_board.Base.Int.{pos}
use stm32_board.Framed.{Frame, fresh, receive_all}
use stm32_board.Framed.RoundTrip.{stream}
use stm32_board.Transfer.{Ret, count, error, again}
use stm32_board.Config.{default_config}
use stm32_board.Numbers.{Numbers, starts_0x}
use stm32_board.Client.{default_client, motor_frame, sender, cmd_thread, send_frame}
use stm32_board.Client.Arguments.{
  parsed, refused, parse_config, parse_u8, parse_u16, parse_unsigned, within,
}
use stm32_board.Client.Sending.{Begins, numbered, sender-Begins}
use stm32_board.Client.Sent.{AllSent, cmd_thread-receive_all}
use stm32_board.System.Arguments.{parse_args}
use stm32_board.System.Arguments
use stm32_board.Examples.Data.{unit}

-- A library that reads every number as 300, or as 7 in hexadecimal.
abbrev lib : Numbers
lib = record {
  scan_hex = λ s. some 7;
  scan_dec = λ s. some 300;
  stoi = λ s. some (pos 300);
  stod = λ s. some 0;
  stof = λ s. some 0;
}

abbrev client_words : List String
client_words = "--cfg_key" ∷ "0x07" ∷ "--cfg_u16" ∷ "300" ∷ []

accepted_words :
    parse_config lib client_words ≡ parsed (record default_client { cfg_key = 7; cfg_u16 = 300 })
unfolding parse_config parse_u8 parse_u16 parse_unsigned within starts_0x
accepted_words = refl

-- A key that is no byte is refused.
wide_key : parse_config lib ("--cfg_key" ∷ "300" ∷ []) ≡ refused
unfolding parse_config parse_u8 parse_unsigned within starts_0x
wide_key = refl

abbrev gateway_words : List String
gateway_words = "--flag_event_mask" ∷ "0x07" ∷ "--cmd_port" ∷ "300" ∷ []

gateway_accepts :
    parse_args lib gateway_words
    ≡ stm32_board.System.Arguments.parsed
        (record default_config { flag_event_mask = 7; cmd_port = 300 })
unfolding parse_args stm32_board.System.Arguments.parse_hex_u8 starts_0x
gateway_accepts = refl

-- Two rounds; in the second, the socket blocks once and takes the frame in two pieces.
abbrev rounds : List (Bool × List (Bool × Ret ℕ))
rounds =
    (true, (true, count 15) ∷ [])
    ∷ (true, (true, count 5) ∷ (true, error again) ∷ (true, count 10) ∷ [])
    ∷ []

rounds-AllSent : AllSent (motor_frame default_client) rounds 0
unfolding send_frame stm32_board.Client.send_turns stm32_board.Transfer.try_send
    stm32_board.Client.frame_buffer stm32_board.Framed.hdr_bytes stm32_board.Framed.make_hdr
    motor_frame stm32_board.Client.motor_payload stm32_board.Wire.Payloads.encode_cmd_payload
    stm32_board.Wire.Payloads.encode_fields stm32_board.Wire.Payloads.write_fields
    stm32_board.Wire.Payloads.cmd_fields stm32_board.Wire.Payloads.write_at
    stm32_board.Wire.write_u32_le stm32_board.Wire.write_i16_le stm32_board.Wire.write_u16_le
rounds-AllSent = (refl, refl, (refl, refl, tt))

abbrev chunks : List (List ℕ)
chunks = cmd_thread unit default_client rounds ∷ []

chunk_size : length (cmd_thread unit default_client rounds) ≡ 30
unfolding send_frame stm32_board.Client.send_turns stm32_board.Transfer.try_send
    stm32_board.Client.frame_buffer stm32_board.Framed.hdr_bytes stm32_board.Framed.make_hdr
    motor_frame stm32_board.Client.motor_payload stm32_board.Wire.Payloads.encode_cmd_payload
    stm32_board.Wire.Payloads.encode_fields stm32_board.Wire.Payloads.write_fields
    stm32_board.Wire.Payloads.cmd_fields stm32_board.Wire.Payloads.write_at
    stm32_board.Wire.write_u32_le stm32_board.Wire.write_i16_le stm32_board.Wire.write_u16_le
    cmd_thread sender
chunk_size = refl

cmd_thread-receive_all_example :
    (receive_all fresh chunks).0 ≡ numbered (motor_frame default_client) 2 0
cmd_thread-receive_all_example =
    cmd_thread-receive_all unit default_client rounds chunks refl rounds-AllSent
      (omega (arith, chunk_size), tt) (append-nil (cmd_thread unit default_client rounds))

sender-Begins_example :
    Begins
      (stream (numbered (motor_frame default_client) 2 0))
      (sender (motor_frame default_client) rounds 0)
sender-Begins_example = sender-Begins (motor_frame default_client) rounds 0
