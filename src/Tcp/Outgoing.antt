-- ===== src/Tcp/Outgoing.antt =====
-- The frames that the TCP worker sends, as a client that runs `FrameRx` reads them.
use stm32_board.Base.{ℕ, ◌≤◌, ◌≡◌, refl, List, ◌++◌, true, some, length, arith}
use stm32_board.Core.{States, IsU32}
use stm32_board.Float.{Fpu}
use stm32_board.Wire.Payloads.{decode_stats_payload, encode_stats_payload, encode_states_payload}
use stm32_board.Wire.Messages.{StatsPayload, stats_payload_size, states_payload_size}
use stm32_board.Wire.{write_u32_le, write_f32_le}
use stm32_board.Wire.RoundTrip.{StatsInRange, decode_stats_payload-encode_stats_payload}
use stm32_board.Wire.Layouts.{encode_stats_payload_layout}
use stm32_board.Wire.Payloads.{stats_fields}
use stm32_board.Wire.StatesLayout.{StatesInRange, StatesAt, encode_states_payload-StatesAt}
use stm32_board.Framed.{Frame, make_hdr, hdr_bytes, is_known_type, msg_stats_resp, msg_state}
use stm32_board.Framed.Stream.{scan}
use stm32_board.Framed.RoundTrip.{frame_bytes, IsFrame, scan-frame_bytes}
use stm32_board.Shared.{SharedState}
use stm32_board.Tcp.{build_stats}
use stm32_board.Tcp.Worker.{stats_frame, state_frame, blank_bytes}

sized-IsFrame :
    (t : ℕ) (payload : List ℕ)
    → is_known_type t ≡ true
    → 1 ≤ length payload
    → length payload ≤ 255
    → IsFrame (record { type_ = t; payload = payload })
sized-IsFrame t payload known low high = ground arith

-- A header and a payload of the announced size are a frame on the wire, which a reader takes.
scan-sent :
    (t n : ℕ) (payload rest : List ℕ)
    → is_known_type t ≡ true
    → length payload ≡ n
    → 1 ≤ n
    → n ≤ 255
    → scan ((hdr_bytes (make_hdr t n) ++ payload) ++ rest)
      ≡ (some (record { type_ = t; payload = payload }), rest)
unfolding frame_bytes
scan-sent t n payload rest known e low high = rw (← e) (
    scan-frame_bytes (record { type_ = t; payload = payload }) rest
      (sized-IsFrame t payload known (omega arith) (omega arith)))

length-encode_stats_payload :
    (p : StatsPayload)
    → length (encode_stats_payload (blank_bytes stats_payload_size) p).1 ≡ stats_payload_size
unfolding stats_fields write_u32_le write_f32_le
length-encode_stats_payload p = rw (encode_stats_payload_layout (blank_bytes 48) p refl)

-- The answer to a request for statistics is one frame of type STATS_RESP, and its payload decodes to
-- the statistics, if their fields fit their types; the bytes behind it are left.
pub stats_frame-decode :
    (fpu : Fpu) (sh : SharedState) (now_mono seq : ℕ) (rest : List ℕ) (out : StatsPayload)
    → StatsInRange (build_stats fpu sh now_mono seq)
    → (f : Frame) × (scan (stats_frame fpu sh now_mono seq ++ rest) ≡ (some f, rest))
      × (f.type_ ≡ msg_stats_resp)
      × (decode_stats_payload f.payload out ≡ (true, build_stats fpu sh now_mono seq))
unfolding stats_frame is_known_type
stats_frame-decode fpu sh now_mono seq rest out r =
    let stats = build_stats fpu sh now_mono seq in
    let blank = blank_bytes stats_payload_size in
    let payload = (encode_stats_payload blank stats).1 in
    (
      record { type_ = msg_stats_resp; payload = payload },
      scan-sent msg_stats_resp 48 payload rest refl (length-encode_stats_payload stats)
          (omega arith) (omega arith),
      refl,
      decode_stats_payload-encode_stats_payload blank stats out refl r,
    )

-- A published state is one frame of type STATE, whose payload holds every field at its place in the
-- protocol's table, if the fields fit their types; the bytes behind it are left.
pub state_frame-StatesAt :
    (seq t_mono_s : ℕ) (st : States) (rest : List ℕ)
    → IsU32 seq
    → IsU32 t_mono_s
    → StatesInRange st
    → (f : Frame) × (scan (state_frame seq t_mono_s st ++ rest) ≡ (some f, rest))
      × (f.type_ ≡ msg_state)
      × StatesAt f.payload seq t_mono_s st
unfolding state_frame is_known_type
state_frame-StatesAt seq t_mono_s st rest hs ht r =
    let blank = blank_bytes states_payload_size in
    let payload = (encode_states_payload blank seq t_mono_s st).1 in
    let at = (encode_states_payload-StatesAt blank seq t_mono_s st refl hs ht r).1 in
    (
      record { type_ = msg_state; payload = payload },
      scan-sent msg_state 76 payload rest refl at.size (omega arith) (omega arith),
      refl,
      at,
    )
