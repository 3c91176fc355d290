-- ===== src/Examples/Framed.antt =====
-- Frames in pieces, and the decoder at its bounds.
use stm32_board.Base.{ℕ, ◌≡◌, refl, List, [], ◌∷◌, none, arith, All}
use stm32_board.Framed.{
  Frame, FrameRx, fresh, pop, receive_all, msg_cmd, msg_stats_req, is_known_type, needs_payload,
  hdr_bytes, make_hdr, pop_frame, hdr_at, hdr_len, available_bytes, advance, maybe_compact, clear,
}
use stm32_board.Framed.Stream.{unread, scan, pop-scan}
use stm32_board.Framed.Invariant.{IsValid}
use stm32_board.Framed.RoundTrip.{frame_bytes, IsFrame}
use stm32_board.Framed.Session.{receive_all-frames}

abbrev request : Frame
request = record { type_ = msg_stats_req; payload = [] }

abbrev command : Frame
command = record {
  type_ = msg_cmd;
  payload = 7 ∷ 0 ∷ 0 ∷ 0 ∷ 30 ∷ 0 ∷ 30 ∷ 0 ∷ 30 ∷ 0 ∷ 30 ∷ 0 ∷ [];
}

abbrev pieces : List (List ℕ)
pieces =
    (5 ∷ 1 ∷ [])
    ∷ (0 ∷ 2 ∷ 1 ∷ 12 ∷ 7 ∷ 0 ∷ 0 ∷ 0 ∷ 30 ∷ [])
    ∷ []
    ∷ (0 ∷ 30 ∷ 0 ∷ 30 ∷ 0 ∷ 30 ∷ 0 ∷ [])
    ∷ []

legal : All IsFrame (request ∷ command ∷ [])
unfolding is_known_type needs_payload
legal = ground arith

receive_all-frames_example :
    let (gs, rx) = receive_all fresh pieces in
    (gs ≡ request ∷ command ∷ []) × (unread rx ≡ []) × IsValid rx
unfolding frame_bytes hdr_bytes make_hdr
receive_all-frames_example =
    receive_all-frames (request ∷ command ∷ []) pieces legal (ground arith) refl

-- A stray byte before a request.
abbrev stray : FrameRx
stray = record { buf = 9 ∷ 5 ∷ 1 ∷ 0 ∷ []; read_pos = 0 }

pop-scan_example : let (r, rx) = pop stray in (r, unread rx) ≡ scan (9 ∷ 5 ∷ 1 ∷ 0 ∷ [])
pop-scan_example = pop-scan stray (omega arith)

pop-stray : pop stray ≡ (none, record { buf = 9 ∷ 5 ∷ 1 ∷ 0 ∷ []; read_pos = 1 })
unfolding pop pop_frame hdr_at hdr_len available_bytes advance maybe_compact clear is_known_type
    needs_payload
pop-stray = refl

stray-IsValid : IsValid stray
stray-IsValid = ground arith
