-- ===== src/Examples/Watching.antt =====
-- A client that gets two published states in two pieces and shows both of them.
use mathlib.Core.List.{Sublistᴰ}
use stm32_board.Base.{
  ℕ, ◌*◌, ◌≡◌, ◌≤◌, refl, All, List, [], ◌∷◌, map, Bool, true, length, take, drop, arith,
}
use stm32_board.Base.Int.{pos, negsuc}
use stm32_board.Core.{zero_states}
use stm32_board.Float.{f64_one}
use stm32_board.Framed.{fresh}
use stm32_board.Framed.Session.{joined}
use stm32_board.Transfer.{Ret, count, error, again}
use stm32_board.Client.Receiving.{receive_loop}
use stm32_board.Client.Watching.{
  Published, IsPublished, published_bytes, state_line, arrived, receive_loop-published,
}
use stm32_board.Examples.Data.{unit}

abbrev first : Published
first = record {
  seq = 1;
  t_mono_s = 0x3f80_0000;
  st = record zero_states {
    enc = record { e1 = pos 1000; e2 = negsuc 999; e3 = pos 7; e4 = negsuc 0 };
  };
}

abbrev second : Published
second = record { seq = 2; t_mono_s = 0x4000_0000; st = zero_states }

abbrev both : List Published
both = first ∷ second ∷ []

-- The second state begins in the first piece; the socket has nothing between the pieces.
abbrev pieces : List (Bool × (ℕ → ℕ) × Ret (List ℕ))
pieces =
    (true, (λ left. 5), count (take 100 (published_bytes both)))
    ∷ (true, (λ left. 6), error again)
    ∷ (true, (λ left. 7), count (drop 100 (published_bytes both)))
    ∷ []

-- A difference of readings that is always long.
abbrev seconds : ℕ → ℕ → ℕ
seconds now last = 2 * f64_one

pieces_short : All (λ bytes. length bytes ≤ 2048) (arrived pieces)
unfolding stm32_board.Transfer.try_recv stm32_board.Tcp.Worker.state_frame
    stm32_board.Framed.hdr_bytes stm32_board.Framed.make_hdr
    stm32_board.Wire.Payloads.encode_states_payload stm32_board.Wire.Payloads.encode_fields
    stm32_board.Wire.Payloads.write_fields stm32_board.Wire.Payloads.states_fields
    stm32_board.Wire.Payloads.write_at stm32_board.Wire.write_u32_le stm32_board.Wire.write_i32_le
    stm32_board.Wire.write_f32_le
pieces_short = (omega arith, (omega arith, (omega arith, tt)))

pieces_joined : joined (arrived pieces) ≡ published_bytes both
unfolding stm32_board.Transfer.try_recv stm32_board.Tcp.Worker.state_frame
    stm32_board.Framed.hdr_bytes stm32_board.Framed.make_hdr
    stm32_board.Wire.Payloads.encode_states_payload stm32_board.Wire.Payloads.encode_fields
    stm32_board.Wire.Payloads.write_fields stm32_board.Wire.Payloads.states_fields
    stm32_board.Wire.Payloads.write_at stm32_board.Wire.write_u32_le stm32_board.Wire.write_i32_le
    stm32_board.Wire.write_f32_le
pieces_joined = refl

both-IsPublished : All IsPublished both
both-IsPublished = (
  record { seq = omega arith; time = omega arith; state = ground arith },
  (record { seq = omega arith; time = omega arith; state = ground arith }, tt),
)

receive_loop-published_example :
    Sublistᴰ (receive_loop unit seconds f64_one pieces fresh 0) (map state_line both)
receive_loop-published_example =
    receive_loop-published unit seconds f64_one pieces 0 both both-IsPublished pieces_short
      pieces_joined

shows_both : receive_loop unit seconds f64_one pieces fresh 0 ≡ map state_line both
unfolding stm32_board.Transfer.try_recv stm32_board.Tcp.Worker.state_frame
    stm32_board.Framed.hdr_bytes stm32_board.Framed.make_hdr
    stm32_board.Wire.Payloads.encode_states_payload stm32_board.Wire.Payloads.encode_fields
    stm32_board.Wire.Payloads.write_fields stm32_board.Wire.Payloads.states_fields
    stm32_board.Wire.Payloads.write_at stm32_board.Wire.write_u32_le stm32_board.Wire.write_i32_le
    stm32_board.Wire.write_f32_le receive_loop stm32_board.Client.Receiving.receive_turn
    stm32_board.Client.Receiving.show_frames stm32_board.Client.Receiving.show_frame
    stm32_board.Client.Receiving.line stm32_board.Client.Receiving.shown stm32_board.Framed.receive
    stm32_board.Framed.pop_all stm32_board.Framed.pop stm32_board.Framed.pop_frame
    stm32_board.Framed.needs_payload stm32_board.Framed.advance stm32_board.Framed.push_bytes
    stm32_board.Framed.available_bytes stm32_board.Framed.clear stm32_board.Framed.maybe_compact
    stm32_board.Framed.hdr_at stm32_board.Framed.hdr_len stm32_board.Framed.is_known_type
    stm32_board.Wire.read_u32_le stm32_board.Wire.read_i32_le stm32_board.Wire.read_f32_le
shows_both = refl
