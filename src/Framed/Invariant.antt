-- ===== src/Framed/Invariant.antt =====
-- The bounds of `FrameRx`: the cursor stays within the buffer, and the buffer stays bounded.
use stm32_board.Base.{
  ℕ, ◌+◌, ◌-◌, ◌/◌, ◌≤◌, ◌<◌, ◌⊎◌, List, arith, length, length-append, length-drop,
}
use stm32_board.Framed.{
  FrameRx, MsgHdr, max_buffer_bytes, compact_threshold, available_bytes, clear, maybe_compact,
  advance, push_bytes, pop_frame, pop, hdr_at,
}
use stm32_board.Framed.Stream.{unread, available_bytes-length}

pub record IsValid (rx : FrameRx) : Type 0 where
  pub in_buf : rx.read_pos ≤ length rx.buf
  pub capped : length rx.buf ≤ rx.read_pos + max_buffer_bytes
  pub compacted : (rx.read_pos < compact_threshold) ⊎ (rx.read_pos ≤ length rx.buf / 2)

pub advance-IsValid :
    (rx : FrameRx) (n : ℕ) → IsValid rx → rx.read_pos + n ≤ length rx.buf → IsValid (advance rx n)
unfolding advance maybe_compact clear
advance-IsValid rx n v h = ground (arith, length-drop (rx.read_pos + n) rx.buf)

-- Bytes of any number, more than the cap or fewer, keep the cursor within the buffer, the unread
-- bytes within the cap of 65536, and the read part small or at most half of the buffer.
pub push_bytes-IsValid :
    (rx : FrameRx) (bytes : List ℕ) → IsValid rx → IsValid (push_bytes rx bytes)
unfolding push_bytes
push_bytes-IsValid rx bytes v = ground (
  arith,
  available_bytes-length rx,
  length-drop rx.read_pos rx.buf,
  length-append rx.buf bytes,
  length-drop (length bytes - max_buffer_bytes) bytes,
)

pop_frame-IsValid :
    (rx : FrameRx) (h : MsgHdr) → IsValid rx → 3 ≤ available_bytes rx → IsValid (pop_frame rx h).1
unfolding pop_frame
pop_frame-IsValid rx h v enough = ground (
  arith,
  available_bytes-length rx,
  length-drop rx.read_pos rx.buf,
  advance-IsValid rx 1 v,
  advance-IsValid rx (3 + h.len) v,
)

-- A call of `pop` keeps the same bounds, whether it takes a frame, drops a byte or waits.
pub pop-IsValid : (rx : FrameRx) → IsValid rx → IsValid (pop rx).1
unfolding pop
pop-IsValid rx v = ground (arith, pop_frame-IsValid rx (hdr_at (unread rx)) v)

-- The memory bound.
pub length-buf-le : (rx : FrameRx) → IsValid rx → length rx.buf ≤ 131072
length-buf-le rx v = ground arith
