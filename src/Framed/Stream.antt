-- ===== src/Framed/Stream.antt =====
-- `FrameRx` seen as the list of its unread bytes: the cursor and the compaction are not visible.
use stm32_board.Base.{
  ℕ, ◌+◌, ◌≤◌, ◌≡◌, refl, sym, ap, ◌∙◌, List, [], ◌∷◌, ◌++◌, Bool, not, ◌&&◌, Option, none, some,
  arith, leb, ◌==◌, if◌then◌else◌, length, take, drop, drop-drop, drop-length, length-drop,
  drop-append, append-nil, Bool-cases, inl, inr, ==_iff,
}
use stm32_board.Framed.{
  FrameRx, Frame, msg_ver, max_payload, max_buffer_bytes, is_known_type, needs_payload,
  available_bytes, clear, maybe_compact, advance, push_bytes, pop_frame, pop, hdr_at,
}

abbrev pub unread : FrameRx → List ℕ
unread rx = drop rx.read_pos rx.buf

-- The cursor lies within the buffer.
abbrev pub InBuf : FrameRx → Type 0
InBuf rx = rx.read_pos ≤ length rx.buf

pub available_bytes-length : (rx : FrameRx) → available_bytes rx ≡ length (unread rx)
unfolding available_bytes
available_bytes-length rx = ground (arith, length-drop rx.read_pos rx.buf)

-- A header that starts a frame.
unfoldable pub is_header : ℕ → ℕ → ℕ → Bool
is_header t v l =
    (v == msg_ver && is_known_type t) && (leb l max_payload && not (l == 0 && needs_payload t))

-- One call of `pop`, on the unread bytes: a frame, a byte dropped, or a wait for more bytes.
unfoldable pub scan : List ℕ → Option Frame × List ℕ
scan [] = (none, [])
scan (t ∷ []) = (none, t ∷ [])
scan (t ∷ v ∷ []) = (none, t ∷ v ∷ [])
scan (t ∷ v ∷ l ∷ rest) =
    if is_header t v l
    then (if leb l (length rest)
        then (some (record { type_ = t; payload = take l rest }), drop l rest)
        else (none, t ∷ v ∷ l ∷ rest))
    else (none, v ∷ l ∷ rest)

pub unread-advance :
    (rx : FrameRx) (n : ℕ)
    → rx.read_pos + n ≤ length rx.buf
    → unread (advance rx n) ≡ drop n (unread rx)
unfolding advance maybe_compact clear
unread-advance rx n h = elim (Bool-cases (rx.read_pos + n == length rx.buf)) [
  | inl e ↦ rw e (
      sym (
        drop-drop n rx.read_pos rx.buf
        ∙ ap (λ k. drop k rx.buf) ((==_iff (rx.read_pos + n) (length rx.buf)).0 e)
        ∙ drop-length rx.buf))
  | inr e ↦ rw e (ground (arith, drop-drop n rx.read_pos rx.buf))
]

-- The header's three bytes are read from a buffer that has them.
module _ (rx : FrameRx) (t v l : ℕ) (rest : List ℕ) (h : InBuf rx)
    (e : unread rx ≡ t ∷ v ∷ l ∷ rest) where
  room : rx.read_pos + (3 + length rest) ≡ length rx.buf
  room = omega (arith, ap length e, length-drop rx.read_pos rx.buf)

  behind_header : drop (rx.read_pos + 3) rx.buf ≡ rest
  behind_header = sym (drop-drop 3 rx.read_pos rx.buf) ∙ ap (drop 3) e

  resync : unread (advance rx 1) ≡ v ∷ l ∷ rest
  resync = unread-advance rx 1 (omega (arith, room)) ∙ ap (drop 1) e

  consumed : l ≤ length rest → unread (advance rx (3 + l)) ≡ drop l rest
  consumed fits =
      unread-advance rx (3 + l) (omega (arith, room))
      ∙ ap (drop (3 + l)) e
      ∙ sym (drop-drop l 3 (t ∷ v ∷ l ∷ rest))

  available : available_bytes rx ≡ 3 + length rest
  available = omega (arith, available_bytes-length rx, ap length e)

  pop_frame-scan :
      let (r, rx') = pop_frame rx (record { type_ = t; ver = v; len = l }) in
      (r, unread rx') ≡ scan (t ∷ v ∷ l ∷ rest)
  unfolding pop_frame scan is_header
  pop_frame-scan = ground (arith, behind_header, resync, consumed, available)

  header : hdr_at (unread rx) ≡ record { type_ = t; ver = v; len = l }
  unfolding hdr_at
  header = ap hdr_at e

  pop-scan_long : let (r, rx') = pop rx in (r, unread rx') ≡ scan (t ∷ v ∷ l ∷ rest)
  unfolding pop
  pop-scan_long = ground (arith, available, header, pop_frame-scan)

pop-scan_at :
    (rx : FrameRx) (bytes : List ℕ)
    → InBuf rx
    → unread rx ≡ bytes
    → let (r, rx') = pop rx in (r, unread rx') ≡ scan bytes
unfolding pop scan
pop-scan_at rx [] h e = ground (arith, available_bytes-length rx)
pop-scan_at rx (t ∷ []) h e = ground (arith, available_bytes-length rx)
pop-scan_at rx (t ∷ v ∷ []) h e = ground (arith, available_bytes-length rx)
pop-scan_at rx (t ∷ v ∷ l ∷ rest) h e = pop-scan_long rx t v l rest h e

-- A call of `pop` returns what `scan` reads off the unread bytes, and leaves unread what it leaves.
pub pop-scan :
    (rx : FrameRx) → InBuf rx → let (r, rx') = pop rx in (r, unread rx') ≡ scan (unread rx)
pop-scan rx h = pop-scan_at rx (unread rx) h refl

-- Bytes that fit are appended to the unread ones.
pub push_bytes-fits :
    (rx : FrameRx) (bytes : List ℕ)
    → InBuf rx
    → length (unread rx) + length bytes ≤ max_buffer_bytes
    → unread (push_bytes rx bytes) ≡ unread rx ++ bytes
unfolding push_bytes
push_bytes-fits rx [] h fits = sym (append-nil (unread rx))
push_bytes-fits rx (b ∷ bytes) h fits =
    ground (arith, available_bytes-length rx, drop-append rx.read_pos rx.buf (b ∷ bytes))
