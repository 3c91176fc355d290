-- ===== src/Framed/Session.antt =====
-- A stream of frames through the receive loop, however it is cut into pieces.
use stm32_board.Base.{
  ℕ, zero, suc, ◌+◌, ◌≤◌, ◌<◌, ◌≡◌, inl, inr, refl, sym, ap, ◌∙◌, List, [], ◌∷◌, ◌++◌, none, some,
  arith, length, append_assoc, append-nil, All, length-append,
}
use stm32_board.Framed.{
  FrameRx, Frame, fresh, max_buffer_bytes, push_bytes, pop, pop_all, receive, receive_all,
  available_bytes,
}
use stm32_board.Framed.Stream.{unread, scan, pop-scan, available_bytes-length, push_bytes-fits}
use stm32_board.Framed.Invariant.{IsValid, pop-IsValid, push_bytes-IsValid}
use stm32_board.Framed.RoundTrip.{
  frame_bytes, stream, IsFrame, scan-frame_bytes, scan-partial, length-frame_bytes, cut,
}

-- The loop on the list of unread bytes.
unfoldable pub scan_all : ℕ → List ℕ → List Frame × List ℕ
scan_all zero bytes = ([], bytes)
scan_all (suc fuel) bytes =
    let (r, rest) = scan bytes in
    elim r [ none ↦ ([], rest) | some f ↦ let (fs, left) = scan_all fuel rest in (f ∷ fs, left) ]

pub pop_all-scan_all :
    (fuel : ℕ) (rx : FrameRx)
    → IsValid rx
    → let (fs, rx') = pop_all fuel rx in
      ((fs, unread rx') ≡ scan_all fuel (unread rx)) × IsValid rx'
unfolding pop_all scan_all
pop_all-scan_all zero rx v = (refl, v)
pop_all-scan_all (suc fuel) rx v =
    ground (arith, pop-scan rx v.in_buf, pop-IsValid rx v, pop_all-scan_all fuel (pop rx).1)

-- What the loop has done with a prefix `bytes` of a stream: it took the frames `taken` and left
-- `left`, the beginning of the rest of the stream.
record Taken (fs : List Frame) (bytes more : List ℕ) (out : List Frame × List ℕ) : Type 0 where
  todo : List Frame
  split : fs ≡ out.0 ++ todo
  legal : All IsFrame todo
  rest : out.1 ++ more ≡ stream todo
  waits : scan out.1 ≡ (none, out.1)
  short : length out.1 ≤ 257

frame_bytes-le : (f : Frame) → IsFrame f → length (frame_bytes f) ≤ 258
frame_bytes-le f v = omega (arith, length-frame_bytes f)

scan_all_wait :
    (fuel : ℕ) (bytes : List ℕ) → scan bytes ≡ (none, bytes) → scan_all fuel bytes ≡ ([], bytes)
unfolding scan_all
scan_all_wait zero bytes e = refl
scan_all_wait (suc fuel) bytes e = ground arith

scan_all_frame :
    (fuel : ℕ) (f : Frame) (rest : List ℕ)
    → IsFrame f
    → scan_all (suc fuel) (frame_bytes f ++ rest)
      ≡ (let (fs, left) = scan_all fuel rest in (f ∷ fs, left))
unfolding scan_all
scan_all_frame fuel f rest v = ground (arith, scan-frame_bytes f rest v)

scan_all-Taken :
    (fs : List Frame) (fuel : ℕ) (bytes more : List ℕ)
    → All IsFrame fs
    → bytes ++ more ≡ stream fs
    → length bytes < fuel
    → Taken fs bytes more (scan_all fuel bytes)
scan_all-Taken [] fuel [] more v e h = rw (scan_all_wait fuel [] scan_nil) (record {
  todo = [];
  split = refl;
  legal = tt;
  rest = e;
  waits = scan_nil;
  short = omega arith;
})
  where
    scan_nil : scan [] ≡ (none, [])
    scan_nil = unfold scan in refl
scan_all-Taken [] fuel (b ∷ bytes) more v e h = cc
scan_all-Taken (f ∷ fs) zero bytes more v e h = absurd (omega arith)
scan_all-Taken (f ∷ fs) (suc fuel) bytes more v e h =
    elim (cut bytes more (frame_bytes f) (stream fs) e) [
      | inl part ↦
          let stop = scan-partial f bytes more (stream fs) v.0 e part in
          rw (scan_all_wait (suc fuel) bytes stop) (record {
            todo = f ∷ fs;
            split = refl;
            legal = v;
            rest = e;
            waits = stop;
            short = omega (arith, frame_bytes-le f v.0);
          })
      | inr (ws, p, q) ↦
          let ih =
            scan_all-Taken fs fuel ws more v.1 q (
              omega (arith, ap length p, length-append (frame_bytes f) ws, length-frame_bytes f)) in
          rw (p, scan_all_frame fuel f ws v.0)
            (record {
              todo = ih.todo;
              split = ap (◌∷◌ f) ih.split;
              legal = ih.legal;
              rest = ih.rest;
              waits = ih.waits;
              short = ih.short;
            })
    ]

abbrev pub joined : List (List ℕ) → List ℕ
joined [] = []
joined (bytes ∷ more) = bytes ++ joined more

-- The state between two receives: the unread bytes are the beginning of a frame.
record Between (rx : FrameRx) : Type 0 where
  valid : IsValid rx
  waits : scan (unread rx) ≡ (none, unread rx)
  short : length (unread rx) ≤ 257

receive-scan_all :
    (rx : FrameRx) (bytes : List ℕ)
    → IsValid rx
    → length (unread rx) + length bytes ≤ max_buffer_bytes
    → let (fs, rx') = receive rx bytes in
      ((fs, unread rx') ≡ scan_all (suc (length (unread rx ++ bytes))) (unread rx ++ bytes))
      × IsValid rx'
unfolding receive
receive-scan_all rx bytes v fits =
    rw (← push_bytes-fits rx bytes v.in_buf fits, ← available_bytes-length (push_bytes rx bytes))
      (pop_all-scan_all (suc (available_bytes (push_bytes rx bytes))) (push_bytes rx bytes)
        (push_bytes-IsValid rx bytes v))

-- The frames that a receive returns begin the stream, and the rest of the stream is still to come.
receive-Taken :
    (rx : FrameRx) (bytes more : List ℕ) (fs : List Frame)
    → Between rx
    → length bytes ≤ 2048
    → All IsFrame fs
    → unread rx ++ (bytes ++ more) ≡ stream fs
    → let (gs, rx') = receive rx bytes in
      (hs : List Frame) × (fs ≡ gs ++ hs)
      × All IsFrame hs
      × (unread rx' ++ more ≡ stream hs)
      × Between rx'
receive-Taken rx bytes more fs b h legal e =
    let (same, valid) = receive-scan_all rx bytes b.valid (omega (arith, b.short)) in
    let t =
      scan_all-Taken fs (suc (length (unread rx ++ bytes))) (unread rx ++ bytes) more legal
        (append_assoc (unread rx) bytes more ∙ e) (omega arith) in
    let t' = rw (← same) at t in
    (
      t'.todo,
      t'.split,
      t'.legal,
      t'.rest,
      record { valid = valid; waits = t'.waits; short = t'.short },
    )

receive_all-stream :
    (chunks : List (List ℕ)) (rx : FrameRx) (fs : List Frame)
    → Between rx
    → All (λ bytes. length bytes ≤ 2048) chunks
    → All IsFrame fs
    → unread rx ++ joined chunks ≡ stream fs
    → let (gs, rx') = receive_all rx chunks in (gs ≡ fs) × (unread rx' ≡ []) × IsValid rx'
unfolding receive_all
receive_all-stream [] rx [] b h legal e = (refl, sym (append-nil _) ∙ e, b.valid)
receive_all-stream [] rx (f ∷ fs) b h legal e =
    cc (b.waits, ap scan (sym (append-nil (unread rx)) ∙ e), scan-frame_bytes f (stream fs) legal.0)
receive_all-stream (bytes ∷ chunks) rx fs b h legal e =
    let (hs, split, legal', rest, b') = receive-Taken rx bytes (joined chunks) fs b h.0 legal e in
    let (same, empty, valid) =
      receive_all-stream chunks (receive rx bytes).1 hs b' h.1 legal' rest in
    (ap (λ gs. (receive rx bytes).0 ++ gs) same ∙ sym split, empty, valid)

fresh-Between : Between fresh
unfolding scan
fresh-Between = record { valid = ground arith; waits = refl; short = omega arith }

-- A byte stream that carries frames is decoded into those frames, in order, whatever the pieces of
-- at most 2048 bytes in which it arrives; nothing is left in the buffer, and the bounds hold.
pub receive_all-frames :
    (fs : List Frame) (chunks : List (List ℕ))
    → All IsFrame fs
    → All (λ bytes. length bytes ≤ 2048) chunks
    → joined chunks ≡ stream fs
    → let (gs, rx') = receive_all fresh chunks in (gs ≡ fs) × (unread rx' ≡ []) × IsValid rx'
receive_all-frames fs chunks legal h e = receive_all-stream chunks fresh fs fresh-Between h legal e
