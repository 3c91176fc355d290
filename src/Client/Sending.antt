-- ===== src/Client/Sending.antt =====
-- What a sender thread of the client puts on the wire, whatever the calls return.
use stm32_board.Base.{
  ℕ, zero, suc, ◌+◌, ◌%◌, ◌^◌, ◌≤◌, ◌<◌, ◌≡◌, refl, sym, ap, ap₂, ◌∙◌, List, [], ◌∷◌, ◌++◌, Bool,
  true, false, ◌&&◌, ltb, leb, ◌==◌, Bool-cases, inl, inr, if◌then◌else◌, Option, none, some,
  length, take, drop, length-drop, append-nil, append_assoc, arith,
}
use stm32_board.Framed.{Frame, hdr_bytes, make_hdr}
use stm32_board.Framed.RoundTrip.{frame_bytes, stream}
use stm32_board.Transfer.{Ret, count, error, intr, again, other, try_send}
use stm32_board.Transfer.Prefix.{Moved, is_empty, append-Moved}
use stm32_board.Client.{frame_buffer, send_turns, send_frame, sender}

is_empty-take : (n : ℕ) (bytes : List ℕ) → length bytes ≤ n → bytes ≡ take n bytes ++ []
is_empty-take zero [] h = refl
is_empty-take zero (b ∷ bytes) h = absurd (omega arith)
is_empty-take (suc n) [] h = refl
is_empty-take (suc n) (b ∷ bytes) h = ap (◌∷◌ b) (is_empty-take n bytes (omega arith))

unsent : (bytes : List ℕ) → 0 < length bytes → Moved bytes (some false, [])
unsent [] h = absurd (omega arith)
unsent (b ∷ bytes) h = (b ∷ bytes, refl, refl)

-- A turn in which the socket takes `sent` bytes, before the turns that come to `out`.
takes-Moved :
    (sent : ℕ) (bytes : List ℕ) (out : Option Bool × List ℕ)
    → 0 < length bytes
    → (0 < length (drop sent bytes) → Moved (drop sent bytes) out)
    → Moved bytes (
        if ltb 0 sent && leb (length bytes) sent
        then (some true, take sent bytes)
        else (out.0, take sent bytes ++ out.1))
takes-Moved sent bytes out h more = elim (Bool-cases (leb (length bytes) sent)) [
  | inl e ↦ rw (e, some_sent (ground arith)) ([], is_empty-take sent bytes (ground arith), refl)
  | inr e ↦
      rw (e, and_false (ltb 0 sent))
        (append-Moved sent bytes out (more (ground (arith, length-drop sent bytes))))
]
  where
    some_sent : length bytes ≤ sent → ltb 0 sent ≡ true
    some_sent le = ground arith

    and_false : (b : Bool) → (b && false) ≡ false
    and_false true = refl
    and_false false = refl

-- The results of `try_send` on an open socket.
send_turns-Moved :
    (it : ℕ) (turns : List (Bool × Ret ℕ)) (bytes : List ℕ)
    → 0 < length bytes
    → Moved bytes (send_turns it turns bytes)
unfolding send_turns try_send
send_turns-Moved zero turns bytes h = unsent bytes h
send_turns-Moved (suc it) [] bytes h = (bytes, refl, waits bytes h)
  where
    waits : (bytes : List ℕ) → 0 < length bytes → false ≡ is_empty bytes
    waits [] h = absurd (omega arith)
    waits (b ∷ bytes) h = refl
send_turns-Moved (suc it) ((false, ret) ∷ turns) bytes h = unsent bytes h
send_turns-Moved (suc it) ((true, count n) ∷ turns) bytes h = elim (Bool-cases (n == 0)) [
  | inl e ↦ rw e (unsent bytes h)
  | inr e ↦ rw e (
      takes-Moved n bytes (send_turns it turns (drop n bytes)) h
        (send_turns-Moved it turns (drop n bytes)))
]
send_turns-Moved (suc it) ((true, error intr) ∷ turns) bytes h =
    takes-Moved 0 bytes (send_turns it turns bytes) h (send_turns-Moved it turns bytes)
send_turns-Moved (suc it) ((true, error again) ∷ turns) bytes h =
    takes-Moved 0 bytes (send_turns it turns bytes) h (send_turns-Moved it turns bytes)
send_turns-Moved (suc it) ((true, error other) ∷ turns) bytes h = unsent bytes h

-- `send_frame` sends the beginning of the frame, and returns true exactly if that is all of it,
-- whatever the calls return and whenever the client is stopped.
pub send_frame-Moved :
    (turns : List (Bool × Ret ℕ)) (f : Frame)
    → Moved (frame_bytes f) (send_frame turns f.type_ f.payload)
unfolding send_frame frame_buffer frame_bytes hdr_bytes make_hdr
send_frame-Moved turns f = send_turns-Moved 200 turns (frame_bytes f) (omega arith)

-- The frames of `n` rounds of a sender thread from the count `seq` on.
unfoldable pub numbered : (ℕ → Frame) → ℕ → ℕ → List Frame
numbered frame zero seq = []
numbered frame (suc n) seq = let seq' = (seq + 1) % 2 ^ 32 in frame seq' ∷ numbered frame n seq'

-- `xs` begins with `ys`.
abbrev pub Begins : List ℕ → List ℕ → Type 0
Begins xs ys = (rest : List ℕ) × (xs ≡ ys ++ rest)

pub nothing_left : (rest : List ℕ) → true ≡ is_empty rest → rest ≡ []
nothing_left [] e = refl
nothing_left (b ∷ rest) e = ground (arith, e)

-- What one frame adds to what the thread sends, before the frames of the next rounds.
one_frame :
    (f : Frame) (out : Option Bool × List ℕ) (later : List Frame) (more : List ℕ)
    → Moved (frame_bytes f) out
    → Begins (stream later) more
    → Begins (stream (f ∷ later)) (elim out.0 [ some true ↦ out.1 ++ more | _ ↦ out.1 ])
one_frame f (none, sent) later more (rest, split, ok) b = (
  rest ++ stream later,
  ap (λ t. t ++ stream later) split ∙ append_assoc sent rest (stream later),
)
one_frame f (some false, sent) later more (rest, split, ok) b = (
  rest ++ stream later,
  ap (λ t. t ++ stream later) split ∙ append_assoc sent rest (stream later),
)
one_frame f (some true, sent) later more (rest, split, ok) (rest', b) = (
  rest',
  ap₂ (◌++◌) (split ∙ ap (λ r. sent ++ r) (nothing_left rest ok) ∙ append-nil sent) b
      ∙ sym (append_assoc sent more rest'),
)

-- What a sender thread puts on the wire is the beginning of the stream of its frames, however it ends.
pub sender-Begins :
    (frame : ℕ → Frame) (rounds : List (Bool × List (Bool × Ret ℕ))) (seq : ℕ)
    → Begins (stream (numbered frame (length rounds) seq)) (sender frame rounds seq)
unfolding sender numbered
sender-Begins frame [] seq = ([], refl)
sender-Begins frame ((false, turns) ∷ rounds) seq =
    (stream (numbered frame (suc (length rounds)) seq), refl)
sender-Begins frame ((true, turns) ∷ rounds) seq =
    let seq' = (seq + 1) % 2 ^ 32 in
    let f = frame seq' in
    one_frame f (send_frame turns f.type_ f.payload) (numbered frame (length rounds) seq')
      (sender frame rounds seq') (send_frame-Moved turns f) (sender-Begins frame rounds seq')
