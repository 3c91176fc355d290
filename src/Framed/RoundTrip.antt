-- ===== src/Framed/RoundTrip.antt =====
-- Frames as bytes, and their way through `FrameRx`.
use stm32_board.Base.{
  ℕ, ◌+◌, ◌≤◌, ◌<◌, ◌≡◌, ◌⊎◌, inl, inr, refl, ap, List, [], ◌∷◌, ◌++◌, true, false, ◌&&◌, none,
  some, arith, length, drop, take-append, drop-append_self, length-append, ◌==◌,
}
use stm32_board.Framed.{Frame, max_payload, is_known_type, needs_payload, make_hdr, hdr_bytes}
use stm32_board.Framed.Stream.{is_header, scan}

-- What a sender puts on the wire: `make_hdr` and the payload.
unfoldable pub frame_bytes : Frame → List ℕ
frame_bytes f = hdr_bytes (make_hdr f.type_ (length f.payload)) ++ f.payload

abbrev pub stream : List Frame → List ℕ
stream [] = []
stream (f ∷ fs) = frame_bytes f ++ stream fs

-- A frame that the protocol allows.
pub record IsFrame (f : Frame) : Type 0 where
  pub known : is_known_type f.type_ ≡ true
  pub short : length f.payload ≤ max_payload
  pub filled : (length f.payload == 0 && needs_payload f.type_) ≡ false

pub is_header-IsFrame : (f : Frame) → IsFrame f → is_header f.type_ 1 (length f.payload) ≡ true
unfolding is_header
is_header-IsFrame f v = ground arith

-- A whole frame at the front is taken, and nothing else.
pub scan-frame_bytes :
    (f : Frame) (rest : List ℕ) → IsFrame f → scan (frame_bytes f ++ rest) ≡ (some f, rest)
unfolding scan frame_bytes hdr_bytes make_hdr
scan-frame_bytes f rest v = ground (
  arith,
  is_header-IsFrame f v,
  length-append f.payload rest,
  take-append f.payload rest,
  drop-append_self f.payload rest,
)

-- Part of a frame at the end is left for later.
pub scan-partial :
    (f : Frame) (bytes more rest : List ℕ)
    → IsFrame f
    → bytes ++ more ≡ frame_bytes f ++ rest
    → length bytes < length (frame_bytes f)
    → scan bytes ≡ (none, bytes)
unfolding scan frame_bytes hdr_bytes make_hdr
scan-partial f [] more rest v e h = refl
scan-partial f (t ∷ []) more rest v e h = refl
scan-partial f (t ∷ w ∷ []) more rest v e h = refl
scan-partial f (t ∷ w ∷ l ∷ bytes) more rest v e h = ground (arith, is_header-IsFrame f v)

pub length-frame_bytes : (f : Frame) → length (frame_bytes f) ≡ 3 + length f.payload
unfolding frame_bytes hdr_bytes make_hdr
length-frame_bytes f = omega arith

-- Two ways to cut one list: the first cut falls inside the second list's head, or behind it.
pub cut :
    (xs ys us vs : List ℕ)
    → xs ++ ys ≡ us ++ vs
    → (length xs < length us) ⊎ ((ws : List ℕ) × (xs ≡ us ++ ws) × (ws ++ ys ≡ vs))
cut xs ys [] vs e = inr (xs, refl, e)
cut [] ys (u ∷ us) vs e = inl (omega arith)
cut (x ∷ xs) ys (u ∷ us) vs e = elim (cut xs ys us vs (ap (drop 1) e)) [
  | inl h ↦ inl (omega arith)
  | inr (ws, p, q) ↦ inr (ws, cc (p, e), q)
]
