-- ===== src/Client/Watching.antt =====
-- What the client shows of the states that the gateway publishes.
use mathlib.Core.List.{Sublistᴰ}
use stm32_board.Base.{
  ℕ, ◌≤◌, ◌≡◌, refl, sym, ap, ap₂, ◌∙◌, List, [], ◌∷◌, ◌++◌, map, Bool, true, false, none, some,
  arith, length, All, inl, inr, Bool-cases, subst, ◌⊎◌,
}
use stm32_board.Core.{States, IsU32}
use stm32_board.Float.{Fpu}
use stm32_board.Framed.{
  Frame, FrameRx, fresh, receive, receive_all, msg_state, is_known_type, needs_payload,
}
use stm32_board.Framed.RoundTrip.{frame_bytes, stream, IsFrame}
use stm32_board.Framed.Session.{joined, receive_all-frames}
use stm32_board.Client.Receiving.{
  Shown, shown, show_frame, show_frames, line, receive_turn, receive_loop,
}
use stm32_board.Tcp.Worker.{state_frame, blank_bytes}
use stm32_board.Transfer.{Ret, try_recv}
use stm32_board.Wire.Payloads.{encode_states_payload}
use stm32_board.Wire.Messages.{states_payload_size}
use stm32_board.Wire.StatesLayout.{StatesAt, StatesInRange, encode_states_payload-StatesAt}

-- A state as the gateway publishes it: its number, its time and the state.
pub record Published : Type 0 where
  pub seq : ℕ
  pub t_mono_s : ℕ
  pub st : States

pub record IsPublished (p : Published) : Type 0 where
  pub seq : IsU32 p.seq
  pub time : IsU32 p.t_mono_s
  pub state : StatesInRange p.st

abbrev pub published_bytes : List Published → List ℕ
published_bytes [] = []
published_bytes (p ∷ ps) = state_frame p.seq p.t_mono_s p.st ++ published_bytes ps

-- The line for a state.
abbrev pub state_line : Published → Shown
state_line p = record {
  seq = p.seq;
  t_mono = p.t_mono_s;
  roll = p.st.ang.roll;
  pitch = p.st.ang.pitch;
  yaw = p.st.ang.yaw;
  enc1 = p.st.enc.e1;
  enc2 = p.st.enc.e2;
  enc3 = p.st.enc.e3;
  enc4 = p.st.enc.e4;
  batt = p.st.battery_voltage;
}

abbrev frame_of : Published → Frame
frame_of p = record {
  type_ = msg_state;
  payload = (encode_states_payload (blank_bytes states_payload_size) p.seq p.t_mono_s p.st).1;
}

layout : (p : Published) → IsPublished p → StatesAt (frame_of p).payload p.seq p.t_mono_s p.st
layout p h =
    (encode_states_payload-StatesAt (blank_bytes states_payload_size) p.seq p.t_mono_s p.st refl
      h.seq h.time h.state).1

shown-frame_of : (p : Published) → IsPublished p → shown (frame_of p).payload ≡ state_line p
unfolding shown
shown-frame_of p h =
    let at = layout p h in
    ground (
      arith, at.seq_at, at.t_mono_s_at, at.roll_at, at.pitch_at, at.yaw_at, at.enc1_at, at.enc2_at,
      at.enc3_at, at.enc4_at, at.battery_voltage_at,
    )

frame_bytes-frame_of :
    (p : Published) → IsPublished p → frame_bytes (frame_of p) ≡ state_frame p.seq p.t_mono_s p.st
unfolding frame_bytes state_frame
frame_bytes-frame_of p h = rw (layout p h).size refl

frame_of-IsFrame : (p : Published) → IsPublished p → IsFrame (frame_of p)
unfolding is_known_type needs_payload
frame_of-IsFrame p h =
    let size = (layout p h).size in
    record { known = refl; short = omega (arith, size); filled = ground (arith, size) }

frames_of : List Published → List Frame
frames_of [] = []
frames_of (p ∷ ps) = frame_of p ∷ frames_of ps

frames_of-IsFrame : (ps : List Published) → All IsPublished ps → All IsFrame (frames_of ps)
unfolding frames_of
frames_of-IsFrame [] h = tt
frames_of-IsFrame (p ∷ ps) (h, hs) = (frame_of-IsFrame p h, frames_of-IsFrame ps hs)

stream-frames_of :
    (ps : List Published) → All IsPublished ps → stream (frames_of ps) ≡ published_bytes ps
unfolding frames_of
stream-frames_of [] h = refl
stream-frames_of (p ∷ ps) (h, hs) = ap₂ ◌++◌ (frame_bytes-frame_of p h) (stream-frames_of ps hs)

-- The lines for all of some frames.
abbrev shown_of : List Frame → List Shown
shown_of [] = []
shown_of (f ∷ fs) = shown f.payload ∷ shown_of fs

shown_of-frames_of :
    (ps : List Published) → All IsPublished ps → shown_of (frames_of ps) ≡ map state_line ps
unfolding frames_of
shown_of-frames_of [] h = refl
shown_of-frames_of (p ∷ ps) (h, hs) = ap₂ ◌∷◌ (shown-frame_of p h) (shown_of-frames_of ps hs)

shown_of-append : (fs gs : List Frame) → shown_of (fs ++ gs) ≡ shown_of fs ++ shown_of gs
shown_of-append [] gs = refl
shown_of-append (f ∷ fs) gs = ap (◌∷◌ (shown f.payload)) (shown_of-append fs gs)

-- The bytes that come in the turns.
abbrev pub arrived : List (Bool × (ℕ → ℕ) × Ret (List ℕ)) → List (List ℕ)
arrived [] = []
arrived ((run, clock, ret) ∷ more) = (try_recv true ret).1 ∷ arrived more

none-Sublistᴰ : (xs : List Shown) → Sublistᴰ [] xs
none-Sublistᴰ [] = Sublistᴰ.slnil
none-Sublistᴰ (x ∷ xs) = Sublistᴰ.cons (none-Sublistᴰ xs)

append-Sublistᴰ :
    {xs ys us vs : List Shown} → Sublistᴰ xs ys → Sublistᴰ us vs → Sublistᴰ (xs ++ us) (ys ++ vs)
append-Sublistᴰ Sublistᴰ.slnil q = q
append-Sublistᴰ (Sublistᴰ.cons p) q = Sublistᴰ.cons (append-Sublistᴰ p q)
append-Sublistᴰ (Sublistᴰ.cons-cons e p) q = Sublistᴰ.cons-cons e (append-Sublistᴰ p q)

module _ (fpu : Fpu) (seconds : ℕ → ℕ → ℕ) (dt : ℕ) where
  -- A frame is shown as it came, or not at all.
  show_frame_cases :
      (now last : ℕ) (f : Frame)
      → let r = show_frame fpu seconds dt now last f in
        (r.1 ≡ none) ⊎ (r.1 ≡ some (shown f.payload))
  unfolding show_frame
  show_frame_cases now last f = ground arith

  show_frames-Sublistᴰ :
      (clock : ℕ → ℕ) (fs : List Frame) (last : ℕ)
      → Sublistᴰ (show_frames fpu seconds dt clock last fs).1 (shown_of fs)
  unfolding show_frames line
  show_frames-Sublistᴰ clock [] last = Sublistᴰ.slnil
  show_frames-Sublistᴰ clock (f ∷ fs) last =
      let r = show_frame fpu seconds dt (clock (length fs)) last f in
      let rest = show_frames-Sublistᴰ clock fs r.0 in
      elim (show_frame_cases (clock (length fs)) last f) [
        | inl e ↦ rw e (Sublistᴰ.cons rest)
        | inr e ↦ rw e (Sublistᴰ.cons-cons refl rest)
      ]

  receive_turn_cases :
      (clock : ℕ → ℕ) (ret : Ret (List ℕ)) (rx : FrameRx) (last : ℕ)
      → let r = receive rx (try_recv true ret).1 in
        let out = show_frames fpu seconds dt clock last r.0 in
        (receive_turn fpu seconds dt clock ret rx last ≡ none)
        ⊎ (receive_turn fpu seconds dt clock ret rx last ≡ some (r.1, out.0, out.1))
  unfolding receive_turn
  receive_turn_cases clock ret rx last = elim (Bool-cases (try_recv true ret).0) [
    | inl e ↦ inr (rw (e, receive_turn) refl)
    | inr e ↦ inl (rw (e, receive_turn) refl)
  ]

  receive_loop-Sublistᴰ :
      (turns : List (Bool × (ℕ → ℕ) × Ret (List ℕ))) (rx : FrameRx) (last : ℕ)
      → Sublistᴰ
          (receive_loop fpu seconds dt turns rx last)
          (shown_of (receive_all rx (arrived turns)).0)
  unfolding receive_loop receive_all
  receive_loop-Sublistᴰ [] rx last = Sublistᴰ.slnil
  receive_loop-Sublistᴰ ((false, clock, ret) ∷ turns) rx last = none-Sublistᴰ _
  receive_loop-Sublistᴰ ((true, clock, ret) ∷ turns) rx last =
      let bytes : List ℕ = (try_recv true ret).1 in
      let fs : List Frame = (receive rx bytes).0 in
      let rx' : FrameRx = (receive rx bytes).1 in
      let rest = receive_loop-Sublistᴰ turns rx' (show_frames fpu seconds dt clock last fs).0 in
      elim (receive_turn_cases clock ret rx last) [
        | inl e ↦ rw (e, receive_loop) (none-Sublistᴰ _)
        | inr e ↦
            rw (e, receive_loop, shown_of-append fs (receive_all rx' (arrived turns)).0)
              (append-Sublistᴰ (show_frames-Sublistᴰ clock fs last) rest)
      ]

  -- The client shows published states only: its lines are lines of the states that the gateway
  -- published, in their order and each at most once, with the values that were published, whatever the
  -- pieces of at most 2048 bytes in which they arrive, whatever the calls return between them, the
  -- clock says and the rate is. The values fit their types.
  pub receive_loop-published :
      (turns : List (Bool × (ℕ → ℕ) × Ret (List ℕ))) (last : ℕ) (ps : List Published)
      → All IsPublished ps
      → All (λ bytes. length bytes ≤ 2048) (arrived turns)
      → joined (arrived turns) ≡ published_bytes ps
      → Sublistᴰ (receive_loop fpu seconds dt turns fresh last) (map state_line ps)
  receive_loop-published turns last ps h short e =
      let same =
        (receive_all-frames (frames_of ps) (arrived turns) (frames_of-IsFrame ps h) short
          (e ∙ sym (stream-frames_of ps h))).0 in
      subst (Sublistᴰ (receive_loop fpu seconds dt turns fresh last))
        (ap shown_of same ∙ shown_of-frames_of ps h) (receive_loop-Sublistᴰ turns fresh last)
