-- ===== src/Client/Receiving.antt =====
-- cpp_gateway/app/tcp_client.cpp: the receive loop of the client, which shows the states.
use stm32_board.Base.{
  ℕ, List, [], ◌∷◌, ◌++◌, Bool, true, false, not, ◌==◌, if◌then◌else◌, Option, none, some, length,
  drop,
}
use stm32_board.Base.Int.{ℤ}
use stm32_board.Float.{Fpu, f64_zero, f64_one}
use stm32_board.Wire.{read_u32_le, read_i32_le, read_f32_le}
use stm32_board.Wire.Messages.{states_payload_size}
use stm32_board.Framed.{FrameRx, Frame, msg_state, receive}
use stm32_board.Transfer.{Ret, try_recv}
use stm32_board.Client.{ClientConfig}

-- What the state line shows.
pub record Shown : Type 0 where
  pub seq : ℕ
  pub t_mono : ℕ
  pub roll : ℕ
  pub pitch : ℕ
  pub yaw : ℕ
  pub enc1 : ℤ
  pub enc2 : ℤ
  pub enc3 : ℤ
  pub enc4 : ℤ
  pub batt : ℕ

unfoldable pub shown : List ℕ → Shown
shown payload = record {
  seq = read_u32_le payload;
  t_mono = read_f32_le (drop 4 payload);
  roll = read_f32_le (drop 44 payload);
  pitch = read_f32_le (drop 48 payload);
  yaw = read_f32_le (drop 52 payload);
  enc1 = read_i32_le (drop 56 payload);
  enc2 = read_i32_le (drop 60 payload);
  enc3 = read_i32_le (drop 64 payload);
  enc4 = read_i32_le (drop 68 payload);
  batt = read_f32_le (drop 72 payload);
}

unfoldable pub min_dt : Fpu → ClientConfig → ℕ
min_dt fpu c = if fpu.lt f64_zero c.print_hz then fpu.div f64_one c.print_hz else f64_zero

-- One frame: the time of the last line, and the line that is printed. `seconds` is the library's
-- difference of two readings of the clock as a double.
unfoldable pub show_frame : Fpu → (ℕ → ℕ → ℕ) → ℕ → ℕ → ℕ → Frame → ℕ × Option Shown
show_frame fpu seconds dt now last_print f =
    if not (f.type_ == msg_state)
    then (last_print, none)
    else if not (length f.payload == states_payload_size)
    then (last_print, none)
    else if fpu.le dt f64_zero
    then (last_print, none)
    else if fpu.lt (seconds now last_print) dt
    then (last_print, none)
    else (now, some (shown f.payload))

unfoldable pub line : Option Shown → List Shown
line none = []
line (some s) = s ∷ []

-- `while (frx.pop(type, payload))` over the frames; `clock` tells the time of each turn.
unfoldable pub show_frames : Fpu → (ℕ → ℕ → ℕ) → ℕ → (ℕ → ℕ) → ℕ → List Frame → ℕ × List Shown
unfolding line
show_frames fpu seconds dt clock last_print [] = (last_print, [])
show_frames fpu seconds dt clock last_print (f ∷ fs) =
    let (last, out) = show_frame fpu seconds dt (clock (length fs)) last_print f in
    let (last', outs) = show_frames fpu seconds dt clock last fs in (last', line out ++ outs)

-- One turn of the receive loop: it ends, or goes on with the lines that it printed.
unfoldable pub receive_turn :
    Fpu → (ℕ → ℕ → ℕ) → ℕ → (ℕ → ℕ) → Ret (List ℕ) → FrameRx → ℕ → Option (FrameRx × ℕ × List Shown)
receive_turn fpu seconds dt clock ret frx last_print =
    let (ok, bytes) = try_recv true ret in
    let (fs, frx') = receive frx bytes in
    let (last, lines) = show_frames fpu seconds dt clock last_print fs in
    if ok then some (frx', last, lines) else none

-- The receive loop over what the turns meet: whether `g_run` is set, the clock and the call's result.
unfoldable pub receive_loop :
    Fpu → (ℕ → ℕ → ℕ) → ℕ → List (Bool × (ℕ → ℕ) × Ret (List ℕ)) → FrameRx → ℕ → List Shown
receive_loop fpu seconds dt [] frx last_print = []
receive_loop fpu seconds dt ((false, clock, ret) ∷ turns) frx last_print = []
receive_loop fpu seconds dt ((true, clock, ret) ∷ turns) frx last_print =
    elim (receive_turn fpu seconds dt clock ret frx last_print) [
      | none ↦ []
      | some (frx', last, lines) ↦ lines ++ receive_loop fpu seconds dt turns frx' last
    ]
