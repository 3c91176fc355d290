-- ===== src/Tcp/Attributed.antt =====
-- The one decoder of the TCP worker behind all its clients: `cmd_frx` in
-- cpp_gateway/app/workers/tcp_worker.cpp.
use stm32_board.Base.{
  ℕ, zero, suc, ◌≤◌, ◌≡◌, refl, ap, ap₂, ◌∙◌, List, [], ◌∷◌, ◌++◌, map, arith, length, All,
}
use stm32_board.Core.{Timestamps}
use stm32_board.Float.{Fpu}
use stm32_board.Framed.{
  Frame, FrameRx, fresh, pop, pop_all, receive, receive_all, push_bytes, available_bytes,
}
use stm32_board.Framed.Stream.{unread}
use stm32_board.Framed.RoundTrip.{stream, IsFrame}
use stm32_board.Framed.Session.{joined, receive_all-frames}
use stm32_board.Tcp.Worker.{
  TcpState, handle_frame, handle_frames, receive_clients, Recv, closed, got,
}
use stm32_board.Tcp.Frames.{handle_frame-cmd_frx, deliver-cmd_frx, handle_frames-deliver}
use stm32_board.Tcp.Incoming.{handle_all, deliver-handle_all}

-- The bytes that the clients' `try_recv` give, client by client, as one sequence of pieces.
abbrev pub pieces : List (ℕ × Recv) → List (List ℕ)
pieces [] = []
pieces ((client, closed) ∷ more) = pieces more
pieces ((client, got bytes) ∷ more) = bytes ∷ pieces more

-- The clients whose connection stays.
abbrev pub staying : List (ℕ × Recv) → List ℕ
staying [] = []
staying ((client, closed) ∷ more) = staying more
staying ((client, got bytes) ∷ more) = client ∷ staying more

-- Each frame with the client whose bytes complete it.
unfoldable pub attributed : FrameRx → List (ℕ × Recv) → List (ℕ × Frame) × FrameRx
attributed rx [] = ([], rx)
attributed rx ((client, closed) ∷ more) = attributed rx more
attributed rx ((client, got bytes) ∷ more) =
    let (fs, rx') = receive rx bytes in
    let (gs, rx'') = attributed rx' more in (map (λ f. (client, f)) fs ++ gs, rx'')

abbrev pub frames_of : List (ℕ × Frame) → List Frame
frames_of [] = []
frames_of ((client, f) ∷ more) = f ∷ frames_of more

abbrev pub handle_attributed : Fpu → TcpState → Timestamps → List (ℕ × Frame) → TcpState
handle_attributed fpu s now [] = s
handle_attributed fpu s now ((client, f) ∷ more) =
    handle_attributed fpu (handle_frame fpu s client now f) now more

length-pop_all : (fuel : ℕ) (rx : FrameRx) → length (pop_all fuel rx).0 ≤ fuel
unfolding pop_all
length-pop_all zero rx = omega arith
length-pop_all (suc fuel) rx = ground (arith, length-pop_all fuel (pop rx).1)

frames_of-append : (fs gs : List (ℕ × Frame)) → frames_of (fs ++ gs) ≡ frames_of fs ++ frames_of gs
frames_of-append [] gs = refl
frames_of-append ((client, f) ∷ fs) gs = ap (◌∷◌ f) (frames_of-append fs gs)

frames_of-map : (client : ℕ) (fs : List Frame) → frames_of (map (λ f. (client, f)) fs) ≡ fs
frames_of-map client [] = refl
frames_of-map client (f ∷ fs) = ap (◌∷◌ f) (frames_of-map client fs)

frames_of-attributed :
    (rx : FrameRx) (cs : List (ℕ × Recv))
    → (frames_of (attributed rx cs).0 ≡ (receive_all rx (pieces cs)).0)
      × ((attributed rx cs).1 ≡ (receive_all rx (pieces cs)).1)
unfolding attributed receive_all
frames_of-attributed rx [] = (refl, refl)
frames_of-attributed rx ((client, closed) ∷ more) = frames_of-attributed rx more
frames_of-attributed rx ((client, got bytes) ∷ more) =
    let fs = (receive rx bytes).0 in
    let rx' = (receive rx bytes).1 in
    let ih = frames_of-attributed rx' more in
    (
      frames_of-append (map (λ f. (client, f)) fs) (attributed rx' more).0
          ∙ ap₂ ◌++◌ (frames_of-map client fs) ih.0,
      ih.1,
    )

module _ (fpu : Fpu) (now : Timestamps) where
  handle_attributed-cmd_frx :
      (fs : List (ℕ × Frame)) (s : TcpState) (rx : FrameRx)
      → handle_attributed fpu (record s { cmd_frx = rx }) now fs
        ≡ record (handle_attributed fpu s now fs) { cmd_frx = rx }
  handle_attributed-cmd_frx [] s rx = refl
  handle_attributed-cmd_frx ((client, f) ∷ fs) s rx =
      rw (handle_frame-cmd_frx fpu s client now f rx)
        (handle_attributed-cmd_frx fs (handle_frame fpu s client now f) rx)

  handle_attributed-map :
      (client : ℕ) (fs : List Frame) (gs : List (ℕ × Frame)) (s : TcpState)
      → handle_attributed fpu s now (map (λ f. (client, f)) fs ++ gs)
        ≡ handle_attributed fpu (handle_all fpu s client now fs) now gs
  handle_attributed-map client [] gs s = refl
  handle_attributed-map client (f ∷ fs) gs s =
      handle_attributed-map client fs gs (handle_frame fpu s client now f)

  -- One client's bytes: the frames that the decoder makes of them are handled in order.
  pub handle_frames-receive :
      (s : TcpState) (client : ℕ) (bytes : List ℕ)
      → let rx = push_bytes s.cmd_frx bytes in
        handle_frames fpu (suc (available_bytes rx)) (λ _. now) (record s { cmd_frx = rx }) client
        ≡ record (handle_all fpu s client now (receive s.cmd_frx bytes).0) {
          cmd_frx = (receive s.cmd_frx bytes).1;
        }
  unfolding receive
  handle_frames-receive s client bytes =
      let rx = push_bytes s.cmd_frx bytes in
      let fuel = suc (available_bytes rx) in
      let fs = (pop_all fuel rx).0 in
      let left = (pop_all fuel rx).1 in
      handle_frames-deliver fpu fuel (λ _. now) (record s { cmd_frx = rx }) client
      ∙ ap (λ (t : TcpState). record t { cmd_frx = left })
          (deliver-cmd_frx fpu fs fuel (λ _. now) s client rx)
      ∙ ap (λ (t : TcpState). record t { cmd_frx = left })
          (deliver-handle_all fpu fs fuel now s client (length-pop_all fuel rx))

  receive_clients-attributed :
      (cs : List (ℕ × Recv)) (s : TcpState)
      → receive_clients fpu (λ _. now) s cs ≡ (
        staying cs,
        record (handle_attributed fpu s now (attributed s.cmd_frx cs).0) {
          cmd_frx = (attributed s.cmd_frx cs).1;
        },
      )
  unfolding receive_clients attributed
  receive_clients-attributed [] s = refl
  receive_clients-attributed ((client, closed) ∷ more) s = receive_clients-attributed more s
  receive_clients-attributed ((client, got bytes) ∷ more) s =
      let fs = (receive s.cmd_frx bytes).0 in
      let rx = (receive s.cmd_frx bytes).1 in
      let t = handle_all fpu s client now fs in
      rw (handle_frames-receive s client bytes) (
        rw (receive_clients-attributed more (record t { cmd_frx = rx })) (
          rw (
            handle_attributed-cmd_frx (attributed rx more).0 t rx,
            handle_attributed-map client fs (attributed rx more).0 s,
          )))

  -- Whatever the clients are, all their bytes of a cycle go through one decoder as one stream: if the
  -- bytes together, in the order of the clients, carry frames, if no piece is above 2048 bytes, if the
  -- decoder was empty and the clock stands still, then exactly these frames are handled, in order, each
  -- as the client's whose bytes complete it, even if another client sent its beginning.
  pub receive_clients-joined :
      (s : TcpState) (cs : List (ℕ × Recv)) (fs : List Frame)
      → All IsFrame fs
      → All (λ bytes. length bytes ≤ 2048) (pieces cs)
      → joined (pieces cs) ≡ stream fs
      → let (gs, rx) = attributed fresh cs in
        (frames_of gs ≡ fs)
        × (receive_clients fpu (λ _. now) (record s { cmd_frx = fresh }) cs
            ≡ (staying cs, record (handle_attributed fpu s now gs) { cmd_frx = rx }))
        × (unread rx ≡ [])
  receive_clients-joined s cs fs legal short e =
      let r = receive_all-frames fs (pieces cs) legal short e in
      let same = frames_of-attributed fresh cs in
      let gs = (attributed fresh cs).0 in
      (
        same.0 ∙ r.0,
        receive_clients-attributed cs (record s { cmd_frx = fresh })
            ∙ ap (λ (t : TcpState). (staying cs, record t { cmd_frx = (attributed fresh cs).1 }))
                (handle_attributed-cmd_frx gs s fresh),
        ap unread same.1 ∙ r.1,
      )
