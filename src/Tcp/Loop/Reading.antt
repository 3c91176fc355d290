-- ===== src/Tcp/Loop/Reading.antt =====
-- A whole cycle of the TCP worker reads its clients' frames.
use stm32_board.Base.{
  ℕ, ◌≤◌, ◌+◌, ◌%◌, ◌^◌, ◌++◌, ◌≡◌, refl, ap, ◌∙◌, List, [], ◌∷◌, map, Bool, true, false, none,
  some, arith, inl, inr, Bool-cases, Option-cases, if◌then◌else◌, length, ◌==◌, All,
}
use stm32_board.Core.{Timestamps}
use stm32_board.Float.{Fpu}
use stm32_board.Framed.{Frame, fresh, push_bytes}
use stm32_board.Framed.Stream.{unread}
use stm32_board.Framed.RoundTrip.{stream, IsFrame}
use stm32_board.Framed.Session.{joined}
use stm32_board.Mailbox.{load}
use stm32_board.Rate.{Chrono}
use stm32_board.Socket.{Ledger, Fd, close}
use stm32_board.Socket.Balance.{fds}
use stm32_board.Tcp.Attributed.{
  pieces, staying, attributed, frames_of, handle_attributed, receive_clients-joined,
}
use stm32_board.Tcp.Worker.{TcpState, receive_clients, Recv, closed, got, state_frame}
use stm32_board.Tcp.Loop.{
  TcpWorker, accept_block, take_bytes, receive_sockets, send_sockets, publish_sockets, Cycle,
  tcp_cycle,
}
use stm32_board.Transfer.{Ret, try_recv}

-- What `try_recv` means to the loop over the clients.
abbrev pub outcome : Bool × List ℕ → Recv
outcome (true, bytes) = got bytes
outcome (false, bytes) = closed

abbrev pub inputs : (ℕ → Ret (List ℕ)) → List ℕ → List (ℕ × Recv)
inputs recv [] = []
inputs recv (fd ∷ more) = (fd, outcome (try_recv true (recv fd))) ∷ inputs recv more

push_bytes-none :
    (s : TcpState) (bytes : List ℕ)
    → (if length bytes == 0 then s.cmd_frx else push_bytes s.cmd_frx bytes)
      ≡ push_bytes s.cmd_frx bytes
unfolding push_bytes
push_bytes-none s [] = refl
push_bytes-none s (b ∷ bytes) = ground arith

-- The loop over the sockets is the loop over the clients that have one.
receive_sockets-receive_clients :
    (fpu : Fpu) (clock : ℕ → Timestamps) (recv : ℕ → Ret (List ℕ)) (cs : List Fd) (s : TcpState)
    (l : Ledger)
    → let (stay, s', l') = receive_sockets fpu (λ _. clock) recv s l cs in
      let (ids, t) = receive_clients fpu clock s (inputs recv (fds cs)) in
      (stay ≡ map some ids) × (s' ≡ t)
unfolding receive_sockets receive_clients take_bytes
receive_sockets-receive_clients fpu clock recv [] s l = (refl, refl)
receive_sockets-receive_clients fpu clock recv (none ∷ more) s l =
    receive_sockets-receive_clients fpu clock recv more s l
receive_sockets-receive_clients fpu clock recv (some fd ∷ more) s l =
    let bytes = (try_recv true (recv fd)).1 in
    elim (Bool-cases (try_recv true (recv fd)).0) [
      | inr e ↦ rw e (receive_sockets-receive_clients fpu clock recv more s (close (some fd) l).1)
      | inl e ↦
          let ih =
            receive_sockets-receive_clients fpu clock recv more (take_bytes fpu clock s fd bytes)
              l in
          let ih' = rw (push_bytes-none s bytes) at ih in
          rw (e, push_bytes-none s bytes) (ap (◌∷◌ (some fd)) ih'.0, ih'.1)
    ]

-- The command clients of a cycle: those from before, and those that it accepts.
abbrev pub reading : TcpWorker → Cycle → List Fd
reading w c =
    let l = (accept_block w.state_srv c.state_temp c.state_calls w.state_clients w.ledger).1 in
    (accept_block w.cmd_srv c.cmd_temp c.cmd_calls w.cmd_clients l).0

-- The state clients of a cycle.
abbrev pub watching : TcpWorker → Cycle → List Fd
watching w c = (accept_block w.state_srv c.state_temp c.state_calls w.state_clients w.ledger).0

-- A frame to every client whose socket takes it.
abbrev pub to_states : (ℕ → Bool) → List ℕ → List Fd → List (ℕ × List ℕ)
to_states accepts frame [] = []
to_states accepts frame (none ∷ more) = to_states accepts frame more
to_states accepts frame (some fd ∷ more) =
    if accepts fd then (fd, frame) ∷ to_states accepts frame more else to_states accepts frame more

-- The newest state, if there is one, goes to the state clients in a frame with the next number.
abbrev pub published : (ℕ → Bool) → ℕ → List Fd → TcpState → TcpState
published accepts t_mono_s cs s = elim (load s.sh.latest_state) [
  | none ↦ s
  | some st ↦
      let seq = (s.state_seq + 1) % 2 ^ 32 in
      record s {
        state_seq = seq;
        sent = s.sent ++ to_states accepts (state_frame seq t_mono_s st) cs;
      }
]

send_sockets-to_states :
    (accepts : ℕ → Bool) (frame : List ℕ) (l : Ledger) (cs : List Fd)
    → (send_sockets accepts frame l cs).1 ≡ to_states accepts frame cs
unfolding send_sockets
send_sockets-to_states accepts frame l [] = refl
send_sockets-to_states accepts frame l (none ∷ more) = send_sockets-to_states accepts frame l more
send_sockets-to_states accepts frame l (some fd ∷ more) = elim (Bool-cases (accepts fd)) [
  | inl e ↦ rw e (ap (◌∷◌ (fd, frame)) (send_sockets-to_states accepts frame l more))
  | inr e ↦ rw e (send_sockets-to_states accepts frame (close (some fd) l).1 more)
]

publish_sockets-published :
    (accepts : ℕ → Bool) (t_mono_s : ℕ) (s : TcpState) (l : Ledger) (cs : List Fd)
    → (publish_sockets accepts t_mono_s s l cs).1 ≡ published accepts t_mono_s cs s
unfolding publish_sockets
publish_sockets-published accepts t_mono_s s l cs = elim (Option-cases (load s.sh.latest_state)) [
  | inl e ↦ rw (e, publish_sockets, published) refl
  | inr (st, e) ↦
      let seq = (s.state_seq + 1) % 2 ^ 32 in
      rw (e, publish_sockets, published)
        (ap (λ out. record s { state_seq = seq; sent = s.sent ++ out })
          (send_sockets-to_states accepts (state_frame seq t_mono_s st) l cs))
]

pub publish_sockets-sh :
    (accepts : ℕ → Bool) (t_mono_s : ℕ) (s : TcpState) (l : Ledger) (cs : List Fd)
    → let s' = (publish_sockets accepts t_mono_s s l cs).1 in
      (s'.sh ≡ s.sh) × (s'.cmd_frx ≡ s.cmd_frx)
unfolding publish_sockets
publish_sockets-sh accepts t_mono_s s l cs = elim (Option-cases (load s.sh.latest_state)) [
  | inl e ↦ rw (e, publish_sockets) (refl, refl)
  | inr (st, e) ↦ rw (e, publish_sockets) (refl, refl)
]

-- What all clients send in a cycle goes through one decoder as one stream. If their bytes together, in
-- the order of the clients, carry frames, none of a client is above 2048 bytes, the decoder was empty
-- and the clock stands still, then the cycle handles exactly these frames, in order, those of clients
-- that it has just accepted included, each as the client's whose bytes complete it, even if another
-- client sent its beginning: that client gets the answer to a request. All that the worker has sent and
-- all its variables are those of these frames, and then of publishing the newest state to the state
-- clients; no byte is left, and exactly the clients stay whose connection is open.
pub tcp_cycle-frames :
    (fpu : Fpu) (chrono : Chrono) (now : Timestamps) (c : Cycle) (w : TcpWorker) (fs : List Frame)
    → All IsFrame fs
    → All (λ bytes. length bytes ≤ 2048) (pieces (inputs c.recv (fds (reading w c))))
    → joined (pieces (inputs c.recv (fds (reading w c)))) ≡ stream fs
    → let cs = inputs c.recv (fds (reading w c)) in
      let (gs, rx) = attributed fresh cs in
      let w' =
        tcp_cycle fpu chrono
          (record c { clock = λ _ _. now })
          (record w { tcp = record w.tcp { cmd_frx = fresh } }) in
      (frames_of gs ≡ fs)
      × (w'.tcp
          ≡ published c.accepts c.t_mono_s
              (watching w c)
              (record (handle_attributed fpu w.tcp now gs) { cmd_frx = rx }))
      × (w'.cmd_clients ≡ map some (staying cs))
      × (unread rx ≡ [])
unfolding tcp_cycle
tcp_cycle-frames fpu chrono now c w fs legal short e =
    let s = record w.tcp { cmd_frx = fresh } in
    let cs = inputs c.recv (fds (reading w c)) in
    let (states, l1) =
      accept_block w.state_srv c.state_temp c.state_calls w.state_clients w.ledger in
    let (cmds, l2) = accept_block w.cmd_srv c.cmd_temp c.cmd_calls w.cmd_clients l1 in
    let (cmds', s1, l3) = receive_sockets fpu (λ _ _. now) c.recv s l2 cmds in
    let read = receive_sockets-receive_clients fpu (λ _. now) c.recv cmds s l2 in
    let (same, all, empty) = receive_clients-joined fpu now w.tcp cs fs legal short e in
    (
      same,
      publish_sockets-published c.accepts c.t_mono_s s1 l3 states
          ∙ ap (published c.accepts c.t_mono_s states)
              (read.1 ∙ ap (λ (p : List ℕ × TcpState). p.1) all),
      read.0 ∙ ap (λ (p : List ℕ × TcpState). map some p.0) all,
      empty,
    )
