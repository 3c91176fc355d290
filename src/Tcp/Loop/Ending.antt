-- ===== src/Tcp/Loop/Ending.antt =====
-- The TCP worker gives back every descriptor.
use stm32_board.Base.{ℕ, ◌+◌, ◌≡◌, List, [], ◌∷◌, arith, inl, inr, Bool-cases}
use stm32_board.Float.{Fpu}
use stm32_board.Rate.{Chrono}
use stm32_board.Shared.{SharedState}
use stm32_board.Socket.{Ledger, opens, close}
use stm32_board.Socket.Balance.{count, fds, opens-Held, close-Held}
use stm32_board.Tcp.Loop.{
  TcpWorker, accept_block, receive_sockets, Cycle, Setup, tcp_cycle, see_others, tcp_loop,
  tcp_start, close_all, cleanup, tcp_worker,
}
use stm32_board.Tcp.Loop.Release.{
  accept_block-AllHeld, receive_sockets-AllHeld, publish_sockets-AllHeld, close_all-AllHeld,
}

-- All that the worker holds, beside what others hold.
abbrev WorkerHeld : TcpWorker → ℕ → ℕ → Type 0
WorkerHeld w d others =
    count d w.ledger.opened
    ≡ count d w.ledger.closed
      + count d (fds (w.state_srv ∷ []))
      + count d (fds (w.cmd_srv ∷ []))
      + count d (fds w.state_clients)
      + count d (fds w.cmd_clients)
      + others

module _ (fpu : Fpu) (chrono : Chrono) (d others : ℕ) where
  tcp_cycle-WorkerHeld :
      (c : Cycle) (w : TcpWorker)
      → WorkerHeld w d others
      → WorkerHeld (tcp_cycle fpu chrono c w) d others
  unfolding tcp_cycle
  tcp_cycle-WorkerHeld c w h =
      let servers = count d (fds (w.state_srv ∷ [])) + count d (fds (w.cmd_srv ∷ [])) + others in
      let (states, l1) =
        accept_block w.state_srv c.state_temp c.state_calls w.state_clients w.ledger in
      let (cmds, l2) = accept_block w.cmd_srv c.cmd_temp c.cmd_calls w.cmd_clients l1 in
      let (cmds', s1, l3) = receive_sockets fpu c.clock c.recv w.tcp l2 cmds in
      let h1 =
        accept_block-AllHeld w.state_srv c.state_temp c.state_calls w.state_clients w.ledger d
          (count d (fds w.cmd_clients) + servers) (omega arith) in
      let h2 =
        accept_block-AllHeld w.cmd_srv c.cmd_temp c.cmd_calls w.cmd_clients l1 d
          (count d (fds states) + servers) (omega arith) in
      let h3 =
        receive_sockets-AllHeld fpu c.clock c.recv cmds w.tcp l2 d (count d (fds states) + servers)
          (omega arith) in
      let h4 =
        publish_sockets-AllHeld c.accepts c.t_mono_s s1 states l3 d (count d (fds cmds') + servers)
          (omega arith) in
      omega arith

  tcp_loop-WorkerHeld :
      (cycles : List Cycle) (w : TcpWorker)
      → WorkerHeld w d others
      → WorkerHeld (tcp_loop fpu chrono cycles w) d others
  unfolding tcp_loop see_others
  tcp_loop-WorkerHeld [] w h = h
  tcp_loop-WorkerHeld (c ∷ more) w h = elim (Bool-cases c.stop_now) [
    | inl e ↦ simp e h
    | inr e ↦
        let w' = see_others c w in
        simp e (tcp_loop-WorkerHeld more (tcp_cycle fpu chrono c w') (tcp_cycle-WorkerHeld c w' h))
  ]

  tcp_start-WorkerHeld :
      (r : Setup) (sh : SharedState) (l : Ledger)
      → count d l.opened ≡ count d l.closed + others
      → WorkerHeld (tcp_start fpu chrono r sh l) d others
  unfolding tcp_start
  tcp_start-WorkerHeld r sh l h =
      let (state_srv, l1) = opens r.state_fd l in
      let h1 = opens-Held r.state_fd l d others h in
      let h2 = opens-Held r.cmd_fd l1 d (count d (fds (state_srv ∷ [])) + others) (omega arith) in
      omega arith

  cleanup_lem :
      (w : TcpWorker)
      → WorkerHeld w d others
      → let l = (cleanup w).ledger in count d l.opened ≡ count d l.closed + others
  unfolding cleanup
  cleanup_lem w h =
      let servers = count d (fds (w.state_srv ∷ [])) + count d (fds (w.cmd_srv ∷ [])) + others in
      let (states, l1) = close_all w.state_clients w.ledger in
      let (cmds, l2) = close_all w.cmd_clients l1 in
      let h1 =
        close_all-AllHeld w.state_clients w.ledger d (count d (fds w.cmd_clients) + servers)
          (omega arith) in
      let h2 = close_all-AllHeld w.cmd_clients l1 d servers (omega arith) in
      let h3 =
        close-Held w.state_srv l2 d (count d (fds (w.cmd_srv ∷ [])) + others) (omega arith) in
      close-Held w.cmd_srv (close w.state_srv l2).1 d others (omega arith)

  -- When the TCP worker has ended, it has closed each descriptor as often as the system has given it
  -- one: whichever calls fail, whatever the clients send and however long it ran, none is lost and none
  -- is closed twice. `others` is what the rest of the program holds.
  pub tcp_worker-released :
      (r : Setup) (cycles : List Cycle) (sh : SharedState) (l : Ledger)
      → count d l.opened ≡ count d l.closed + others
      → let l' = (tcp_worker fpu chrono r cycles sh l).ledger in
        count d l'.opened ≡ count d l'.closed + others
  unfolding tcp_worker
  tcp_worker-released r cycles sh l h =
      cleanup_lem (tcp_loop fpu chrono cycles (tcp_start fpu chrono r sh l))
        (tcp_loop-WorkerHeld cycles (tcp_start fpu chrono r sh l) (tcp_start-WorkerHeld r sh l h))
