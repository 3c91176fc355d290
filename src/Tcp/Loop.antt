-- ===== src/Tcp/Loop.antt =====
-- cpp_gateway/app/workers/tcp_worker.cpp, the whole of `TcpWorker::operator()` with its sockets. What
-- the system's calls return is an argument, cycle by cycle; the log lines are left out.
pub mod Release
pub mod Ending
pub mod Reading
use Prim.Native.String.{String}
use stm32_board.Base.{
  ℕ, suc, ◌+◌, ◌%◌, ◌^◌, List, [], ◌∷◌, ◌++◌, Bool, true, false, ◌&&◌, Option, none, some, ◌==◌,
  if◌then◌else◌, length,
}
use stm32_board.Core.{Timestamps}
use stm32_board.Float.{Fpu, f64_200}
use stm32_board.Config.{RuntimeConfig}
use stm32_board.Framed.{fresh, push_bytes, available_bytes}
use stm32_board.Mailbox.{load}
use stm32_board.Rate.{Chrono, RateLimiter, rate_limiter, set_hz, sleep}
use stm32_board.Shared.{SharedState}
use stm32_board.Socket.{
  Ledger, Fd, is_open, opens, close, Fcntl, set_nonblocking, Listening, bind_listen, Accept,
  accept_client,
}
use stm32_board.Tcp.Worker.{TcpState, handle_frames, state_frame}
use stm32_board.Transfer.{Ret, try_recv}

pub record TcpWorker : Type 0 where
  pub tcp : TcpState
  pub state_srv : Fd
  pub cmd_srv : Fd
  pub state_clients : List Fd
  pub cmd_clients : List Fd
  pub rate : RateLimiter
  pub ledger : Ledger
  -- Of each server, whether it listens, and whether it was made non-blocking.
  pub state_serves : Bool × Bool
  pub cmd_serves : Bool × Bool

-- `while (srv.is_open() && srv.accept_client(c, true))`, with what the calls of `accept_client` meet;
-- behind them nobody waits. The clients, `c`, and the ledger. A client is non-blocking by
-- `accept_client` already; the second call of `set_nonblocking` is left out.
unfoldable pub accept_all : Fd → List (List Accept) → Fd → List Fd → Ledger → List Fd × Fd × Ledger
accept_all srv [] c clients l = (clients, c, l)
accept_all srv (calls ∷ more) c clients l =
    let (ok, c', l') = accept_client srv true calls c l in
    let rest = accept_all srv more none (clients ++ c' ∷ []) l' in
    if is_open srv then (if ok then rest else (clients, c', l')) else (clients, c, l)

-- The block round that loop: `c` has a socket of its own, which the end of the block closes.
unfoldable pub accept_block :
    Fd → Option ℕ → List (List Accept) → List Fd → Ledger → List Fd × Ledger
accept_block srv temp calls clients l =
    let (c, l1) = opens temp l in
    let (clients', c', l2) = accept_all srv calls c clients l1 in (clients', (close c' l2).1)

module _ (fpu : Fpu) where
  -- What the bytes of a client do; `n > 0` is tested before they are pushed.
  unfoldable pub take_bytes : (ℕ → Timestamps) → TcpState → ℕ → List ℕ → TcpState
  take_bytes clock s client bytes =
      let rx = if length bytes == 0 then s.cmd_frx else push_bytes s.cmd_frx bytes in
      handle_frames fpu (suc (available_bytes rx)) clock (record s { cmd_frx = rx }) client

  -- `for (size_t i = 0; i < cmd_clients.size();)`. The clients' numbers are their descriptors.
  unfoldable pub receive_sockets :
      (ℕ → ℕ → Timestamps)
      → (ℕ → Ret (List ℕ))
      → TcpState
      → Ledger
      → List Fd
      → List Fd × TcpState × Ledger
  receive_sockets clock recv s l [] = ([], s, l)
  receive_sockets clock recv s l (none ∷ more) = receive_sockets clock recv s l more
  receive_sockets clock recv s l (some fd ∷ more) =
      let (ok, bytes) = try_recv true (recv fd) in
      let dropped = receive_sockets clock recv s (close (some fd) l).1 more in
      let (stay, s', l') = receive_sockets clock recv (take_bytes (clock fd) s fd bytes) l more in
      if ok then (some fd ∷ stay, s', l') else dropped

-- `for (auto& c : clients) c.close();`
unfoldable pub close_all : List Fd → Ledger → List Fd × Ledger
close_all [] l = ([], l)
close_all (c ∷ more) l =
    let (c', l1) = close c l in let (more', l2) = close_all more l1 in (c' ∷ more', l2)

-- `for (size_t i = 0; i < state_clients.size();)`, with whether `send_all` to a client succeeds.
unfoldable pub send_sockets :
    (ℕ → Bool) → List ℕ → Ledger → List Fd → List Fd × List (ℕ × List ℕ) × Ledger
send_sockets accepts frame l [] = ([], [], l)
send_sockets accepts frame l (none ∷ more) = send_sockets accepts frame l more
send_sockets accepts frame l (some fd ∷ more) =
    let dropped = send_sockets accepts frame (close (some fd) l).1 more in
    let (stay, sent, l') = send_sockets accepts frame l more in
    if accepts fd then (some fd ∷ stay, (fd, frame) ∷ sent, l') else dropped

-- `// ---- Publish STATE frames ----`
unfoldable pub publish_sockets :
    (ℕ → Bool) → ℕ → TcpState → Ledger → List Fd → List Fd × TcpState × Ledger
publish_sockets accepts t_mono_s s l clients = elim (load s.sh.latest_state) [
  | none ↦ (clients, s, l)
  | some st ↦
      let seq = (s.state_seq + 1) % 2 ^ 32 in
      let (stay, sent, l') = send_sockets accepts (state_frame seq t_mono_s st) l clients in
      (stay, record s { state_seq = seq; sent = s.sent ++ sent }, l')
]

-- What a cycle meets: the other workers before it, the stop flag, the steady clock in `sleep`, the
-- sockets of the two blocks and their calls of `accept_client`, what `recv` returns for each client,
-- the clock while its frames are handled and as a float, and whether `send_all` to a client succeeds.
pub record Cycle : Type 0 where
  pub others : SharedState → SharedState
  pub stop_now : Bool
  pub ticks : ℕ
  pub state_temp : Option ℕ
  pub state_calls : List (List Accept)
  pub cmd_temp : Option ℕ
  pub cmd_calls : List (List Accept)
  pub recv : ℕ → Ret (List ℕ)
  pub clock : ℕ → ℕ → Timestamps
  pub t_mono_s : ℕ
  pub accepts : ℕ → Bool

-- What the system answers before the loop: both sockets, whether an address and a port can be bound,
-- and `fcntl`.
pub record Setup : Type 0 where
  pub state_fd : Option ℕ
  pub cmd_fd : Option ℕ
  pub listening : String → ℕ → Listening
  pub fcntl : Fcntl
  pub ticks : ℕ

unfoldable pub see_others : Cycle → TcpWorker → TcpWorker
see_others c w = record w { tcp = record w.tcp { sh = c.others w.tcp.sh } }

-- `// Cleanup sockets`
unfoldable pub cleanup : TcpWorker → TcpWorker
cleanup w =
    let (states, l1) = close_all w.state_clients w.ledger in
    let (cmds, l2) = close_all w.cmd_clients l1 in
    let (state_srv, l3) = close w.state_srv l2 in
    let (cmd_srv, l4) = close w.cmd_srv l3 in
    record w {
      state_srv = state_srv;
      cmd_srv = cmd_srv;
      state_clients = states;
      cmd_clients = cmds;
      ledger = l4;
    }

-- A server is made non-blocking only if it listens.
unfoldable pub serve : Fd → Listening → Fcntl → Bool × Bool
serve srv r f = let listens = bind_listen srv r in (listens, listens && set_nonblocking srv f true)

module _ (fpu : Fpu) (chrono : Chrono) where
  -- The hot reload of the rate, and `rate.sleep()`.
  unfoldable pub pace : Option RuntimeConfig → ℕ → RateLimiter → RateLimiter
  pace none ticks rate = sleep fpu chrono ticks ticks rate
  pace (some cfg) ticks rate = sleep fpu chrono ticks ticks (set_hz fpu cfg.tcp_hz rate)

  -- A cycle from the accepting to the publishing, on the shared state as it is by then.
  unfoldable pub tcp_cycle : Cycle → TcpWorker → TcpWorker
  tcp_cycle c w =
      let (states, l1) =
        accept_block w.state_srv c.state_temp c.state_calls w.state_clients w.ledger in
      let (cmds, l2) = accept_block w.cmd_srv c.cmd_temp c.cmd_calls w.cmd_clients l1 in
      let (cmds', s1, l3) = receive_sockets fpu c.clock c.recv w.tcp l2 cmds in
      let (states', s2, l4) = publish_sockets c.accepts c.t_mono_s s1 l3 states in
      record w {
        tcp = s2;
        state_clients = states';
        cmd_clients = cmds';
        rate = pace w.tcp.sh.cfg c.ticks w.rate;
        ledger = l4;
      }

  -- `while (!stop_.stop_requested())`
  unfoldable pub tcp_loop : List Cycle → TcpWorker → TcpWorker
  tcp_loop [] w = w
  tcp_loop (c ∷ more) w =
      let w' = see_others c w in
      let rest = tcp_loop more (tcp_cycle c w') in if c.stop_now then w' else rest

  -- The sockets, the locals and the rate before the loop.
  unfoldable pub tcp_start : Setup → SharedState → Ledger → TcpWorker
  tcp_start r sh l =
      let (state_srv, l1) = opens r.state_fd l in
      let (cmd_srv, l2) = opens r.cmd_fd l1 in
      let bind_ip : String = elim sh.cfg [ none ↦ "0.0.0.0" | some cfg ↦ cfg.bind_ip ] in
      let state_port : ℕ = elim sh.cfg [ none ↦ 30001 | some cfg ↦ cfg.state_port ] in
      let cmd_port : ℕ = elim sh.cfg [ none ↦ 30002 | some cfg ↦ cfg.cmd_port ] in
      let hz : ℕ = elim sh.cfg [ none ↦ f64_200 | some cfg ↦ cfg.tcp_hz ] in
      record {
        tcp = record {
          sh = sh;
          cmd_frx = fresh;
          last_sp_seq = 0;
          state_seq = 0;
          stats_seq = 0;
          sent = [];
        };
        state_srv = state_srv;
        cmd_srv = cmd_srv;
        state_clients = [];
        cmd_clients = [];
        rate = rate_limiter fpu hz r.ticks;
        ledger = l2;
        state_serves = serve state_srv (r.listening bind_ip state_port) r.fcntl;
        cmd_serves = serve cmd_srv (r.listening bind_ip cmd_port) r.fcntl;
      }

  -- The worker from its start to its end, the cycles being those up to the request to stop.
  unfoldable pub tcp_worker : Setup → List Cycle → SharedState → Ledger → TcpWorker
  tcp_worker r cycles sh l = cleanup (tcp_loop cycles (tcp_start r sh l))
