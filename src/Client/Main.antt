-- ===== src/Client/Main.antt =====
-- cpp_gateway/app/tcp_client.cpp: main behind the arguments, its two sockets and its threads. The
-- signals and the log lines are left out.
use stm32_board.Base.{
  ℕ, ◌+◌, ◌≡◌, List, [], ◌∷◌, Bool, false, Option, none, some, arith, if◌then◌else◌, inl, inr,
  Bool-cases,
}
use stm32_board.Float.{Fpu}
use stm32_board.Framed.{fresh}
use stm32_board.Transfer.{Ret}
use stm32_board.Client.Receiving.{Shown, min_dt, receive_loop}
use stm32_board.Client.{ClientConfig, send_frame, config_frame, cmd_thread, setpoint_thread}
use stm32_board.Socket.{Ledger, opens, close, Fcntl, Connect, connect_to}
use stm32_board.Socket.Balance.{count, fds, opens-Held, close-Held}

-- What the system answers for one of the sockets: the socket, whether the address is read, and the
-- connection.
pub record Dial : Type 0 where
  pub fd : Option ℕ
  pub parses : Bool
  pub connects : Connect

-- What the threads of a connected client meet: the turns of the configuration frame, the rounds of the
-- two sender threads, and the turns of the receive loop.
pub record Session : Type 0 where
  pub config_turns : List (Bool × Ret ℕ)
  pub cmd_rounds : List (Bool × List (Bool × Ret ℕ))
  pub setpoint_rounds : List (Bool × List (Bool × Ret ℕ))
  pub recv_turns : List (Bool × (ℕ → ℕ) × Ret (List ℕ))

-- What main does: its exit status, the bytes of the configuration and those that each sender
-- thread sends by itself, the lines that it shows, and the descriptors.
pub record Outcome : Type 0 where
  pub status : ℕ
  pub config_bytes : List ℕ
  pub cmd_bytes : List ℕ
  pub setpoint_bytes : List ℕ
  pub lines : List Shown
  pub ledger : Ledger

-- `if (config.send_config)`
unfoldable pub sent_config : ClientConfig → List (Bool × Ret ℕ) → List ℕ
sent_config c turns = elim (config_frame c) [
  | none ↦ []
  | some f ↦ (send_frame turns f.type_ f.payload).1
]

abbrev failed : Ledger → Outcome
failed l = record {
  status = 1;
  config_bytes = [];
  cmd_bytes = [];
  setpoint_bytes = [];
  lines = [];
  ledger = l;
}

-- Both sockets are closed by their destructors, the second one first. `last_print` is the time at
-- which the receive loop begins, less the least time between two lines.
module _ (fpu : Fpu) (seconds : ℕ → ℕ → ℕ) (last_print : ℕ) where
  unfoldable pub client_main :
      Option ClientConfig → Fcntl → Dial → Dial → Session → Ledger → Outcome
  client_main none f state cmd session l = record {
    status = 0;
    config_bytes = [];
    cmd_bytes = [];
    setpoint_bytes = [];
    lines = [];
    ledger = l;
  }
  client_main (some c) f state cmd session l =
      let (state_sock, l1) = opens state.fd l in
      let (cmd_sock, l2) = opens cmd.fd l1 in
      let both = (close state_sock (close cmd_sock l2).1).1 in
      if connect_to state_sock state.parses f state.connects false
      then if connect_to cmd_sock cmd.parses f cmd.connects false
        then record {
          status = 0;
          config_bytes = sent_config c session.config_turns;
          cmd_bytes = cmd_thread fpu c session.cmd_rounds;
          setpoint_bytes = setpoint_thread fpu c session.setpoint_rounds;
          lines = receive_loop fpu seconds (min_dt fpu c) session.recv_turns fresh last_print;
          ledger = both;
        }
        else failed both
      else failed (close state_sock l1).1

  -- The client closes each of its sockets once, whether it connects or not.
  pub client_main-released :
      (c : Option ClientConfig) (f : Fcntl) (state cmd : Dial) (session : Session) (l : Ledger)
      (d others : ℕ)
      → count d l.opened ≡ count d l.closed + others
      → let l' = (client_main c f state cmd session l).ledger in
        count d l'.opened ≡ count d l'.closed + others
  unfolding client_main
  client_main-released none f state cmd session l d others h = h
  client_main-released (some c) f state cmd session l d others h =
      let (state_sock, l1) = opens state.fd l in
      let (cmd_sock, l2) = opens cmd.fd l1 in
      let n = count d (fds (state_sock ∷ [])) in
      let h1 = opens-Held state.fd l d others h in
      let h2 = opens-Held cmd.fd l1 d (n + others) (omega arith) in
      let h3 = close-Held cmd_sock l2 d (n + others) (omega arith) in
      let both = close-Held state_sock (close cmd_sock l2).1 d others (omega arith) in
      let one = close-Held state_sock l1 d others h1 in
      elim (Bool-cases (connect_to state_sock state.parses f state.connects false)) [
        | inr e ↦ rw e one
        | inl e ↦ elim (Bool-cases (connect_to cmd_sock cmd.parses f cmd.connects false)) [
          | inl e' ↦ rw (e, e') both
          | inr e' ↦ rw (e, e') both
        ]
      ]
