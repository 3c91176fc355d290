-- ===== src/Examples/Lifetimes.antt =====
-- Workers from their start to their end, with their sockets and their port.
use stm32_board.Base.{
  ℕ, ◌+◌, ◌≡◌, refl, List, [], ◌∷◌, Bool, true, false, some, map, if◌then◌else◌, arith, take, drop,
  ◌==◌,
}
use stm32_board.Framed.{fresh, hdr_bytes, make_hdr}
use stm32_board.Framed.RoundTrip.{stream, frame_bytes}
use stm32_board.Framed.Stream.{unread}
use stm32_board.Rate.{Chrono, default_limiter}
use stm32_board.Rosmaster.Device.{Device, default_config, new_device, destroy}
use stm32_board.Socket.{
  Ledger, Fcntl, Opening, accepted, no_client, opens, close, accept_client, is_open,
  set_nonblocking_fd,
}
use stm32_board.Socket.Balance.{count, fds}
use stm32_board.Tcp.Attributed.{attributed, frames_of, handle_attributed, staying}
use stm32_board.Tcp.Loop.{TcpWorker, Cycle, Setup, tcp_cycle, tcp_worker, accept_block, accept_all}
use stm32_board.Tcp.Loop.Reading.{inputs, reading, watching, published, tcp_cycle-frames}
use stm32_board.Tcp.Loop.Ending.{tcp_worker-released}
use stm32_board.Transfer.{again, try_recv}
use stm32_board.Transfer
use stm32_board.Usb.{UsbState, backoff_for_attempt}
use stm32_board.Usb.Session.{Try, usb_worker}
use stm32_board.Rosmaster.Device.Life.{
  Call, connects, disconnects, starts, stops, run, Released, run-destroy,
}
use stm32_board.Usb.Session.Shutdown.{Written, usb_worker-ends}
use stm32_board.Examples.Data.{unit, noon, started}
use stm32_board.Examples.Tcp.{worker, sent, sent-IsFrame}
use stm32_board.Examples.Usb.{idle, works, round}

abbrev empty_ledger : Ledger
empty_ledger = record { opened = []; closed = [] }

abbrev fcntl : Fcntl
fcntl = record { flags = some 2; set_flags = λ flags. true; o_nonblock = 2048 }

abbrev chrono : Chrono
chrono = record { ticks = λ s. s; seconds = λ t. t; to_u64 = λ x. x }

-- A cycle that accepts a client on each server. The client of descriptor 5 sends ten bytes, and one
-- that has just connected the rest of the frames.
abbrev busy : Cycle
busy = record {
  others = λ sh. sh;
  stop_now = false;
  ticks = 100;
  state_temp = some 8;
  state_calls = (accepted 9 fcntl ∷ []) ∷ [];
  cmd_temp = some 8;
  cmd_calls = (accepted 6 fcntl ∷ []) ∷ (no_client again ∷ []) ∷ [];
  recv = λ fd.
      if fd == 5
      then Transfer.count (take 10 (stream sent))
      else if fd == 6
      then Transfer.count (drop 10 (stream sent))
      else Transfer.error again;
  clock = λ fd fuel. noon;
  t_mono_s = 0;
  accepts = λ fd. false;
}

abbrev serving : TcpWorker
serving = record {
  tcp = worker;
  state_srv = some 3;
  cmd_srv = some 4;
  state_clients = [];
  cmd_clients = some 5 ∷ [];
  rate = default_limiter;
  ledger = record { opened = 5 ∷ 4 ∷ 3 ∷ []; closed = [] };
  state_serves = (true, true);
  cmd_serves = (true, true);
}

tcp_cycle-frames_example :
    let cs = inputs busy.recv (fds (reading serving busy)) in
    let (gs, rx) = attributed fresh cs in
    let w = tcp_cycle unit chrono busy serving in
    (frames_of gs ≡ sent)
    × (w.tcp
        ≡ published busy.accepts busy.t_mono_s
            (watching serving busy)
            (record (handle_attributed unit worker noon gs) { cmd_frx = rx }))
    × (w.cmd_clients ≡ map some (staying cs))
    × (unread rx ≡ [])
unfolding accept_block accept_all accept_client opens close is_open try_recv frame_bytes hdr_bytes
    make_hdr set_nonblocking_fd
tcp_cycle-frames_example =
    tcp_cycle-frames unit chrono noon busy serving sent sent-IsFrame (omega arith) refl

abbrev setup : Setup
setup = record {
  state_fd = some 3;
  cmd_fd = some 4;
  listening = λ ip port. record { parses = true; binds = true; listens = true };
  fcntl = fcntl;
  ticks = 0;
}

tcp_worker-released_example :
    let l = (tcp_worker unit chrono setup (busy ∷ busy ∷ []) started empty_ledger).ledger in
    count 6 l.opened ≡ count 6 l.closed + 0
tcp_worker-released_example =
    tcp_worker-released unit chrono 6 0 setup (busy ∷ busy ∷ []) started empty_ledger refl

abbrev opening : Opening
opening = record { fd = some 3; gets_settings = true; sets_settings = true }

abbrev try : ℕ → Bool → Try
try elapsed ok = record {
  stopping = false;
  opening = record opening { gets_settings = ok };
  elapsed = elapsed;
}

-- The third attempt succeeds.
abbrev tries : List Try
tries =
    try 1 false
    ∷ try 202 false
    ∷ try 603 true
    ∷ try 1404 true
    ∷ try 2405 true
    ∷ try 3406 true
    ∷ try 4407 true
    ∷ try 5408 true
    ∷ []

usb_worker-ends_example :
    (r : UsbState × Device) × (usb_worker unit works 8 (round ∷ []) true tries idle empty_ledger
      ≡ some r)
    × Released r.1 3 0
    × Written unit works 8 (round ∷ []) idle r.0
unfolding backoff_for_attempt
usb_worker-ends_example =
    usb_worker-ends unit works 8 (round ∷ []) tries idle empty_ledger 3 0 (ground arith)
      (omega arith) refl

-- A second start, a stop, and a start after the port is closed.
abbrev calls : List Call
calls =
    starts
    ∷ connects default_config opening
    ∷ starts
    ∷ starts
    ∷ stops
    ∷ starts
    ∷ disconnects
    ∷ connects default_config opening
    ∷ []

run-destroy_example :
    (d d' : Device) × (run calls (new_device empty_ledger) ≡ some d)
    × (destroy true d ≡ some d')
    × Released d' 3 0
run-destroy_example = run-destroy calls empty_ledger 3 0 refl
