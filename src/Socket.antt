-- ===== src/Socket.antt =====
-- cpp_gateway/include/connection/tcp_socket.hpp, src/connection/tcp_socket.cpp and serial_port.cpp: who
-- holds which descriptor. What the system calls return is an argument; the ledger says which
-- descriptors the system gave and which it was told to close, newest first.
pub mod Balance
use stm32_board.Base.{
  ℕ, ◌+◌, ◌-◌, List, [], ◌∷◌, Bool, true, false, Option, none, some, ◌==◌, if◌then◌else◌, bit_and,
  bit_or,
}
use stm32_board.Base.Int.{ℤ, pos, negsuc}
use stm32_board.Transfer.{Errno, intr, again, other, Ret, count, error}

pub record Ledger : Type 0 where
  pub opened : List ℕ
  pub closed : List ℕ

-- A descriptor that an object holds: `none` where `fd_` is -1.
abbrev pub Fd : Type 0
Fd = Option ℕ

unfoldable pub is_open : Fd → Bool
is_open none = false
is_open (some fd) = true

-- A call that makes a descriptor, or fails.
unfoldable pub opens : Option ℕ → Ledger → Fd × Ledger
opens none l = (none, l)
opens (some fd) l = (some fd, record l { opened = fd ∷ l.opened })

-- `TcpSocket::close` and `SerialPort::close`; the destructors call them.
unfoldable pub close : Fd → Ledger → Fd × Ledger
close none l = (none, l)
close (some fd) l = (none, record l { closed = fd ∷ l.closed })

-- `fcntl` on a descriptor: its flags, whether the system takes new ones, and the bit O_NONBLOCK.
pub record Fcntl : Type 0 where
  pub flags : Option ℕ
  pub set_flags : ℕ → Bool
  pub o_nonblock : ℕ

unfoldable pub set_nonblocking_fd : Fcntl → Bool → Bool
set_nonblocking_fd f on = elim f.flags [
  | none ↦ false
  | some flags ↦
      if on
      then f.set_flags (bit_or flags f.o_nonblock)
      else f.set_flags (bit_and flags (0xffffffff - f.o_nonblock))
]

unfoldable pub set_nonblocking : Fd → Fcntl → Bool → Bool
set_nonblocking none f on = false
set_nonblocking (some fd) f on = set_nonblocking_fd f on

-- `TcpSocket::operator=(TcpSocket&&)` from another object: both descriptors afterwards.
unfoldable pub move_assign : Fd → Fd → Ledger → Fd × Fd × Ledger
move_assign this other_ l = let (_, l') = close this l in (other_, none, l')

-- What `connect` returns: success, or an error, which may say that the connection is under way.
pub data Connect : Type 0 where
  connected in_progress refused : Connect

-- `parses` is whether `inet_pton` reads the address.
unfoldable pub connect_to : Fd → Bool → Fcntl → Connect → Bool → Bool
connect_to none parses f answer nonblocking = false
connect_to (some fd) parses f answer nonblocking =
    let ready = if nonblocking then set_nonblocking_fd f true else true in
    let ok : Bool = elim answer [
      | connected ↦ true
      | in_progress ↦ nonblocking
      | refused ↦ false
    ] in
    if parses then (if ready then ok else false) else false

-- Whether `inet_pton`, `bind` and `listen` succeed.
pub record Listening : Type 0 where
  pub parses : Bool
  pub binds : Bool
  pub listens : Bool

unfoldable pub bind_listen : Fd → Listening → Bool
bind_listen none r = false
bind_listen (some fd) r = if r.parses then (if r.binds then r.listens else false) else false

-- What a call of `accept` returns: a descriptor, with what `fcntl` answers for it, or an error.
pub data Accept : Type 0 where
  accepted : ℕ → Fcntl → Accept
  no_client : Errno → Accept

-- `TcpSocket::accept_client`: whether it succeeds, `out`, and the ledger. Where no call is left,
-- `accept` finds nobody.
unfoldable pub accept_client : Fd → Bool → List Accept → Fd → Ledger → Bool × Fd × Ledger
accept_client none nonblocking calls out l = (false, out, l)
accept_client (some fd) nonblocking [] out l = (false, out, l)
accept_client (some fd) nonblocking (accepted cfd f ∷ calls) out l =
    let (c, l1) = opens (some cfd) l in
    let ready = if nonblocking then set_nonblocking_fd f true else true in
    let (_, l2) = close out l1 in if ready then (true, c, l2) else (false, out, (close c l1).1)
accept_client (some fd) nonblocking (no_client intr ∷ calls) out l =
    accept_client (some fd) nonblocking calls out l
accept_client (some fd) nonblocking (no_client again ∷ calls) out l = (false, out, l)
accept_client (some fd) nonblocking (no_client other ∷ calls) out l = (false, out, l)

-- The three system calls of `SerialPort::open`.
pub record Opening : Type 0 where
  pub fd : Option ℕ
  pub gets_settings : Bool
  pub sets_settings : Bool

-- `SerialPort::open`: whether it succeeds, `fd_`, and the ledger.
unfoldable pub open_port : Opening → Fd → Ledger → Bool × Fd × Ledger
open_port r old l =
    let (_, l1) = close old l in
    let (fd, l2) = opens r.fd l1 in
    let (gone, l3) = close fd l2 in
    if is_open fd
    then (if r.gets_settings
        then (if r.sets_settings then (true, fd, l2) else (false, gone, l3))
        else (false, gone, l3))
    else (false, fd, l2)

-- The speeds of `baud_to_speed`; B230400 is defined on Linux.
pub data Speed : Type 0 where
  b9600 b19200 b38400 b57600 b115200 b230400 : Speed

unfoldable pub baud_to_speed : ℤ → Speed
baud_to_speed (negsuc _) = b115200
baud_to_speed (pos baud) =
    if baud == 9600
    then b9600
    else if baud == 19200
    then b19200
    else if baud == 38400
    then b38400
    else if baud == 57600
    then b57600
    else if baud == 115200
    then b115200
    else if baud == 230400
    then b230400
    else b115200
