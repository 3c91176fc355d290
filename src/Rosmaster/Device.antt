-- ===== src/Rosmaster/Device.antt =====
-- cpp_gateway/src/rosmaster/rosmaster.cpp: the life of a `Rosmaster`, its port and its receive thread,
-- and the requests that wait for the board. The sleeps and the debug line are left out.
pub mod Life
pub mod Asking
use Prim.Native.String.{String}
use text.Mathlib.Text.{◌==◌ as ◌≐◌}
use stm32_board.Base.{
  ℕ, suc, ◌+◌, List, [], ◌∷◌, Bool, true, false, not, ◌&&◌, Option, none, some, ltb, ◌==◌,
  if◌then◌else◌,
}
use stm32_board.Base.Int.{ℤ, pos}
use stm32_board.Core.{Version}
use stm32_board.Socket.{Ledger, Fd, is_open, close, Opening, open_port}
use stm32_board.Rosmaster.{request_data}
use stm32_board.Rosmaster.Func
use stm32_board.Rosmaster.Receive.{Robot}

-- `rosmaster::Config`; `cmd_delay` in microseconds.
pub record Config : Type 0 where
  pub device : String
  pub baud : ℤ
  pub cmd_delay : ℕ
  pub debug : Bool

abbrev pub default_config : Config
default_config = record {
  device = "/dev/ttyUSB0";
  baud = pos 115200;
  cmd_delay = 2000;
  debug = false;
}

-- `rx_thread` is whether `rx_thread_` is joinable.
pub record Device : Type 0 where
  pub cfg : Config
  pub ser : Fd
  pub running : Bool
  pub rx_thread : Bool
  pub ledger : Ledger

-- `Rosmaster()`, when the system's descriptors are those of `l`.
unfoldable pub new_device : Ledger → Device
new_device l = record {
  cfg = default_config;
  ser = none;
  running = false;
  rx_thread = false;
  ledger = l;
}

unfoldable pub connect : Config → Opening → Device → Bool × Device
connect cfg r d =
    let (ok, fd, l) = open_port r d.ser d.ledger in
    (ok, record d { cfg = cfg; ser = fd; ledger = l })

-- `Rosmaster(cfg)`
unfoldable pub connected_device : Config → Opening → Ledger → Device
connected_device cfg r l = (connect cfg r (new_device l)).1

-- `Rosmaster(port, cfg)`: `port` is the descriptor of the port handed over, if it has one.
unfoldable pub device_of_port : Fd → Config → Opening → Ledger → Device
device_of_port port cfg r l =
    let d = record (new_device l) { cfg = cfg; ser = port } in
    if cfg.device ≐ "" then d else (connect cfg r d).1

unfoldable pub disconnect : Device → Device
disconnect d = let (fd, l) = close d.ser d.ledger in record d { ser = fd; ledger = l }

-- `none` where a new thread is assigned over a joinable one, which terminates the program.
unfoldable pub start : Device → Option (Bool × Device)
start d =
    if d.running
    then some (true, d)
    else if not (is_open d.ser)
    then some (false, d)
    else if d.rx_thread
    then none
    else some (true, record d { running = true; rx_thread = true })

-- A device whose receive thread has been joined.
abbrev pub stopped : Device → Device
stopped d = record d { running = false; rx_thread = false }

-- The thread ends when it sees that `running_` is false; `stop` waits for that. `returns` is whether the
-- read that the thread is in comes to an end; the port's settings do not promise it (`VMIN` is 1).
-- `none` where `stop` waits for ever.
unfoldable pub stop : Bool → Device → Option Device
stop returns d = if d.rx_thread && not returns then none else some (stopped d)

-- `~Rosmaster()`
unfoldable pub destroy : Bool → Device → Option Device
destroy returns d = elim (stop returns d) [ none ↦ none | some d' ↦ some (disconnect d') ]

-- `wait_for`: the count of the type when it begins, and whenever the thread is woken up to the
-- timeout.
unfoldable pub wait_for : ℕ → List ℕ → Bool
wait_for first [] = false
wait_for first (count ∷ more) =
    let rest = wait_for first more in if count == first then rest else true

-- The pattern of -1.0f.
abbrev pub f32_minus_one : ℕ
f32_minus_one = 0xbf80_0000

-- `while (steady_clock::now() < deadline)`: what the clock says in each round, in milliseconds, and the
-- version that the round reads. `none` while the loop goes on.
unfoldable pub version_loop : ℕ → List (ℕ × Version) → Option ℕ
version_loop deadline [] = none
version_loop deadline ((now, v) ∷ polls) =
    let rest = version_loop deadline polls in
    let answer = if v.high == 0 then rest else some v.version in
    if ltb now deadline then answer else some f32_minus_one

-- `get_version`, called at the time `now`: what the state is when it begins to wait, the frames that
-- it writes, and its result.
unfoldable pub get_version : Robot → ℕ → List (ℕ × Version) → Robot × List (List ℕ) × Option ℕ
get_version r now polls = if not (r.version.high == 0) then (r, [], some r.version.version) else (
  record r { version = record { high = 0; low = 0; version = 0 } },
  request_data Func.version 0 ∷ [],
  version_loop (now + 20) polls,
)
