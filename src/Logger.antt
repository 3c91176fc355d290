-- ===== src/Logger.antt =====
-- cpp_gateway/include/utils/logger.hpp and cpp_gateway/src/utils/logger.cpp: the text logger. A message
-- comes with the place in the source that calls it; the time and the file system are arguments.
pub mod Delivery
pub mod Closing
pub mod Stream
use Prim.Native.String.{String, ◌++◌ as ◌<>◌}
use text.Mathlib.Text.{◌==◌ as ◌≐◌}
use stm32_board.Base.{
  ℕ, zero, suc, ◌+◌, ◌%◌, ◌^◌, List, [], ◌∷◌, ◌++◌, Bool, true, false, not, ◌&&◌, leb, ◌==◌,
  if◌then◌else◌, Option, none, some,
}
use stm32_board.Base.Int.{ℤ, pos, negsuc}

pub data Level : Type 0 where
  debug info warn error : Level

-- `static_cast<int>(level)`
unfoldable pub level_value : Level → ℕ
level_value debug = 10
level_value info = 20
level_value warn = 30
level_value error = 40

unfoldable pub level_name : Level → String
level_name debug = "DEBUG"
level_name info = "INFO"
level_name warn = "WARN"
level_name error = "ERROR"

-- The place of a level's file.
unfoldable pub level_index : Level → ℕ
level_index debug = 0
level_index info = 1
level_index warn = 2
level_index error = 3

pub data Colour : Type 0 where
  blue green yellow red : Colour

unfoldable pub level_color : Level → Colour
level_color debug = blue
level_color info = green
level_color warn = yellow
level_color error = red

-- The beginning of the name of a level's file.
unfoldable pub file_stem : Level → String
file_stem debug = "debug_"
file_stem info = "info_"
file_stem warn = "warn_"
file_stem error = "error_"

pub record LogItem : Type 0 where
  pub level : Level
  pub message : String

-- A line of a file: its number, the level and the message. The time of day is left out.
pub record Line : Type 0 where
  pub file : String
  pub counter : ℕ
  pub item : LogItem

-- `worker_` and `worker_started_`: a worker that has been joined is not started again.
pub data Worker : Type 0 where
  not_started running joined : Worker

-- The logger, with what it has printed and what its worker has written.
pub record Logger : Type 0 where
  pub stop_signal : Bool
  pub queue : List LogItem
  pub worker : Worker
  pub initialized : Bool
  pub log_dir : String
  pub date_str : String
  pub print_level : ℕ
  pub logging_level : ℕ
  pub enable_file_logging : Bool
  pub max_log_size : ℕ
  pub msg_counter : ℕ
  pub printed : List LogItem
  pub lines : List Line

-- `Logger()`
abbrev pub fresh_logger : Logger
fresh_logger = record {
  stop_signal = false;
  queue = [];
  worker = not_started;
  initialized = false;
  log_dir = "logs";
  date_str = "";
  print_level = 20;
  logging_level = 10;
  enable_file_logging = true;
  max_log_size = 1000000;
  msg_counter = 0;
  printed = [];
  lines = [];
}

unfoldable pub start_worker_if_needed : Worker → Worker
start_worker_if_needed not_started = running
start_worker_if_needed running = running
start_worker_if_needed joined = joined

-- `date` is the time as it stands in the names of the files.
unfoldable pub ensure_initialized : String → Logger → Logger
ensure_initialized date lg = if lg.initialized then lg else record lg {
  date_str = date;
  initialized = true;
  worker = if lg.enable_file_logging then start_worker_if_needed lg.worker else lg.worker;
}

-- A message goes to the console, and to the queue of the worker.
unfoldable pub print_item : LogItem → Logger → Logger
print_item item lg =
    if leb lg.print_level (level_value item.level)
    then record lg { printed = lg.printed ++ item ∷ [] }
    else lg

unfoldable pub trace : String → LogItem → Logger → Logger
unfolding print_item
trace date item lg0 =
    let lg = print_item item lg0 in
    let ready = ensure_initialized date lg in
    if lg.enable_file_logging && leb lg.logging_level (level_value item.level)
    then record ready { queue = ready.queue ++ item ∷ [] }
    else lg

abbrev warning : String → LogItem
warning message = record { level = warn; message = message }

-- Levels and sizes that are not positive are refused with a warning. `context` adds the place of the
-- call to a text, and `to_string` is the library's.
module _ (context : String → String) (to_string : ℤ → String) where
  unfoldable pub set_print_level : String → ℤ → Logger → Logger
  set_print_level date (pos (suc n)) lg = record lg { print_level = suc n }
  set_print_level date level lg =
      trace date (warning (context ("Invalid print level: " <> to_string level))) lg

  unfoldable pub set_log_level : String → ℤ → Logger → Logger
  set_log_level date (pos (suc n)) lg = record lg { logging_level = suc n }
  set_log_level date level lg =
      trace date (warning (context ("Invalid log level: " <> to_string level))) lg

  unfoldable pub set_max_file_size : String → ℕ → Logger → Logger
  set_max_file_size date zero lg = trace date (warning (context "Invalid max log size: 0")) lg
  set_max_file_size date (suc n) lg = record lg { max_log_size = suc n }

unfoldable pub set_file_logging_enabled : Bool → Logger → Logger
set_file_logging_enabled enabled lg = record lg {
  enable_file_logging = enabled;
  initialized = false;
}

-- `log_file_for`, behind `ensure_initialized`; `join` is the library's `/` of paths.
unfoldable pub log_file_for : (String → String → String) → Logger → Level → String
log_file_for join lg level = join lg.log_dir (file_stem level <> (lg.date_str <> ".log"))

-- The first number from `i` on, of `n` numbers, that no file has.
unfoldable pub first_free : (ℕ → Bool) → ℕ → ℕ → Option ℕ
first_free exists zero i = none
first_free exists (suc n) i =
    let later = first_free exists n (i + 1) in if exists i then later else some i

-- The number that a file gets when it is renamed, if it is. `size` is that of the file, if it exists
-- and can be measured; `exists i` is whether the file with the number `i` exists.
unfoldable pub rotate_if_needed : ℕ → Option ℕ → (ℕ → Bool) → Option ℕ
rotate_if_needed max_log_size none exists = none
rotate_if_needed max_log_size (some size) exists =
    if leb size max_log_size then none else first_free exists 9999 1

-- One turn of the worker: it takes the oldest message and writes it, or it ends, or it waits.
pub data Turn : Type 0 where
  ends waits : Turn
  wrote : Logger → Turn

-- What the open files get: nothing where the file does not open.
abbrev pub add_line : (String → Bool) → Line → List Line → List Line
add_line can_open line lines = if can_open line.file then lines ++ line ∷ [] else lines

-- `can_open` is whether a file can be opened for appending.
unfoldable pub worker_turn : (String → String → String) → (String → Bool) → String → Logger → Turn
worker_turn join can_open date lg = elim lg.queue [
  | [] ↦ if lg.stop_signal then ends else waits
  | ◌∷◌ item queue ↦
      let ready = ensure_initialized date (record lg { queue = queue }) in
      let counter = (lg.msg_counter + 1) % 2 ^ 64 in
      let line : Line = record {
        file = log_file_for join ready item.level;
        counter = counter;
        item = item;
      } in
      wrote (record ready { msg_counter = counter; lines = add_line can_open line lg.lines })
]

-- The worker with nobody else at work, for so many turns: whether it has ended.
unfoldable pub worker_loop :
    (String → String → String) → (String → Bool) → String → ℕ → Logger → Bool × Logger
worker_loop join can_open date zero lg = (false, lg)
worker_loop join can_open date (suc n) lg = elim (worker_turn join can_open date lg) [
  | ends ↦ (true, lg)
  | waits ↦ (false, lg)
  | wrote lg' ↦ worker_loop join can_open date n lg'
]

abbrev pub signal_stop : Logger → Logger
signal_stop lg = record lg { stop_signal = true }

-- `if (worker_.joinable()) worker_.join();`, where `run` is what the worker comes to.
unfoldable pub join_worker : Worker → Bool × Logger → Logger → Bool × Logger
join_worker not_started run lg = (true, lg)
join_worker running (ended, lg') lg = (ended, if ended then record lg' { worker = joined } else lg')
join_worker joined run lg = (true, lg)

-- `close`: the signal, behind which a worker that runs is joined; it is given `n` turns. Whether `close`
-- returns by then.
unfoldable pub close :
    (String → String → String) → (String → Bool) → String → ℕ → Logger → Bool × Logger
close join can_open date n lg =
    let signalled = signal_stop lg in
    join_worker lg.worker (worker_loop join can_open date n signalled) signalled
