-- ===== src/Csv.antt =====
-- cpp_gateway/include/utils/csv_recorder.hpp and cpp_gateway/src/utils/csv_recorder.cpp: the recorder of
-- rows by column names. The text of a number is the library's; messages to the console are left out.
pub mod Columns
pub mod Paths
use Prim.Native.String.{String, ◌++◌ as ◌<>◌}
use text.Mathlib.Text.{◌==◌ as ◌≐◌}
use stm32_board.Base.{
  ℕ, zero, suc, List, [], ◌∷◌, Bool, true, false, if◌then◌else◌, Option, none, some, set,
}
use stm32_board.Base.Int.{ℤ}
use stm32_board.Core.{Timestamps, States, MotorCommands}

abbrev pub CsvRow : Type 0
CsvRow = List (String × String)

abbrev pub motors_cmd_header : List String
motors_cmd_header = "t_epoch_s" ∷ "t_mono_s" ∷ "m1" ∷ "m2" ∷ "m3" ∷ "m4" ∷ []

abbrev pub state_header : List String
state_header =
    "t_epoch_s" ∷ "t_mono_s" ∷ "ax" ∷ "ay" ∷ "az" ∷ "gx" ∷ "gy" ∷ "gz" ∷ "mx" ∷ "my" ∷ "mz"
    ∷ "roll_deg" ∷ "pitch_deg" ∷ "yaw_deg" ∷ "enc1" ∷ "enc2" ∷ "enc3" ∷ "enc4" ∷ []

-- `format_value`: a double and a float with six digits, and an integer.
pub record Format : Type 0 where
  pub double : ℕ → String
  pub float : ℕ → String
  pub int : ℤ → String

-- The recorder, with the text of its file.
pub record CsvRecorder : Type 0 where
  pub header : List String
  pub is_open : Bool
  pub header_written : Bool
  pub file : String

-- The constructor throws for an empty header.
unfoldable pub csv_recorder : List String → Option CsvRecorder
csv_recorder [] = none
csv_recorder (name ∷ names) =
    some (record { header = name ∷ names; is_open = false; header_written = false; file = "" })

-- `header_index_`: `emplace` keeps the first place of a name.
unfoldable pub header_index : List String → String → Option ℕ
header_index [] key = none
header_index (name ∷ names) key =
    let later = header_index names key in
    if name ≐ key then some 0 else elim later [ none ↦ none | some i ↦ some (suc i) ]

-- The values by column: one that has a place goes there, over one from before.
unfoldable pub place : List String → CsvRow → List String → List String
place header [] values = values
place header ((key, value) ∷ row) values =
    place header row
      (elim (header_index header key) [ none ↦ values | some i ↦ set values i value ])

abbrev pub blanks : List String → List String
blanks [] = []
blanks (name ∷ names) = "" ∷ blanks names

-- Texts with commas between them.
unfoldable pub comma_separated : List String → String
comma_separated [] = ""
comma_separated (v ∷ []) = v
comma_separated (v ∷ (w ∷ vs)) = v <> ("," <> comma_separated (w ∷ vs))

-- `can_open` is whether the file opens; `good` is what `good()` says afterwards. Opening clears the
-- file, and the header is written only once.
unfoldable pub open_ : Bool → Bool → CsvRecorder → Bool × CsvRecorder
open_ can_open good r =
    if r.is_open
    then (true, r)
    else if can_open
    then (
      good,
      record r {
        is_open = true;
        header_written = true;
        file = if r.header_written then "" else comma_separated r.header <> "\n";
      },
    )
    else (false, r)

unfoldable pub close : CsvRecorder → CsvRecorder
close r = record r { is_open = false }

unfoldable pub write_row : Bool → CsvRow → CsvRecorder → Bool × CsvRecorder
write_row good row r =
    let values = place r.header row (blanks r.header) in
    (good, record r { file = r.file <> (comma_separated values <> "\n") })

-- `record`
unfoldable pub record_row : Bool → CsvRow → CsvRecorder → Bool × CsvRecorder
record_row good row r = if r.is_open then write_row good row r else (false, r)

unfoldable pub motor_cmd_to_row : Format → Timestamps → MotorCommands → CsvRow
motor_cmd_to_row fmt ts cmd =
    ("t_epoch_s", fmt.double ts.epoch_s)
    ∷ ("t_mono_s", fmt.double ts.mono_s)
    ∷ ("m1", fmt.int cmd.m1)
    ∷ ("m2", fmt.int cmd.m2)
    ∷ ("m3", fmt.int cmd.m3)
    ∷ ("m4", fmt.int cmd.m4)
    ∷ []

unfoldable pub state_to_row : Format → Timestamps → States → CsvRow
state_to_row fmt ts state =
    ("t_epoch_s", fmt.double ts.epoch_s)
    ∷ ("t_mono_s", fmt.double ts.mono_s)
    ∷ ("ax", fmt.float state.imu.acc.x)
    ∷ ("ay", fmt.float state.imu.acc.y)
    ∷ ("az", fmt.float state.imu.acc.z)
    ∷ ("gx", fmt.float state.imu.gyro.x)
    ∷ ("gy", fmt.float state.imu.gyro.y)
    ∷ ("gz", fmt.float state.imu.gyro.z)
    ∷ ("mx", fmt.float state.imu.mag.x)
    ∷ ("my", fmt.float state.imu.mag.y)
    ∷ ("mz", fmt.float state.imu.mag.z)
    ∷ ("roll_deg", fmt.float state.ang.roll)
    ∷ ("pitch_deg", fmt.float state.ang.pitch)
    ∷ ("yaw_deg", fmt.float state.ang.yaw)
    ∷ ("enc1", fmt.int state.enc.e1)
    ∷ ("enc2", fmt.int state.enc.e2)
    ∷ ("enc3", fmt.int state.enc.e3)
    ∷ ("enc4", fmt.int state.enc.e4)
    ∷ []

unfoldable pub record_motor_cmd :
    Format → Bool → Timestamps → MotorCommands → CsvRecorder → Bool × CsvRecorder
record_motor_cmd fmt good ts cmd r =
    if r.is_open then write_row good (motor_cmd_to_row fmt ts cmd) r else (false, r)

unfoldable pub record_state : Format → Bool → Timestamps → States → CsvRecorder → Bool × CsvRecorder
record_state fmt good ts state r =
    if r.is_open then write_row good (state_to_row fmt ts state) r else (false, r)
