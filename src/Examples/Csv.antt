-- ===== src/Examples/Csv.antt =====
-- Rows of the CSV recorder.
use Prim.Native.String.{String}
use stm32_board.Base.{◌≡◌, refl, List, [], ◌∷◌, get_or, true, false}
use stm32_board.Core.{zero_motor_commands}
use stm32_board.Shared.{zero_timestamps}
use stm32_board.Csv.{
  CsvRow, CsvRecorder, Format, blanks, header_index, place, motors_cmd_header, open_, close,
  motor_cmd_to_row, write_row, record_motor_cmd, comma_separated,
}
use stm32_board.Csv.Columns.{last_value, place-column}

-- Out of order, with a name of no column and a name that comes twice.
abbrev row : CsvRow
row = ("m2", "20") ∷ ("x", "0") ∷ ("m1", "9") ∷ ("m1", "10") ∷ []

abbrev empty_values : List String
empty_values = blanks motors_cmd_header

place-column_example :
    get_or (place motors_cmd_header row empty_values) 2 ""
    ≡ last_value row "m1" (get_or empty_values 2 "")
unfolding header_index
place-column_example = place-column motors_cmd_header row "m1" 2 empty_values refl refl

abbrev fmt : Format
fmt = record { double = λ x. "0.000000"; float = λ x. "0.000000"; int = λ n. "0" }

abbrev recorder : CsvRecorder
recorder = record { header = motors_cmd_header; is_open = false; header_written = false; file = "" }

one_row :
    (record_motor_cmd fmt true zero_timestamps zero_motor_commands
      (open_ true true recorder).1).1.file
    ≡ "t_epoch_s,t_mono_s,m1,m2,m3,m4\n0.000000,0.000000,0,0,0,0\n"
unfolding open_ record_motor_cmd write_row motor_cmd_to_row place header_index comma_separated
one_row = refl

-- A recorder that is closed and opened again starts an empty file, with no header.
reopened : (open_ true true (close (open_ true true recorder).1)).1.file ≡ ""
unfolding open_ close
reopened = refl
