-- ===== src/Csv/Paths.antt =====
-- cpp_gateway/src/utils/csv_recorder.cpp and include/utils/csv_recorder.hpp: the two recorders and the
-- paths of their files. Creating the directory and the line on the console are left out.
use Prim.Native.String.{String, ◌++◌ as ◌<>◌}
use text.Mathlib.Text.{◌==◌ as ◌≐◌}
use stm32_board.Base.{List, Option, none, some, if◌then◌else◌}
use stm32_board.Csv.{CsvRecorder, csv_recorder, state_header, motors_cmd_header}

-- `join` is the library's `/` of paths, and `timestamp` the time as it stands in names of files.
module _ (join : String → String → String) (timestamp : String) where
  unfoldable pub build_path : String → String → String
  build_path recorder_dir prefix =
      join recorder_dir
        (if prefix ≐ "" then timestamp <> ".csv" else prefix <> ("_" <> (timestamp <> ".csv")))

  -- `CSVRecorder(dir, prefix, header)`: the path and the recorder, or an exception.
  unfoldable pub recorder_at : String → String → List String → Option (String × CsvRecorder)
  recorder_at recorder_dir prefix header = elim (csv_recorder header) [
    | none ↦ none
    | some r ↦ some (build_path recorder_dir prefix, r)
  ]

  -- `CSVStatesRecorder` and `CSVCommandRecorder`
  unfoldable pub states_recorder : String → String → Option (String × CsvRecorder)
  states_recorder path prefix = recorder_at path prefix state_header

  unfoldable pub command_recorder : String → String → Option (String × CsvRecorder)
  command_recorder path prefix = recorder_at path prefix motors_cmd_header
