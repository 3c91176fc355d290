-- ===== src/Decoder.antt =====
-- cpp_gateway/app/decode_gateway_log.cpp: the program that turns a log file into three CSV files.
-- Decoder.Names has its file names and its command line.
pub mod Names
pub mod Contents
pub mod Cut
pub mod Rows
use Prim.Native.String.{String, ◌++◌ as ◌<>◌}
use stm32_board.Base.{
  ℕ, zero, suc, ◌+◌, ◌%◌, ◌^◌, List, [], ◌∷◌, ◌++◌, Bool, true, false, not, ◌&&◌, ltb, ◌==◌,
  if◌then◌else◌, Option, none, some, length, take, drop, get_or,
}
use stm32_board.Base.Int.{ℤ}
use stm32_board.Core.{Vec3d}
use stm32_board.Wire.{read_u32_le}
use stm32_board.Shared.{StateSample, MotorCommandsSample}
use stm32_board.BinaryLog.{
  RecordHeader, record_header_at, state_record, cmd_record, event_record, file_header_size,
  record_header_size,
}
use stm32_board.BinaryLog.Samples.{state_sample_at, motor_sample_at}

-- What `<<` writes between two commas. The library formats a double, a float or an integer.
pub data Cell : Type 0 where
  double float : ℕ → Cell
  unsigned : ℕ → Cell
  int : ℤ → Cell
  text : String → Cell

abbrev pub Row : Type 0
Row = List Cell

unfoldable pub record_type_name : ℕ → String
record_type_name t =
    if t == state_record
    then "STATE"
    else if t == cmd_record
    then "ACTION"
    else if t == event_record
    then "EVENT"
    else "UNKNOWN"

-- The type of an event is a byte of the file, perhaps of no `EventType`.
unfoldable pub event_type_name : ℕ → String
event_type_name t =
    if t == 0
    then "BEEP"
    else if t == 1
    then "FLAG_RISE"
    else if t == 2
    then "CONFIG_APPLIED"
    else "UNKNOWN"

-- The first lines of the three files, by column.
abbrev pub state_columns : List String
state_columns =
    "epoch_s" ∷ "mono_s" ∷ "seq" ∷ "roll" ∷ "pitch" ∷ "yaw" ∷ "gx" ∷ "gy" ∷ "gz" ∷ "ax" ∷ "ay"
    ∷ "az" ∷ "mx" ∷ "my" ∷ "mz" ∷ "e1" ∷ "e2" ∷ "e3" ∷ "e4" ∷ "battery_voltage" ∷ []

abbrev pub cmd_columns : List String
cmd_columns = "epoch_s" ∷ "mono_s" ∷ "seq" ∷ "m1" ∷ "m2" ∷ "m3" ∷ "m4" ∷ "beep_ms" ∷ "flags" ∷ []

abbrev pub event_columns : List String
event_columns =
    "epoch_s" ∷ "mono_s" ∷ "event_type" ∷ "event_seq" ∷ "data0" ∷ "data1" ∷ "data2" ∷ "data3"
    ∷ "aux_u32" ∷ []

abbrev vec3_cells : Vec3d → Row
vec3_cells v = float v.x ∷ float v.y ∷ float v.z ∷ []

unfoldable pub state_row : RecordHeader → StateSample → Row
state_row rh s =
    double rh.epoch_s
    ∷ double rh.mono_s
    ∷ unsigned s.seq
    ∷ float s.st.ang.roll
    ∷ float s.st.ang.pitch
    ∷ float s.st.ang.yaw
    ∷ (vec3_cells s.st.imu.gyro
        ++ (vec3_cells s.st.imu.acc
            ++ (vec3_cells s.st.imu.mag
                ++ (int s.st.enc.e1
                    ∷ int s.st.enc.e2
                    ∷ int s.st.enc.e3
                    ∷ int s.st.enc.e4
                    ∷ float s.st.battery_voltage
                    ∷ []))))

unfoldable pub cmd_row : RecordHeader → MotorCommandsSample → Row
cmd_row rh cmd =
    double rh.epoch_s
    ∷ double rh.mono_s
    ∷ unsigned cmd.seq
    ∷ int cmd.motors.m1
    ∷ int cmd.motors.m2
    ∷ int cmd.motors.m3
    ∷ int cmd.motors.m4
    ∷ []

-- The row of the event that the bytes hold behind its timestamps.
unfoldable pub event_row : RecordHeader → List ℕ → Row
event_row rh payload =
    double rh.epoch_s
    ∷ double rh.mono_s
    ∷ text (event_type_name (get_or payload 16 0))
    ∷ unsigned (read_u32_le (drop 17 payload))
    ∷ unsigned (get_or payload 21 0)
    ∷ unsigned (get_or payload 22 0)
    ∷ unsigned (get_or payload 23 0)
    ∷ unsigned (get_or payload 24 0)
    ∷ unsigned (read_u32_le (drop 25 payload))
    ∷ []

-- The rows of the three files, and the counters.
pub record Decoded : Type 0 where
  pub state_csv : List Row
  pub cmd_csv : List Row
  pub event_csv : List Row
  pub n_records : ℕ
  pub n_skipped : ℕ

abbrev pub nothing : Decoded
nothing = record { state_csv = []; cmd_csv = []; event_csv = []; n_records = 0; n_skipped = 0 }

unfoldable pub skip : Decoded → Decoded
skip d = record d { n_skipped = (d.n_skipped + 1) % 2 ^ 64 }

-- A whole record. The counters are of 64 bits.
unfoldable pub decode_record : RecordHeader → List ℕ → Decoded → Decoded
unfolding skip
decode_record rh payload d0 =
    let d = record d0 { n_records = (d0.n_records + 1) % 2 ^ 64 } in
    if rh.type_ == state_record
    then (if rh.payload_len == 88
        then record d { state_csv = d.state_csv ++ state_row rh (state_sample_at payload) ∷ [] }
        else skip d)
    else if rh.type_ == cmd_record
    then (if rh.payload_len == 28
        then record d { cmd_csv = d.cmd_csv ++ cmd_row rh (motor_sample_at payload) ∷ [] }
        else skip d)
    else if rh.type_ == event_record
    then (if rh.payload_len == 29
        then record d { event_csv = d.event_csv ++ event_row rh payload ∷ [] }
        else skip d)
    else skip d

-- `in.read(dst, n)` of a file: whether it stored `n` bytes, what it stored, and what is left.
unfoldable pub read_exact : List ℕ → ℕ → Bool × List ℕ × List ℕ
read_exact input n = (length (take n input) == n, take n input, drop n input)

-- The loop over the records, by fuel.
unfoldable pub decode_loop : ℕ → List ℕ → Decoded → Decoded
decode_loop zero input d = d
decode_loop (suc fuel) input d =
    let (whole, head, input') = read_exact input record_header_size in
    let rh = record_header_at head in
    let (complete, payload, input'') = read_exact input' rh.payload_len in
    let all = decode_loop fuel input'' (decode_record rh payload d) in
    if not whole then d else if ltb 0 rh.payload_len && not complete then d else all

-- The part of `main` behind its arguments: the bytes of the input, if it opens, and whether the three
-- outputs open. No result is the exit code 1. An unexpected magic number or version is only reported.
unfoldable pub decode_log : Option (List ℕ) → Bool → Option Decoded
decode_log none outputs_open = none
decode_log (some input) outputs_open =
    let (whole, head, input') = read_exact input file_header_size in
    if not whole
    then none
    else if not outputs_open
    then none
    else some (decode_loop (suc (length input)) input' nothing)
