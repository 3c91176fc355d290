-- ===== src/LogWorker/Rows.antt =====
-- The rows that the decoder makes of the samples that the worker logs.
use Prim.Native.String.{String}
use stm32_board.Base.{◌≡◌, refl, ap₂, ◌∙◌, List, [], ◌∷◌, map, All, drop}
use stm32_board.Wire.{write_u32_le}
use stm32_board.Wire.Words.{read_u32_le-write_u32_le}
use stm32_board.Config.{EventType, beep, flag_rise, config_applied}
use stm32_board.Shared.{StateSample, MotorCommandsSample, EventSample}
use stm32_board.BinaryLog.{state_record, cmd_record, write_f64}
use stm32_board.BinaryLog.Samples.{event_sample_bytes, event_type_byte}
use stm32_board.BinaryLog.SampleBytes.{
  StateSampleInRange, MotorSampleInRange, EventSampleInRange, length-state_sample_bytes,
  length-motor_sample_bytes, length-event_sample_bytes, state_sample_at-bytes,
  motor_sample_at-bytes,
}
use stm32_board.Decoder.{
  Row, double, unsigned, text, nothing, state_row, cmd_row, event_row, decode_record,
  event_type_name,
}
use stm32_board.Decoder.Contents.{stored, decode_all}
use stm32_board.Decoder.Rows.{csvs, both, rows, rows-cons}
use stm32_board.LogWorker.{sample_header}
use stm32_board.LogWorker.Batch.{of_state, of_cmd, of_event}

-- The row that stands for a sample.
abbrev pub state_cells : StateSample → Row
state_cells s = state_row (sample_header state_record s.ts) s

abbrev pub cmd_cells : MotorCommandsSample → Row
cmd_cells a = cmd_row (sample_header cmd_record a.ts) a

abbrev event_name : EventType → String
event_name beep = "BEEP"
event_name flag_rise = "FLAG_RISE"
event_name config_applied = "CONFIG_APPLIED"

abbrev pub event_cells : EventSample → Row
event_cells e =
    double e.ts.epoch_s
    ∷ double e.ts.mono_s
    ∷ text (event_name e.ev.type_)
    ∷ unsigned e.ev.seq
    ∷ unsigned e.ev.data0
    ∷ unsigned e.ev.data1
    ∷ unsigned e.ev.data2
    ∷ unsigned e.ev.data3
    ∷ unsigned e.ev.aux_u32
    ∷ []

event_type_name-byte : (t : EventType) → event_type_name (event_type_byte t) ≡ event_name t
unfolding event_type_name event_type_byte
event_type_name-byte beep = refl
event_type_name-byte flag_rise = refl
event_type_name-byte config_applied = refl

-- The rows that the decoder makes of one sample.
one_state :
    (s : StateSample)
    → StateSampleInRange s
    → csvs (decode_record (stored (of_state s)) (of_state s).payload nothing)
      ≡ (state_cells s ∷ [], [], [])
unfolding decode_record sample_header state_row
one_state s r = simp (length-state_sample_bytes s, state_sample_at-bytes s r)

one_cmd :
    (a : MotorCommandsSample)
    → MotorSampleInRange a
    → csvs (decode_record (stored (of_cmd a)) (of_cmd a).payload nothing)
      ≡ ([], cmd_cells a ∷ [], [])
unfolding decode_record sample_header cmd_row
one_cmd a r = simp (length-motor_sample_bytes a, motor_sample_at-bytes a r)

event_row-bytes :
    (e : EventSample)
    → EventSampleInRange e
    → event_row (stored (of_event e)) (event_sample_bytes e) ≡ event_cells e
unfolding event_row event_sample_bytes write_f64 write_u32_le sample_header
event_row-bytes e r =
    let bytes = event_sample_bytes e in
    (λ i.
      double e.ts.epoch_s
      ∷ double e.ts.mono_s
      ∷ text (event_type_name-byte e.ev.type_ i)
      ∷ unsigned (read_u32_le-write_u32_le e.ev.seq (drop 21 bytes) r.seq i)
      ∷ unsigned e.ev.data0
      ∷ unsigned e.ev.data1
      ∷ unsigned e.ev.data2
      ∷ unsigned e.ev.data3
      ∷ unsigned (read_u32_le-write_u32_le e.ev.aux_u32 (drop 29 bytes) r.aux_u32 i)
      ∷ [])

one_event :
    (e : EventSample)
    → EventSampleInRange e
    → csvs (decode_record (stored (of_event e)) (of_event e).payload nothing)
      ≡ ([], [], event_cells e ∷ [])
unfolding decode_record sample_header event_row
one_event e r = simp (length-event_sample_bytes e, event_row-bytes e r)

pub rows-states :
    (xs : List StateSample)
    → All StateSampleInRange xs
    → rows (map of_state xs) ≡ (map state_cells xs, [], [])
unfolding decode_all
rows-states [] h = refl
rows-states (x ∷ xs) (h, hs) =
    rows-cons (of_state x) (map of_state xs) ∙ ap₂ both (one_state x h) (rows-states xs hs)

pub rows-cmds :
    (xs : List MotorCommandsSample)
    → All MotorSampleInRange xs
    → rows (map of_cmd xs) ≡ ([], map cmd_cells xs, [])
unfolding decode_all
rows-cmds [] h = refl
rows-cmds (x ∷ xs) (h, hs) =
    rows-cons (of_cmd x) (map of_cmd xs) ∙ ap₂ both (one_cmd x h) (rows-cmds xs hs)

pub rows-events :
    (xs : List EventSample)
    → All EventSampleInRange xs
    → rows (map of_event xs) ≡ ([], [], map event_cells xs)
unfolding decode_all
rows-events [] h = refl
rows-events (x ∷ xs) (h, hs) =
    rows-cons (of_event x) (map of_event xs) ∙ ap₂ both (one_event x h) (rows-events xs hs)
