-- ===== src/Examples/Log.antt =====
-- The log of a gateway with one sample in each ring.
use stm32_board.Base.{
  ℕ, ◌<◌, ◌≡◌, refl, sym, subst, List, [], ◌∷◌, ◌++◌, true, arith, some, length, take,
}
use stm32_board.Core.{IsU16}
use stm32_board.Base.Int.{pos, negsuc}
use stm32_board.Ring.{SpscOverwriteRing, empty_ring, push_overwrite}
use stm32_board.Ring.Refine.{empty_ring-IsValid, push_overwrite-IsValid}
use stm32_board.Shared.{
  SharedState, StateSample, MotorCommandsSample, EventSample, fresh_shared, blank_state_sample,
  blank_motor_sample, blank_event_sample,
}
use stm32_board.BinaryLog.{Action, DirectoryEntry, Os, RecordHeader, blank_record}
use stm32_board.BinaryLog.Unremoved.{Unremoved}
use stm32_board.BinaryLog.Rotating.{RotatingBinaryLog, blank_log, open_}
use stm32_board.BinaryLog.Contents.{LoggedRecord, record_bytes, file_bytes, write_records, Working}
use stm32_board.BinaryLog.Samples.{motor_sample_bytes}
use stm32_board.BinaryLog.SampleBytes.{length-motor_sample_bytes}
use stm32_board.BinaryLog.Bounds.{Logged, open-write_records-Logged}
use stm32_board.Decoder.{nothing, decode_loop, decode_log}
use stm32_board.Decoder.Contents.{InRange, decode_all}
use stm32_board.Decoder.Cut.{decode_log-cut, decode_loop_enough}
use stm32_board.LogWorker.{sample_header, log_round, log_rounds}
use stm32_board.LogWorker.Batch.{Samples, of_cmd, samples, batch, rest, RingsValid, log_round-batch}
use stm32_board.LogWorker.Rounds.{no_samples, AtMost, log_rounds_drained}

-- A system where every call succeeds and the directory lists nothing.
abbrev calm : Os
calm = record {
  can_open = λ done. true;
  good = λ done. true;
  listing = λ done dir. [];
  sort_by_time = λ es. es;
  has_parent_path = λ path. true;
  parent_path = λ path. "logs";
  stem = λ path. "gateway";
  extension = λ path. ".bin";
  join = λ dir name. name;
  to_string = λ n. "0";
}

calm-Working : Working calm
calm-Working = record { can_open = λ done. refl; good = λ done. refl }

abbrev state_sample : StateSample
state_sample = record blank_state_sample { ts = record { epoch_s = 5; mono_s = 6 }; seq = 7 }

abbrev motor_sample : MotorCommandsSample
motor_sample = record blank_motor_sample {
  seq = 8;
  motors = record { m1 = pos 10; m2 = negsuc 9; m3 = pos 0; m4 = pos 100 };
}

abbrev event_sample : EventSample
event_sample = record blank_event_sample { ts = record { epoch_s = 1; mono_s = 2 } }

abbrev one : {T : Type 0} → ℕ → T → T → SpscOverwriteRing T
one capacity blank x = (push_overwrite capacity blank (empty_ring capacity blank) x).0

abbrev shared : SharedState
shared = record (fresh_shared 0) {
  state_ring = one 4096 blank_state_sample state_sample;
  cmd_ring = one 2048 blank_motor_sample motor_sample;
  event_ring = one 2048 blank_event_sample event_sample;
  sys_event_ring = one 2048 blank_event_sample event_sample;
}

shared-RingsValid : RingsValid shared
shared-RingsValid = record {
  states =
      push_overwrite-IsValid 4096 blank_state_sample (empty_ring 4096 blank_state_sample)
        state_sample (empty_ring-IsValid 4096 blank_state_sample (omega arith));
  cmds =
      push_overwrite-IsValid 2048 blank_motor_sample (empty_ring 2048 blank_motor_sample)
        motor_sample (empty_ring-IsValid 2048 blank_motor_sample (omega arith));
  events =
      push_overwrite-IsValid 2048 blank_event_sample (empty_ring 2048 blank_event_sample)
        event_sample (empty_ring-IsValid 2048 blank_event_sample (omega arith));
  sys_events =
      push_overwrite-IsValid 2048 blank_event_sample (empty_ring 2048 blank_event_sample)
        event_sample (empty_ring-IsValid 2048 blank_event_sample (omega arith));
}

abbrev held : Samples
held = record {
  states = state_sample ∷ [];
  cmds = motor_sample ∷ [];
  events = event_sample ∷ [];
  sys_events = event_sample ∷ [];
}

samples-shared : samples shared ≡ held
unfolding samples fresh_shared push_overwrite empty_ring stm32_board.Ring.inc
samples-shared = refl

shared-AtMost : AtMost 1024 (samples shared)
shared-AtMost = subst (AtMost 1024) (sym samples-shared) (record {
  states = omega arith;
  cmds = omega arith;
  events = omega arith;
  sys_events = omega arith;
})

log_rounds_drained_example : samples (log_rounds calm 1 shared blank_log).0 ≡ no_samples
log_rounds_drained_example =
    log_rounds_drained calm 1 shared blank_log shared-RingsValid shared-AtMost

-- A log that is open, with no limit.
abbrev open_log : RotatingBinaryLog
open_log = (open_ calm "now" "gateway.bin" 0 0 blank_log).1

open_log_is_open : open_log.writer.is_open ≡ true
unfolding open_ stm32_board.BinaryLog.Rotating.open_new_file stm32_board.BinaryLog.Rotating.opened
    stm32_board.BinaryLog.Rotating.cleanup stm32_board.BinaryLog.open_
open_log_is_open = refl

log_round-batch_example :
    let (sh', l') = log_round calm shared open_log in
    (samples sh' ≡ rest (samples shared))
    × (l' ≡ write_records calm (batch (samples shared)) open_log)
    × RingsValid sh'
log_round-batch_example = log_round-batch calm shared open_log shared-RingsValid

-- Two records in files of 64 bytes, so that the second goes to a file of its own.
abbrev two_records : List LoggedRecord
two_records = of_cmd motor_sample ∷ of_cmd motor_sample ∷ []

motor_record_size : IsU16 (length (motor_sample_bytes motor_sample))
motor_record_size = omega (arith, length-motor_sample_bytes motor_sample)

open-write_records-Logged_example :
    let (ok, l) = open_ calm "now" "gateway.bin" 64 2 blank_log in
    (ok ≡ true) × Logged 64 two_records (write_records calm two_records l).writer.done
open-write_records-Logged_example =
    open-write_records-Logged calm calm-Working "now" "gateway.bin" 64 2 two_records (omega arith)
      (motor_record_size, (motor_record_size, tt))

motor_record-InRange : InRange (of_cmd motor_sample)
unfolding sample_header
motor_record-InRange = record {
  payload_len = motor_record_size;
  epoch_s = omega arith;
  mono_s = omega arith;
}

short : 30 < length (record_bytes (of_cmd motor_sample))
unfolding stm32_board.BinaryLog.record_header_bytes motor_sample_bytes
    stm32_board.BinaryLog.write_f64 stm32_board.Wire.write_u32_le stm32_board.Wire.write_u16_le
    stm32_board.Wire.write_i16_le
short = omega arith

decode_log-cut_example :
    decode_log (some (file_bytes two_records ++ take 30 (record_bytes (of_cmd motor_sample)))) true
    ≡ some (decode_all two_records nothing)
decode_log-cut_example =
    decode_log-cut two_records (of_cmd motor_sample) 30
      (motor_record-InRange, (motor_record-InRange, tt)) motor_record-InRange short

decode_loop_enough_example : decode_loop 3 (1 ∷ 2 ∷ []) nothing ≡ decode_loop 9 (1 ∷ 2 ∷ []) nothing
decode_loop_enough_example = decode_loop_enough 3 9 (1 ∷ 2 ∷ []) nothing (omega arith) (omega arith)
