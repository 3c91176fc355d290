-- ===== src/LogWorker/Batch.antt =====
-- A round of the log worker writes the oldest samples of each ring, one record each.
use stm32_board.Base.{
  ℕ, ◌≡◌, refl, sym, ap, ◌∙◌, List, [], ◌∷◌, ◌++◌, map, false, not, Bool-cases, inl, inr, take,
  drop, if◌then◌else◌,
}
use stm32_board.Ring.{SpscOverwriteRing, drain}
use stm32_board.Ring.Refine.{IsValid, contents}
use stm32_board.Ring.Drain.{fold, drain_lem}
use stm32_board.Shared.{
  SharedState, StateSample, MotorCommandsSample, EventSample, state_ring_capacity,
  log_ring_capacity, blank_state_sample, blank_motor_sample, blank_event_sample,
}
use stm32_board.BinaryLog.{Os, RecordHeader, state_record, cmd_record, event_record}
use stm32_board.BinaryLog.Rotating.{
  RotatingBinaryLog, write_record, rotate_if_needed, after_rotation,
}
use stm32_board.BinaryLog.Samples.{state_sample_bytes, motor_sample_bytes, event_sample_bytes}
use stm32_board.BinaryLog.SampleBytes.{
  length-state_sample_bytes, length-motor_sample_bytes, length-event_sample_bytes,
}
use stm32_board.BinaryLog.Contents.{LoggedRecord, write_records}
use stm32_board.LogWorker.{sample_header, log_state, log_cmd, log_event, log_round}

-- The record of a sample.
abbrev pub of_state : StateSample → LoggedRecord
of_state s = record { header = sample_header state_record s.ts; payload = state_sample_bytes s }

abbrev pub of_cmd : MotorCommandsSample → LoggedRecord
of_cmd a = record { header = sample_header cmd_record a.ts; payload = motor_sample_bytes a }

abbrev pub of_event : EventSample → LoggedRecord
of_event e = record { header = sample_header event_record e.ts; payload = event_sample_bytes e }

-- The samples in the four rings, oldest first.
pub record Samples : Type 0 where
  pub states : List StateSample
  pub cmds : List MotorCommandsSample
  pub events : List EventSample
  pub sys_events : List EventSample

unfoldable pub samples : SharedState → Samples
samples sh = record {
  states = contents state_ring_capacity blank_state_sample sh.state_ring;
  cmds = contents log_ring_capacity blank_motor_sample sh.cmd_ring;
  events = contents log_ring_capacity blank_event_sample sh.event_ring;
  sys_events = contents log_ring_capacity blank_event_sample sh.sys_event_ring;
}

pub record RingsValid (sh : SharedState) : Type 0 where
  pub states : IsValid state_ring_capacity sh.state_ring
  pub cmds : IsValid log_ring_capacity sh.cmd_ring
  pub events : IsValid log_ring_capacity sh.event_ring
  pub sys_events : IsValid log_ring_capacity sh.sys_event_ring

-- The records of one round, and the samples that it leaves.
unfoldable pub batch : Samples → List LoggedRecord
batch q =
    map of_state (take 1024 q.states)
    ++ (map of_cmd (take 1024 q.cmds)
        ++ (map of_event (take 1024 q.events) ++ map of_event (take 1024 q.sys_events)))

unfoldable pub rest : Samples → Samples
rest q = record {
  states = drop 1024 q.states;
  cmds = drop 1024 q.cmds;
  events = drop 1024 q.events;
  sys_events = drop 1024 q.sys_events;
}

module _ (os : Os) where
  -- A log that is not open takes no record.
  pub write_record_closed :
      (h : RecordHeader) (payload : List ℕ) (n : ℕ) (l : RotatingBinaryLog)
      → l.writer.is_open ≡ false
      → write_record os h payload n l ≡ (false, l)
  unfolding write_record after_rotation rotate_if_needed
  write_record_closed h payload n l e = simp e

  -- So the worker's test of `is_open` changes nothing.
  guard :
      (h : RecordHeader) (payload : List ℕ) (n : ℕ) (l : RotatingBinaryLog)
      → (if not l.writer.is_open then l else (write_record os h payload n l).1)
        ≡ (write_record os h payload n l).1
  guard h payload n l = elim (Bool-cases l.writer.is_open) [
    | inl e ↦ simp e
    | inr e ↦ simp (e, write_record_closed h payload n l e)
  ]

  pub write_records-append :
      (xs ys : List LoggedRecord) (l : RotatingBinaryLog)
      → write_records os (xs ++ ys) l ≡ write_records os ys (write_records os xs l)
  unfolding write_records
  write_records-append [] ys l = refl
  write_records-append (x ∷ xs) ys l = write_records-append xs ys _

  -- A function that writes one record each, over a list.
  fold-write_records :
      {T : Type 0} (fn : T → RotatingBinaryLog → RotatingBinaryLog) (of : T → LoggedRecord)
      → ((x : T) (l : RotatingBinaryLog) → fn x l ≡ write_records os (of x ∷ []) l)
      → (xs : List T) (l : RotatingBinaryLog) → fold fn l xs ≡ write_records os (map of xs) l
  unfolding write_records
  fold-write_records fn of each [] l = refl
  fold-write_records fn of each (x ∷ xs) l =
      ap (λ l'. fold fn l' xs) (each x l) ∙ fold-write_records fn of each xs _

  log_state-record :
      (s : StateSample) (l : RotatingBinaryLog)
      → log_state os s l ≡ write_records os (of_state s ∷ []) l
  unfolding log_state write_records
  log_state-record s l =
      guard (sample_header state_record s.ts) (state_sample_bytes s) 88 l
      ∙ ap (λ n. (write_record os (sample_header state_record s.ts) (state_sample_bytes s) n l).1)
          (sym (length-state_sample_bytes s))

  log_cmd-record :
      (a : MotorCommandsSample) (l : RotatingBinaryLog)
      → log_cmd os a l ≡ write_records os (of_cmd a ∷ []) l
  unfolding log_cmd write_records
  log_cmd-record a l =
      guard (sample_header cmd_record a.ts) (motor_sample_bytes a) 28 l
      ∙ ap (λ n. (write_record os (sample_header cmd_record a.ts) (motor_sample_bytes a) n l).1)
          (sym (length-motor_sample_bytes a))

  log_event-record :
      (e : EventSample) (l : RotatingBinaryLog)
      → log_event os e l ≡ write_records os (of_event e ∷ []) l
  unfolding log_event write_records
  log_event-record e l =
      guard (sample_header event_record e.ts) (event_sample_bytes e) 29 l
      ∙ ap (λ n. (write_record os (sample_header event_record e.ts) (event_sample_bytes e) n l).1)
          (sym (length-event_sample_bytes e))

  -- A drain of one ring.
  drain-write_records :
      {T : Type 0} (capacity : ℕ) (blank : T) (fn : T → RotatingBinaryLog → RotatingBinaryLog)
      (of : T → LoggedRecord)
      → ((x : T) (l : RotatingBinaryLog) → fn x l ≡ write_records os (of x ∷ []) l)
      → (r : SpscOverwriteRing T) (l : RotatingBinaryLog) → IsValid capacity r
      → let q = contents capacity blank r in
        let (k, r', l') = drain capacity blank 1024 fn r l in
        (contents capacity blank r' ≡ drop 1024 q)
        × (l' ≡ write_records os (map of (take 1024 q)) l)
        × IsValid capacity r'
  drain-write_records capacity blank fn of each r l v =
      let d = drain_lem capacity blank fn 1024 r l v in
      (d.1, d.2 ∙ fold-write_records fn of each (take 1024 (contents capacity blank r)) l, d.3)

  -- Four lists of records, one after the other.
  four :
      (a b c d : List LoggedRecord) (l l1 l2 l3 l4 : RotatingBinaryLog)
      → l1 ≡ write_records os a l
      → l2 ≡ write_records os b l1
      → l3 ≡ write_records os c l2
      → l4 ≡ write_records os d l3
      → l4 ≡ write_records os (a ++ (b ++ (c ++ d))) l
  four a b c d l l1 l2 l3 l4 e1 e2 e3 e4 =
      e4
      ∙ ap (write_records os d) (e3 ∙ ap (write_records os c) (e2 ∙ ap (write_records os b) e1))
      ∙ sym (
          write_records-append a (b ++ (c ++ d)) l
          ∙ write_records-append b (c ++ d) (write_records os a l)
          ∙ write_records-append c d (write_records os b (write_records os a l)))

  -- A round takes the 1024 oldest samples out of each ring and hands `write_record` one record of each,
  -- in order, states first, then commands, events and system events; the others stay in the rings,
  -- which were valid and stay so. What `write_record` makes of a record is left open.
  pub log_round-batch :
      (sh : SharedState) (l : RotatingBinaryLog)
      → RingsValid sh
      → let (sh', l') = log_round os sh l in
        (samples sh' ≡ rest (samples sh))
        × (l' ≡ write_records os (batch (samples sh)) l)
        × RingsValid sh'
  unfolding log_round samples rest batch
  log_round-batch sh l v =
      let ds =
        drain-write_records state_ring_capacity blank_state_sample (log_state os) of_state
          log_state-record sh.state_ring l v.states in
      let (n1, r1, l1) =
        drain state_ring_capacity blank_state_sample 1024 (log_state os) sh.state_ring l in
      let dc =
        drain-write_records log_ring_capacity blank_motor_sample (log_cmd os) of_cmd log_cmd-record
          sh.cmd_ring l1 v.cmds in
      let (n2, r2, l2) =
        drain log_ring_capacity blank_motor_sample 1024 (log_cmd os) sh.cmd_ring l1 in
      let de =
        drain-write_records log_ring_capacity blank_event_sample (log_event os) of_event
          log_event-record sh.event_ring l2 v.events in
      let (n3, r3, l3) =
        drain log_ring_capacity blank_event_sample 1024 (log_event os) sh.event_ring l2 in
      let dx =
        drain-write_records log_ring_capacity blank_event_sample (log_event os) of_event
          log_event-record sh.sys_event_ring l3 v.sys_events in
      (
        (λ i. record { states = ds.0 i; cmds = dc.0 i; events = de.0 i; sys_events = dx.0 i }),
        four _ _ _ _ l l1 l2 l3 _ ds.1 dc.1 de.1 dx.1,
        record { states = ds.2; cmds = dc.2; events = de.2; sys_events = dx.2 },
      )
