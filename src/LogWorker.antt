-- ===== src/LogWorker.antt =====
-- cpp_gateway/app/workers/log_worker.cpp: the worker that moves the samples of the rings into the log.
-- The texts of its log lines are left out, not what they report.
pub mod Batch
pub mod Rounds
pub mod Rows
pub mod Table
pub mod Files
use Prim.Native.String.{String}
use stm32_board.Base.{
  ℕ, zero, suc, ◌+◌, ◌*◌, ◌%◌, ◌^◌, List, [], ◌∷◌, ◌++◌, Bool, true, false, not, ◌==◌,
  if◌then◌else◌, Option, none, some,
}
use stm32_board.Core.{Timestamps}
use stm32_board.Float.{Fpu, f64_zero, f64_one, f64_five, f64_fifth}
use stm32_board.Config.{RuntimeConfig}
use stm32_board.Ring.{SpscOverwriteRing, drain}
use stm32_board.Shared.{
  SharedState, StateSample, MotorCommandsSample, EventSample, state_ring_capacity,
  log_ring_capacity, blank_state_sample, blank_motor_sample, blank_event_sample,
}
use stm32_board.BinaryLog.{Os, RecordHeader, blank_record, state_record, cmd_record, event_record}
use stm32_board.BinaryLog.Rotating.{RotatingBinaryLog, blank_log, open_, close, write_record}
use stm32_board.BinaryLog.Samples.{state_sample_bytes, motor_sample_bytes, event_sample_bytes}

-- The header that the worker fills; `write_record` adds the size.
unfoldable pub sample_header : ℕ → Timestamps → RecordHeader
sample_header type_ ts = record blank_record {
  type_ = type_;
  epoch_s = ts.epoch_s;
  mono_s = ts.mono_s;
}

-- The log before the first round: `session_tag` is the time at which it is opened.
unfoldable pub open_log : Os → String → Option RuntimeConfig → RotatingBinaryLog
open_log os session_tag none =
    (open_ os session_tag "./logs/gateway.bin" (256 * 1024 * 1024) 10 blank_log).1
open_log os session_tag (some cfg) =
    if cfg.binary_log
    then (open_ os session_tag cfg.log_path (cfg.log_rotate_mb * 1024 * 1024 % 2 ^ 64)
        cfg.log_rotate_keep blank_log).1
    else blank_log

module _ (os : Os) where
  -- The function that each `drain` calls.
  unfoldable pub log_state : StateSample → RotatingBinaryLog → RotatingBinaryLog
  log_state s l =
      if not l.writer.is_open
      then l
      else (write_record os (sample_header state_record s.ts) (state_sample_bytes s) 88 l).1

  unfoldable pub log_cmd : MotorCommandsSample → RotatingBinaryLog → RotatingBinaryLog
  log_cmd a l =
      if not l.writer.is_open
      then l
      else (write_record os (sample_header cmd_record a.ts) (motor_sample_bytes a) 28 l).1

  unfoldable pub log_event : EventSample → RotatingBinaryLog → RotatingBinaryLog
  log_event e l =
      if not l.writer.is_open
      then l
      else (write_record os (sample_header event_record e.ts) (event_sample_bytes e) 29 l).1

  -- The four drains of a round.
  unfoldable pub log_round : SharedState → RotatingBinaryLog → SharedState × RotatingBinaryLog
  log_round sh l =
      let (n1, states, l1) =
        drain state_ring_capacity blank_state_sample 1024 log_state sh.state_ring l in
      let (n2, cmds, l2) = drain log_ring_capacity blank_motor_sample 1024 log_cmd sh.cmd_ring l1 in
      let (n3, events, l3) =
        drain log_ring_capacity blank_event_sample 1024 log_event sh.event_ring l2 in
      let (n4, sys_events, l4) =
        drain log_ring_capacity blank_event_sample 1024 log_event sh.sys_event_ring l3 in
      (
        record sh {
          state_ring = states;
          cmd_ring = cmds;
          event_ring = events;
          sys_event_ring = sys_events;
        },
        l4,
      )

  -- Rounds with nobody else at work.
  unfoldable pub log_rounds : ℕ → SharedState → RotatingBinaryLog → SharedState × RotatingBinaryLog
  log_rounds zero sh l = (sh, l)
  log_rounds (suc n) sh l = let (sh', l') = log_round sh l in log_rounds n sh' l'

  -- The worker as a whole: `changes` are what the others do to the shared state before each round, up
  -- to the request to stop.
  unfoldable pub log_loop :
      List (SharedState → SharedState)
      → SharedState
      → RotatingBinaryLog
      → SharedState × RotatingBinaryLog
  log_loop [] sh l = (sh, close l)
  log_loop (change ∷ changes) sh l =
      let (sh', l') = log_round (change sh) l in log_loop changes sh' l'

-- The counters of dropped items that the worker watches.
pub record Drops : Type 0 where
  pub state_d : ℕ
  pub cmd_d : ℕ
  pub event_d : ℕ
  pub sys_event_d : ℕ
  pub event_q_d : ℕ
  pub sys_q_d : ℕ

unfoldable pub drops_of : SharedState → Drops
drops_of sh = record {
  state_d = sh.state_ring.drops;
  cmd_d = sh.cmd_ring.drops;
  event_d = sh.event_ring.drops;
  sys_event_d = sh.sys_event_ring.drops;
  event_q_d = sh.event_cmd_q.drops;
  sys_q_d = sh.sys_event_q.drops;
}

unfoldable pub warn_changed : String → ℕ → ℕ → List (String × ℕ)
warn_changed name before now = if now == before then [] else (name, now) ∷ []

-- The warnings that are due after a round, with the counters to compare with next time. `seconds` is
-- the library's difference of two readings of the clock as a double.
unfoldable pub drop_warnings :
    Fpu → (ℕ → ℕ → ℕ) → ℕ → ℕ → SharedState → Drops → ℕ × Drops × List (String × ℕ)
unfolding warn_changed
drop_warnings fpu seconds now last_warn sh last =
    let d = drops_of sh in
    if fpu.le f64_one (seconds now last_warn)
    then (
      now,
      d,
      warn_changed "state_ring" last.state_d d.state_d
          ++ (warn_changed "cmd_ring" last.cmd_d d.cmd_d
              ++ (warn_changed "event_ring" last.event_d d.event_d
                  ++ (warn_changed "sys_event_ring" last.sys_event_d d.sys_event_d
                      ++ (warn_changed "event_cmd_q" last.event_q_d d.event_q_d
                          ++ warn_changed "sys_event_q" last.sys_q_d d.sys_q_d)))),
    )
    else (last_warn, last, [])

-- What the health line reports; `now` is the time in seconds.
pub record Health : Type 0 where
  pub drops : Drops
  pub cmd_age : ℕ
  pub timeout : ℕ

-- -1.0
abbrev f64_minus_one : ℕ
f64_minus_one = 0xbff0_0000_0000_0000

unfoldable pub health : Fpu → ℕ → SharedState → Health
health fpu now sh = record {
  drops = drops_of sh;
  cmd_age =
      if fpu.lt f64_zero sh.last_cmd_rx_mono_s
      then fpu.sub now sh.last_cmd_rx_mono_s
      else f64_minus_one;
  timeout = elim sh.cfg [ none ↦ f64_fifth | some cfg ↦ cfg.cmd_timeout_s ];
}

-- The report that is due after a round, every five seconds.
unfoldable pub health_report : Fpu → (ℕ → ℕ → ℕ) → ℕ → ℕ → ℕ → SharedState → ℕ × Option Health
health_report fpu seconds now last_info mono_s sh =
    if fpu.le f64_five (seconds now last_info)
    then (now, some (health fpu mono_s sh))
    else (last_info, none)
