-- ===== src/Usb.antt =====
-- cpp_gateway/app/workers/usb_worker.cpp: what the USB worker writes to the board and publishes.
pub mod Safety
pub mod Published
pub mod Connect
pub mod Session
use stm32_board.Base.{
  ℕ, zero, suc, ◌+◌, ◌-◌, ◌*◌, ◌%◌, ◌^◌, List, [], ◌∷◌, ◌++◌, Bool, true, false, not, ◌&&◌, ◌||◌,
  Option, none, some, ltb, leb, if◌then◌else◌, length, min,
}
use stm32_board.Base.Int.{ℤ, pos}
use stm32_board.Core.{States, MotorCommands, Timestamps}
use stm32_board.Float.{Fpu, f64_zero, f64_fifth}
use stm32_board.Config.{
  UsbTimeoutMode, enforce, disable, EventType, beep, flag_rise, config_applied, EventCmd,
  blank_event, RuntimeConfig,
}
use stm32_board.Mailbox.{store, load_or_default, StopFlag, request_stop, stop_requested}
use stm32_board.Ring.{push_overwrite, drain}
use stm32_board.Shared.{
  SharedState, queue_capacity, state_ring_capacity, log_ring_capacity, blank_event_sample,
  blank_state_sample, blank_motor_sample, bump_serial_errors,
}
use stm32_board.Rosmaster.{set_motor, set_beep}

-- In milliseconds.
abbrev pub connect_backoff_min : ℕ
connect_backoff_min = 200

abbrev pub connect_backoff_max : ℕ
connect_backoff_max = 1000

abbrev pub connect_max_total : ℕ
connect_max_total = 5000

abbrev pub shutdown_motor_off_burst : ℕ
shutdown_motor_off_burst = 5

-- Attempts are counted from 0, so the lower bound of the clamp is never met.
unfoldable pub backoff_for_attempt : ℕ → ℕ
backoff_for_attempt attempt =
    let d = connect_backoff_min * 2 ^ min attempt 3 in
    if ltb connect_backoff_max d then connect_backoff_max else d

-- What an attempt to connect meets: the stop flag before it, whether the port opens, and the
-- milliseconds since the first attempt behind it.
pub record Attempt : Type 0 where
  pub stopping : Bool
  pub connects : Bool
  pub elapsed : ℕ

-- Whether the worker is connected, the stop flag, and the waits between the attempts; `none` while the
-- attempts go on.
unfoldable pub connect_or_request_stop :
    List Attempt → ℕ → StopFlag → Option (Bool × StopFlag × List ℕ)
connect_or_request_stop [] attempt stop = none
connect_or_request_stop (a ∷ attempts) attempt stop =
    let rest = connect_or_request_stop attempts (attempt + 1) stop in
    if a.stopping
    then some (false, request_stop stop, [])
    else if a.connects
    then some (true, stop, [])
    else if leb connect_max_total a.elapsed
    then some (false, request_stop stop, [])
    else elim rest [
      | none ↦ none
      | some (ok, stop', waits) ↦ some (ok, stop', backoff_for_attempt attempt ∷ waits)
    ]

-- The worker's variables, with the frames that it has handed to the serial port, oldest first.
pub record UsbState : Type 0 where
  pub sh : SharedState
  pub stop : StopFlag
  pub frames : List (List ℕ)
  pub state_seq : ℕ
  pub local_cmd_seq : ℕ

-- `write_all` of the port: whether it succeeds is a function of the number of writes before.
unfoldable pub write_all : (ℕ → Bool) → List ℕ → UsbState → Bool × UsbState
write_all answers frame u =
    (answers (length u.frames), record u { frames = u.frames ++ frame ∷ [] })

-- A setter of the board that may refuse its arguments.
unfoldable pub send : (ℕ → Bool) → Option (List ℕ) → UsbState → Bool × UsbState
send answers none u = (false, u)
send answers (some frame) u = write_all answers frame u

unfoldable pub cmd_fresh : Fpu → Option RuntimeConfig → ℕ → ℕ → Bool
cmd_fresh fpu cfg now_mono last_cmd_rx =
    let timeout_s : ℕ = elim cfg [ none ↦ f64_fifth | some c ↦ c.cmd_timeout_s ] in
    let timeout_mode : UsbTimeoutMode = elim cfg [ none ↦ enforce | some c ↦ c.usb_timeout_mode ] in
    elim timeout_mode [
      | disable ↦ true
      | enforce ↦ fpu.lt f64_zero last_cmd_rx && fpu.le (fpu.sub now_mono last_cmd_rx) timeout_s
    ]

abbrev pub zero_motors : MotorCommands → MotorCommands
zero_motors cmd = record cmd { m1 = pos 0; m2 = pos 0; m3 = pos 0; m4 = pos 0 }

-- The command of a cycle, after both safety checks.
unfoldable pub usb_command : Fpu → ℕ → SharedState → MotorCommands
usb_command fpu now_mono sh =
    let cmd = load_or_default sh.latest_motor_command_request in
    let sys = load_or_default sh.system_state in
    let cmd' = if not sys.running then zero_motors cmd else cmd in
    let timed_out = not (cmd_fresh fpu sh.cfg now_mono sh.last_cmd_rx_mono_s) in
    if timed_out then zero_motors cmd' else cmd'

-- `fetch_add` on the counter of serial errors.
abbrev pub note_error : UsbState → UsbState
note_error u = record u { sh = bump_serial_errors u.sh }

-- The beep of an event, if it is one.
unfoldable pub beep_on : (ℕ → Bool) → EventCmd → UsbState → UsbState
beep_on answers ev u = elim ev.type_ [
  | beep ↦
      let (ok, u') = send answers (set_beep (pos ev.data0)) u in
      if not ok then note_error u' else u'
  | _ ↦ u
]

-- What the lambda passed to `drain` does with an event.
unfoldable pub apply_hw_event : (ℕ → Bool) → Timestamps → EventCmd → UsbState → UsbState
apply_hw_event answers ts ev u =
    let u' = beep_on answers ev u in
    record u' {
      sh = record u'.sh {
        event_ring =
            (push_overwrite log_ring_capacity blank_event_sample u'.sh.event_ring
              (record { ts = ts; ev = ev })).0;
      };
    }

unfoldable pub drain_events : (ℕ → Bool) → Timestamps → ℕ → UsbState → UsbState
drain_events answers ts max_hw_events u =
    let (_, q, u') =
      drain queue_capacity blank_event max_hw_events (apply_hw_event answers ts) u.sh.event_cmd_q
        u in
    record u' { sh = record u'.sh { event_cmd_q = q } }

-- The state that the board reported last and the command that was written, for the other workers.
unfoldable pub publish : Timestamps → States → MotorCommands → UsbState → UsbState
publish ts st cmd u =
    let state_seq = (u.state_seq + 1) % 2 ^ 32 in
    let local_cmd_seq = (u.local_cmd_seq + 1) % 2 ^ 32 in
    record u {
      sh = record u.sh {
        latest_state = store u.sh.latest_state st;
        state_ring =
            (push_overwrite state_ring_capacity blank_state_sample u.sh.state_ring
              (record { ts = ts; seq = state_seq; st = st })).0;
        cmd_ring =
            (push_overwrite log_ring_capacity blank_motor_sample u.sh.cmd_ring
              (record { ts = ts; seq = local_cmd_seq; motors = cmd })).0;
      };
      state_seq = state_seq;
      local_cmd_seq = local_cmd_seq;
    }

-- `while (!stop_requested())`, one round at the time `ts` with `st` from `get_state`; false for `break`.
-- The log lines and the rate limiter are left out.
unfoldable pub usb_cycle : Fpu → (ℕ → Bool) → ℕ → Timestamps → States → UsbState → Bool × UsbState
usb_cycle fpu answers max_hw_events ts st u =
    let cmd = usb_command fpu ts.mono_s u.sh in
    let (ok, u1) = write_all answers (set_motor cmd.m1 cmd.m2 cmd.m3 cmd.m4) u in
    if not ok
    then (false, record (note_error u1) { stop = request_stop u1.stop })
    else (true, publish ts st cmd (drain_events answers ts max_hw_events u1))

-- A round's inputs, and what the other workers do to the shared state and the stop flag before it.
pub record Round : Type 0 where
  pub ts : Timestamps
  pub st : States
  pub others : SharedState → SharedState
  pub stop_now : Bool

unfoldable pub begin_round : Round → UsbState → UsbState
begin_round round u = record u {
  sh = round.others u.sh;
  stop = if round.stop_now then request_stop u.stop else u.stop;
}

unfoldable pub usb_loop : Fpu → (ℕ → Bool) → ℕ → List Round → UsbState → UsbState
usb_loop fpu answers max_hw_events [] u = u
usb_loop fpu answers max_hw_events (round ∷ rounds) u =
    let u' = begin_round round u in
    let (go_on, u'') = usb_cycle fpu answers max_hw_events round.ts round.st u' in
    let rest = usb_loop fpu answers max_hw_events rounds u'' in
    if stop_requested u'.stop then u' else if go_on then rest else u''

unfoldable pub stop_motors_burst : (ℕ → Bool) → ℕ → UsbState → UsbState
stop_motors_burst answers zero u = u
stop_motors_burst answers (suc n) u =
    stop_motors_burst answers n (write_all answers (set_motor (pos 0) (pos 0) (pos 0) (pos 0)) u).1

-- The rounds up to the request to stop, and the burst of motor-off frames behind them.
unfoldable pub usb_run : Fpu → (ℕ → Bool) → ℕ → List Round → UsbState → UsbState
usb_run fpu answers max_hw_events rounds u =
    stop_motors_burst answers shutdown_motor_off_burst (usb_loop fpu answers max_hw_events rounds u)
