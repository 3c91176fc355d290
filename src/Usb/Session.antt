-- ===== src/Usb/Session.antt =====
-- cpp_gateway/app/workers/usb_worker.cpp, the whole of `UsbWorker::operator()`: the connection, the
-- receive thread, the rounds and the shutdown. The log lines and the rate limiter are left out.
pub mod Shutdown
use stm32_board.Base.{
  ℕ, ◌+◌, List, [], ◌∷◌, Bool, true, false, Option, none, some, leb, if◌then◌else◌,
}
use stm32_board.Base.Int.{pos}
use stm32_board.Config.{RuntimeConfig}
use stm32_board.Float.{Fpu}
use stm32_board.Mailbox.{StopFlag, request_stop}
use stm32_board.Rosmaster.{set_auto_report_state}
use stm32_board.Rosmaster.Device.{
  Config, default_config, Device, new_device, connect, disconnect, start, stop, destroy,
}
use stm32_board.Shared.{bump_serial_errors}
use stm32_board.Socket.{Ledger, Opening}
use stm32_board.Usb.{Attempt, connect_max_total, UsbState, write_all, note_error, Round, usb_run}

-- `rcfg`
unfoldable pub serial_config : Option RuntimeConfig → Config
serial_config none = record default_config {
  device = "/dev/ttyUSB0";
  baud = pos 115200;
  debug = false;
}
serial_config (some cfg) = record default_config {
  device = cfg.serial_dev;
  baud = cfg.serial_baud;
  debug = false;
}

-- An attempt to connect, with the system's calls in place of their outcome.
pub record Try : Type 0 where
  pub stopping : Bool
  pub opening : Opening
  pub elapsed : ℕ

-- `connect_or_request_stop` on the device. `none` while the attempts go on.
unfoldable pub connect_device :
    Config → List Try → StopFlag → Device → Option (Bool × StopFlag × Device)
connect_device cfg [] stop d = none
connect_device cfg (t ∷ tries) stop d =
    let (ok, d') = connect cfg t.opening d in
    let rest = connect_device cfg tries stop d' in
    if t.stopping
    then some (false, request_stop stop, d)
    else if ok
    then some (true, stop, d')
    else if leb connect_max_total t.elapsed
    then some (false, request_stop stop, d')
    else rest

-- The end of the scope of `bot`, if it is reached.
abbrev pub leave : Bool → UsbState → Option Device → Option (UsbState × Device)
leave returns u none = none
leave returns u (some d) = elim (destroy returns d) [ none ↦ none | some d' ↦ some (u, d') ]

-- `returns` is whether the read that the receive thread is in when the worker stops comes to an end.
module _ (fpu : Fpu) (answers : ℕ → Bool) (max_hw_events : ℕ) (rounds : List Round)
    (returns : Bool) where
  -- Behind `bot.start()`; `none` where the worker waits for its receive thread for ever.
  unfoldable pub started : Bool → Device → UsbState → Option (UsbState × Device)
  started false d u =
      let u' = note_error u in leave returns (record u' { stop = request_stop u'.stop }) (some d)
  started true d u =
      let (_, u') = write_all answers (set_auto_report_state true false) u in
      leave returns (usb_run fpu answers max_hw_events rounds u')
        (elim (stop returns d) [ none ↦ none | some d' ↦ some (disconnect d') ])

  -- Behind `connect_or_request_stop()`; `none` also where the program is terminated.
  unfoldable pub connected : Bool → Device → UsbState → Option (UsbState × Device)
  connected false d u = leave returns u (some d)
  connected true d u = elim (start d) [ none ↦ none | some (ok, d') ↦ started ok d' u ]

  -- The variables and the destroyed device of the worker when it has ended, the rounds being those up
  -- to the request to stop. `l` is the ledger before; `none` where it does not end.
  unfoldable pub usb_worker : List Try → UsbState → Ledger → Option (UsbState × Device)
  usb_worker tries u l =
      elim (connect_device (serial_config u.sh.cfg) tries u.stop (new_device l)) [
        | none ↦ none
        | some (ok, stop', d) ↦ connected ok d (record u { stop = stop' })
      ]
