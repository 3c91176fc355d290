-- ===== src/System/Shutdown.antt =====
-- cpp_gateway/app/gateway_main.cpp behind the arguments, and include/utils/signal_handler.hpp: main, its
-- four threads and the signals, step by step. A worker's step is a test of the stop flag, with the
-- round behind it if there is one. The USB worker has a receive thread, which it joins at its end; a
-- step of that thread is one in which its read has returned. The other calls of the threads return.
pub mod Joined
pub mod Order
pub mod Kept
pub mod Ends
pub mod Waits
use stm32_board.Base.{List, [], ◌∷◌, Bool, true, false, if◌then◌else◌}
use stm32_board.Mailbox.{StopFlag, request_stop, stop_requested}

-- What happens on a signal: one of the handlers that were there before, or `on_signal`.
pub data Handler : Type 0 where
  before_int before_term on_signal : Handler

-- The handlers of SIGINT and SIGTERM, and whether `instance_` is set.
pub record Signals : Type 0 where
  pub int_handler : Handler
  pub term_handler : Handler
  pub instance_set : Bool

pub record SignalHandler : Type 0 where
  pub old_int : Handler
  pub old_term : Handler

-- `SignalHandler(stop)`
unfoldable pub install : Signals → SignalHandler × Signals
install s = (
  record { old_int = s.int_handler; old_term = s.term_handler },
  record { int_handler = on_signal; term_handler = on_signal; instance_set = true },
)

-- `~SignalHandler()`
unfoldable pub restore : SignalHandler → Signals → Signals
restore h s = record { int_handler = h.old_int; term_handler = h.old_term; instance_set = false }

-- `on_signal(int)`
unfoldable pub signalled : Signals → StopFlag → StopFlag
signalled s stop = if s.instance_set then request_stop stop else stop

pub data Thread : Type 0 where
  t_usb t_tcp t_ctrl t_log : Thread

-- Main polls the flag, joins the threads that are left, or has returned.
pub data Phase : Type 0 where
  polls : Phase
  joins : List Thread → Phase
  returned : Phase

-- Which threads have ended.
pub record Ended : Type 0 where
  pub usb : Bool
  pub tcp : Bool
  pub ctrl : Bool
  pub log : Bool

unfoldable pub has_ended : Ended → Thread → Bool
has_ended e t_usb = e.usb
has_ended e t_tcp = e.tcp
has_ended e t_ctrl = e.ctrl
has_ended e t_log = e.log

unfoldable pub end_thread : Thread → Ended → Ended
end_thread t_usb e = record e { usb = true }
end_thread t_tcp e = record e { tcp = true }
end_thread t_ctrl e = record e { ctrl = true }
end_thread t_log e = record e { log = true }

-- Where the USB worker is: it connects, works with its receive thread, waits for that thread with
-- `running_` false, goes on when that has ended, or has ended itself.
pub data UsbPhase : Type 0 where
  connects works leaves unwinds gone : UsbPhase

pub record Program : Type 0 where
  pub stop : StopFlag
  pub signals : Signals
  pub handler : SignalHandler
  pub ended : Ended
  pub usb : UsbPhase
  pub main : Phase

-- The program when main has started its threads.
unfoldable pub started_program : Signals → Program
started_program s =
    let (h, s') = install s in
    record {
      stop = record { stop = false };
      signals = s';
      handler = h;
      ended = record { usb = false; tcp = false; ctrl = false; log = false };
      usb = connects;
      main = polls;
    }

-- Main's next step. A join waits for its thread; the last one is followed by the destructor of the
-- handler and the return.
unfoldable pub main_step : Program → Program
main_step p = elim p.main [
  | polls ↦
      if stop_requested p.stop
      then record p {
        stop = request_stop p.stop;
        main = joins (t_tcp ∷ t_ctrl ∷ t_usb ∷ t_log ∷ []);
      }
      else p
  | joins left ↦ elim left [
    | [] ↦ record p { signals = restore p.handler p.signals; main = returned }
    | ◌∷◌ t more ↦ if has_ended p.ended t then record p { main = joins more } else p
  ]
  | returned ↦ p
]

-- `while (!stop_.stop_requested())`: a round, or the end of a thread that waits for nothing else.
abbrev loop_step : Thread → Program → Program
loop_step t p = if stop_requested p.stop then record p { ended = end_thread t p.ended } else p

unfoldable pub tcp_step : Program → Program
tcp_step p = loop_step t_tcp p

unfoldable pub controller_step : Program → Program
controller_step p = loop_step t_ctrl p

unfoldable pub log_step : Program → Program
log_step p = loop_step t_log p

abbrev pub usb_ends : Program → Program
usb_ends p = record p { ended = end_thread t_usb p.ended; usb = gone }

-- The USB worker ends when it is stopped while it connects; when it works, it leaves its loop, and
-- `bot.stop()` waits for the receive thread.
unfoldable pub usb_step : Program → Program
usb_step p = elim p.usb [
  | connects ↦ if stop_requested p.stop then usb_ends p else p
  | works ↦ if stop_requested p.stop then record p { usb = leaves } else p
  | leaves ↦ p
  | unwinds ↦ usb_ends p
  | gone ↦ p
]

unfoldable pub thread_step : Thread → Program → Program
thread_step t_usb p = usb_step p
thread_step t_tcp p = tcp_step p
thread_step t_ctrl p = controller_step p
thread_step t_log p = log_step p

-- The port is open and `bot.start()` has started the receive thread.
unfoldable pub usb_connects : Program → Program
usb_connects p = elim p.usb [
  | connects ↦ record p { usb = works }
  | works ↦ p
  | leaves ↦ p
  | unwinds ↦ p
  | gone ↦ p
]

-- The USB worker cannot connect or start the receive thread: it asks the others to stop, and ends.
abbrev pub not_connected : Program → Program
not_connected p = usb_ends (record p { stop = request_stop p.stop })

-- A motor write fails: it asks the others to stop, and leaves its loop.
abbrev pub write_fails : Program → Program
write_fails p = record p { stop = request_stop p.stop; usb = leaves }

unfoldable pub usb_fails : Program → Program
usb_fails p = elim p.usb [
  | connects ↦ not_connected p
  | works ↦ write_fails p
  | leaves ↦ p
  | unwinds ↦ p
  | gone ↦ p
]

-- A read of the receive thread has returned, and it tests `running_`.
unfoldable pub rx_step : Program → Program
rx_step p = elim p.usb [
  | connects ↦ p
  | works ↦ p
  | leaves ↦ record p { usb = unwinds }
  | unwinds ↦ p
  | gone ↦ p
]

pub data Action : Type 0 where
  main_acts : Action
  thread_acts : Thread → Action
  usb_has_port : Action
  usb_gives_up : Action
  read_returns : Action
  signal : Action

unfoldable pub act : Action → Program → Program
act main_acts p = main_step p
act (thread_acts t) p = thread_step t p
act usb_has_port p = usb_connects p
act usb_gives_up p = usb_fails p
act read_returns p = rx_step p
act signal p = record p { stop = signalled p.signals p.stop }

unfoldable pub run : List Action → Program → Program
run [] p = p
run (a ∷ more) p = run more (act a p)
