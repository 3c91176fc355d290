-- ===== src/System.antt =====
-- cpp_gateway/app/gateway_main.cpp and the workers together: their operations as steps on the shared
-- state.
pub mod Arguments
pub mod Armed
pub mod Serving
pub mod Steps
pub mod EndToEnd
pub mod Shutdown
use stm32_board.Base.{ℕ, Bool, true, some}
use stm32_board.Config.{RuntimeConfig}
use stm32_board.Mailbox.{store}
use stm32_board.Core.{States, Timestamps}
use stm32_board.Float.{Fpu}
use stm32_board.Framed.{Frame}
use stm32_board.Shared.{SharedState, fresh_shared, bump_serial_errors}
use stm32_board.BinaryLog.{Os}
use stm32_board.BinaryLog.Rotating.{RotatingBinaryLog}
use stm32_board.LogWorker.{log_round}
use stm32_board.Rate.{Chrono}
use stm32_board.Tcp.Loop.{TcpWorker, Cycle, tcp_cycle}
use stm32_board.Tcp.Worker.{TcpState, handle_frame}
use stm32_board.Controller.{control_cycle, control_exit}
use stm32_board.Usb.{UsbState, usb_cycle}

-- What `main` stores before it starts the workers, with the configuration that the arguments give.
unfoldable pub gateway_start : ℕ → RuntimeConfig → SharedState
gateway_start start_mono_s cfg =
    let sh = fresh_shared start_mono_s in
    record sh {
      cfg = some cfg;
      system_state =
          store sh.system_state (record { running = true; control_mode = cfg.control_mode });
    }

-- Steps of the program from its start; between two steps the shared state is the same for all. The TCP
-- worker steps by frames or by whole cycles; `unstarted` is what the USB worker does to the state when
-- its receive thread does not start.
module _ (fpu : Fpu) where
  pub data Reached : SharedState → Type 0 where
    start : (start_mono_s : ℕ) (cfg : RuntimeConfig) → Reached (gateway_start start_mono_s cfg)
    frame :
        (s : TcpState) (client : ℕ) (now : Timestamps) (f : Frame)
        → Reached s.sh
        → Reached (handle_frame fpu s client now f).sh
    cycle : (now_mono : ℕ) (sh : SharedState) → Reached sh → Reached (control_cycle fpu now_mono sh)
    tcp :
        (chrono : Chrono) (c : Cycle) (w : TcpWorker)
        → Reached w.tcp.sh
        → Reached (tcp_cycle fpu chrono c w).tcp.sh
    log :
        (os : Os) (sh : SharedState) (l : RotatingBinaryLog)
        → Reached sh
        → Reached (log_round os sh l).0
    unstarted : (sh : SharedState) → Reached sh → Reached (bump_serial_errors sh)
    exit : (sh : SharedState) → Reached sh → Reached (control_exit sh)
    round :
        (answers : ℕ → Bool) (max_hw_events : ℕ) (ts : Timestamps) (st : States) (u : UsbState)
        → Reached u.sh
        → Reached (usb_cycle fpu answers max_hw_events ts st u).1.sh
