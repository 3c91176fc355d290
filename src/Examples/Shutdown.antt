-- ===== src/Examples/Shutdown.antt =====
-- A run of main with its threads, from a signal to the return.
use mathlib.Core.List.{Memᴰ}
use stm32_board.Base.{◌≡◌, ◌≢◌, refl, List, [], ◌∷◌, true, false}
use stm32_board.Mailbox.{request_stop, stop_requested}
use stm32_board.System.Shutdown.{
  before_int, before_term, Signals, install, signalled, t_usb, t_tcp, t_ctrl, t_log, returned,
  started_program, main_step, thread_step, has_ended, end_thread, tcp_step, controller_step,
  log_step, usb_connects, usb_fails, usb_has_port, read_returns, Action, main_acts, thread_acts,
  usb_gives_up, signal, act, run,
}
use stm32_board.System.Shutdown.Waits.{run-waits}
use stm32_board.System.Shutdown.Joined.{run-returned}
use stm32_board.System.Shutdown.Order.{everything}

abbrev before : Signals
before = record { int_handler = before_int; term_handler = before_term; instance_set = false }

-- Ctrl-C while the threads work.
abbrev earlier : List Action
earlier = main_acts ∷ usb_has_port ∷ thread_acts t_tcp ∷ thread_acts t_log ∷ signal ∷ []

abbrev first : List Action
first =
    thread_acts t_ctrl
    ∷ main_acts
    ∷ usb_gives_up
    ∷ thread_acts t_usb
    ∷ thread_acts t_log
    ∷ thread_acts t_tcp
    ∷ []

abbrev second : List Action
second = main_acts ∷ read_returns ∷ []

abbrev third : List Action
third = main_acts ∷ thread_acts t_usb ∷ []

-- The same without a read that returns.
abbrev blocked : List Action
blocked = thread_acts t_usb ∷ main_acts ∷ thread_acts t_usb ∷ []

never_returns : Memᴰ read_returns blocked → ⊥
never_returns (Memᴰ.head e) = cc
never_returns (Memᴰ.tail (Memᴰ.head e)) = cc
never_returns (Memᴰ.tail (Memᴰ.tail (Memᴰ.head e))) = cc
never_returns (Memᴰ.tail (Memᴰ.tail (Memᴰ.tail m))) = elim m [ ]

run-waits_example : (run blocked (run earlier (started_program before))).main ≢ returned
unfolding run act main_step thread_step tcp_step log_step usb_connects install signalled
    started_program stop_requested request_stop
run-waits_example = run-waits before earlier blocked refl refl never_returns

-- The USB worker gives up; main joins the others as they end.
abbrev whole : List Action
whole =
    usb_gives_up
    ∷ main_acts
    ∷ thread_acts t_tcp
    ∷ main_acts
    ∷ main_acts
    ∷ thread_acts t_ctrl
    ∷ thread_acts t_log
    ∷ main_acts
    ∷ main_acts
    ∷ main_acts
    ∷ main_acts
    ∷ []

run-returned_example :
    let p = run whole (started_program before) in
    (stop_requested p.stop ≡ true) × (p.ended ≡ everything) × (p.signals ≡ before)
unfolding run act main_step thread_step tcp_step controller_step log_step usb_fails end_thread
    has_ended install started_program stop_requested request_stop
run-returned_example = run-returned before refl whole refl
