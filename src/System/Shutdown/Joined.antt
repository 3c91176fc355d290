-- ===== src/System/Shutdown/Joined.antt =====
-- Main returns only when all threads have ended.
use stm32_board.Base.{◌≡◌, refl, List, [], ◌∷◌, true, false, inl, inr, Bool-cases, if◌then◌else◌}
use stm32_board.Mailbox.{StopFlag, request_stop, stop_requested}
use stm32_board.System.Shutdown.{
  Signals, SignalHandler, signalled, Thread, t_usb, t_tcp, t_ctrl, t_log, Phase, returned, Ended,
  end_thread, UsbPhase, connects, works, leaves, unwinds, gone, Program, started_program, main_step,
  tcp_step, controller_step, log_step, usb_step, thread_step, usb_connects, usb_fails, rx_step,
  Action, main_acts, thread_acts, usb_has_port, usb_gives_up, read_returns, signal, act, run,
}
use stm32_board.System.Shutdown.Order.{
  Main, everything, none_joined, polling, joining, done, Safe, join_next, Main-Later,
  end_thread-Later, same_ended,
}

module _ (before : Signals) (free : before.instance_set ≡ false) where
  main_step-Safe :
      (stop : StopFlag) (now : Signals) (h : SignalHandler) (e : Ended) (u : UsbPhase) {m : Phase}
      → Main before e stop now h m
      → Safe before (
          main_step
            (record { stop = stop; signals = now; handler = h; ended = e; usb = u; main = m }))
  unfolding main_step stop_requested request_stop
  main_step-Safe stop now h e u (polling i) = elim (Bool-cases stop.stop) [
    | inl s ↦ simp s (joining refl i none_joined)
    | inr s ↦ simp s (polling i)
  ]
  main_step-Safe stop now h e u (joining {left} s i o) =
      join_next before stop now h e u left free s i o
  main_step-Safe stop now h e u (done s r all) = done s r all

  -- A worker that ends, alone or with the flag set.
  ends-Safe :
      (t : Thread) (p : Program)
      → Safe before p
      → Main before (end_thread t p.ended) p.stop p.signals p.handler p.main
  ends-Safe t p h =
      Main-Later p.ended (end_thread t p.ended) p.stop p.stop (end_thread-Later t p.ended) (λ x. x)
        h

  stops-Safe :
      (p : Program)
      → Safe before p
      → Main before p.ended (request_stop p.stop) p.signals p.handler p.main
  unfolding stop_requested request_stop
  stops-Safe p h =
      Main-Later p.ended p.ended p.stop (request_stop p.stop) (same_ended p.ended) (λ x. refl) h

  loop-Safe :
      (t : Thread) (p : Program)
      → Safe before p
      → Safe before (if stop_requested p.stop then record p { ended = end_thread t p.ended } else p)
  loop-Safe t p h = elim (Bool-cases (stop_requested p.stop)) [
    | inl s ↦ simp s (ends-Safe t p h)
    | inr s ↦ simp s h
  ]

  usb_step-Safe :
      (u : UsbPhase) (p : Program) → Safe before p → Safe before (usb_step (record p { usb = u }))
  unfolding usb_step
  usb_step-Safe connects p h = elim (Bool-cases (stop_requested p.stop)) [
    | inl s ↦ simp s (ends-Safe t_usb p h)
    | inr s ↦ simp s h
  ]
  usb_step-Safe works p h = elim (Bool-cases (stop_requested p.stop)) [
    | inl s ↦ simp s h
    | inr s ↦ simp s h
  ]
  usb_step-Safe leaves p h = h
  usb_step-Safe unwinds p h = ends-Safe t_usb p h
  usb_step-Safe gone p h = h

  usb_fails-Safe :
      (u : UsbPhase) (p : Program) → Safe before p → Safe before (usb_fails (record p { usb = u }))
  unfolding usb_fails
  usb_fails-Safe connects p h =
      ends-Safe t_usb (record p { stop = request_stop p.stop }) (stops-Safe p h)
  usb_fails-Safe works p h = stops-Safe p h
  usb_fails-Safe leaves p h = h
  usb_fails-Safe unwinds p h = h
  usb_fails-Safe gone p h = h

  usb_connects-Safe :
      (u : UsbPhase) (p : Program)
      → Safe before p
      → Safe before (usb_connects (record p { usb = u }))
        × Safe before (rx_step (record p { usb = u }))
  unfolding usb_connects rx_step
  usb_connects-Safe connects p h = (h, h)
  usb_connects-Safe works p h = (h, h)
  usb_connects-Safe leaves p h = (h, h)
  usb_connects-Safe unwinds p h = (h, h)
  usb_connects-Safe gone p h = (h, h)

  act-Safe : (a : Action) (p : Program) → Safe before p → Safe before (act a p)
  unfolding act thread_step tcp_step controller_step log_step signalled
  act-Safe main_acts p h = main_step-Safe p.stop p.signals p.handler p.ended p.usb h
  act-Safe (thread_acts t_usb) p h = usb_step-Safe p.usb p h
  act-Safe (thread_acts t_tcp) p h = loop-Safe t_tcp p h
  act-Safe (thread_acts t_ctrl) p h = loop-Safe t_ctrl p h
  act-Safe (thread_acts t_log) p h = loop-Safe t_log p h
  act-Safe usb_has_port p h = (usb_connects-Safe p.usb p h).0
  act-Safe usb_gives_up p h = usb_fails-Safe p.usb p h
  act-Safe read_returns p h = (usb_connects-Safe p.usb p h).1
  act-Safe signal p h = elim (Bool-cases p.signals.instance_set) [
    | inl s ↦ simp s (stops-Safe p h)
    | inr s ↦ simp s h
  ]

  pub run-Safe : (acts : List Action) (p : Program) → Safe before p → Safe before (run acts p)
  unfolding run
  run-Safe [] p h = h
  run-Safe (a ∷ more) p h = run-Safe more (act a p) (act-Safe a p h)

  pub started-Safe : Safe before (started_program before)
  unfolding started_program
  started-Safe = polling refl

  -- What `returned` says, for the safety theorem.
  pub returned_lem :
      (stop : StopFlag) (now : Signals) (h : SignalHandler) (e : Ended) (m : Phase)
      → Main before e stop now h m
      → m ≡ returned
      → (stop_requested stop ≡ true) × (e ≡ everything) × (now ≡ before)
  returned_lem stop now h e m (polling i) r = cc
  returned_lem stop now h e m (joining s i o) r = cc
  returned_lem stop now h e m (done s b all) r = (s, all, b)

  -- Whatever the order in which main, the threads and the signals act: main does not return before the
  -- stop flag is set and all four threads have ended, and by then the signals have their handlers from
  -- before, if no other handler object is installed.
  pub run-returned :
      (acts : List Action)
      → (run acts (started_program before)).main ≡ returned
      → let p = run acts (started_program before) in
        (stop_requested p.stop ≡ true) × (p.ended ≡ everything) × (p.signals ≡ before)
  run-returned acts r =
      let p = run acts (started_program before) in
      returned_lem p.stop p.signals p.handler p.ended p.main
        (run-Safe acts (started_program before) started-Safe) r
