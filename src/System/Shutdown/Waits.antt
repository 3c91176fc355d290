-- ===== src/System/Shutdown/Waits.antt =====
-- Without the end of the receive thread's read, the program does not end.
use mathlib.Core.List.{Memᴰ}
use stm32_board.Base.{
  ◌≤◌, ◌≡◌, ◌≢◌, refl, sym, ap, ◌∙◌, List, [], ◌∷◌, ◌++◌, true, false, arith, inl, inr, Bool-cases,
  subst,
}
use stm32_board.Mailbox.{stop_requested}
use stm32_board.System.Shutdown.{
  Signals, t_usb, t_tcp, t_ctrl, t_log, returned, Ended, UsbPhase, connects, works, leaves, unwinds,
  gone, Program, started_program, main_step, tcp_step, controller_step, log_step, usb_step,
  thread_step, usb_connects, usb_fails, Action, main_acts, thread_acts, usb_has_port, usb_gives_up,
  read_returns, signal, act, run,
}
use stm32_board.System.Shutdown.Joined.{run-returned}
use stm32_board.System.Shutdown.Kept.{rank, is_gone, run-Kept, main_step_lem, started-tied}

-- The USB worker is in its loop, or waits for the receive thread.
abbrev Waiting : UsbPhase → Type 0
Waiting u = (1 ≤ rank u) × (rank u ≤ 2)

usb_step-Waiting :
    (u : UsbPhase) (p : Program) → Waiting u → Waiting (usb_step (record p { usb = u })).usb
unfolding usb_step
usb_step-Waiting connects p w = absurd (omega (arith, w.0))
usb_step-Waiting works p w = elim (Bool-cases (stop_requested p.stop)) [
  | inl s ↦ simp s (omega arith, omega arith)
  | inr s ↦ simp s w
]
usb_step-Waiting leaves p w = w
usb_step-Waiting unwinds p w = absurd (omega (arith, w.1))
usb_step-Waiting gone p w = absurd (omega (arith, w.1))

usb_fails-Waiting :
    (u : UsbPhase) (p : Program)
    → Waiting u
    → Waiting (usb_fails (record p { usb = u })).usb
      × Waiting (usb_connects (record p { usb = u })).usb
unfolding usb_fails usb_connects
usb_fails-Waiting connects p w = absurd (omega (arith, w.0))
usb_fails-Waiting works p w = ((omega arith, omega arith), w)
usb_fails-Waiting leaves p w = (w, w)
usb_fails-Waiting unwinds p w = absurd (omega (arith, w.1))
usb_fails-Waiting gone p w = absurd (omega (arith, w.1))

loop_step-usb :
    (p : Program)
    → ((tcp_step p).usb ≡ p.usb) × ((controller_step p).usb ≡ p.usb) × ((log_step p).usb ≡ p.usb)
unfolding tcp_step controller_step log_step
loop_step-usb p = ground arith

run-Waiting :
    (acts : List Action) (p : Program)
    → (Memᴰ read_returns acts → ⊥)
    → Waiting p.usb
    → Waiting (run acts p).usb
unfolding run act thread_step
run-Waiting [] p never w = w
run-Waiting (main_acts ∷ more) p never w =
    run-Waiting more (main_step p) (λ m. never (Memᴰ.tail m)) (rw (main_step_lem p).1 w)
run-Waiting (thread_acts t_usb ∷ more) p never w =
    run-Waiting more (usb_step p) (λ m. never (Memᴰ.tail m)) (usb_step-Waiting p.usb p w)
run-Waiting (thread_acts t_tcp ∷ more) p never w =
    run-Waiting more (tcp_step p) (λ m. never (Memᴰ.tail m)) (rw (loop_step-usb p).0 w)
run-Waiting (thread_acts t_ctrl ∷ more) p never w =
    run-Waiting more (controller_step p) (λ m. never (Memᴰ.tail m)) (rw (loop_step-usb p).1 w)
run-Waiting (thread_acts t_log ∷ more) p never w =
    run-Waiting more (log_step p) (λ m. never (Memᴰ.tail m)) (rw (loop_step-usb p).2 w)
run-Waiting (usb_has_port ∷ more) p never w =
    run-Waiting more (usb_connects p) (λ m. never (Memᴰ.tail m)) (usb_fails-Waiting p.usb p w).1
run-Waiting (usb_gives_up ∷ more) p never w =
    run-Waiting more (usb_fails p) (λ m. never (Memᴰ.tail m)) (usb_fails-Waiting p.usb p w).0
run-Waiting (read_returns ∷ more) p never w = absurd (never (Memᴰ.head refl))
run-Waiting (signal ∷ more) p never w = run-Waiting more (act signal p) (λ m. never (Memᴰ.tail m)) w

waiting_lem : (u : UsbPhase) → Waiting u → is_gone u ≡ false
waiting_lem connects w = refl
waiting_lem works w = refl
waiting_lem leaves w = refl
waiting_lem unwinds w = refl
waiting_lem gone w = absurd (omega (arith, w.1))

run-append : (xs ys : List Action) (p : Program) → run ys (run xs p) ≡ run (xs ++ ys) p
unfolding run
run-append [] ys p = refl
run-append (x ∷ xs) ys p = run-append xs ys (act x p)

-- Once the USB worker works with its receive thread, the program does not end before a read of that
-- thread returns: in whatever order main, the threads and the signals act otherwise, however often and
-- with the stop flag set, main does not return.
pub run-waits :
    (before : Signals) (earlier later : List Action)
    → before.instance_set ≡ false
    → (run earlier (started_program before)).usb ≡ works
    → (Memᴰ read_returns later → ⊥)
    → (run later (run earlier (started_program before))).main ≢ returned
run-waits before earlier later free at never r =
    let p = started_program before in
    let q = run later (run earlier p) in
    let same = run-append earlier later p in
    let w : Waiting (run earlier p).usb = rw at (omega arith, omega arith) in
    let waits = run-Waiting later (run earlier p) never w in
    let tied = (run-Kept (earlier ++ later) p).tied (started-tied before) in
    let all =
      (run-returned before free (earlier ++ later)
        (ap (λ (x : Program). x.main) (sym same) ∙ r)).1 in
    let away : (run (earlier ++ later) p).ended.usb ≡ true = ap (λ (e : Ended). e.usb) all in
    let still =
      waiting_lem (run (earlier ++ later) p).usb
        (subst (λ (x : Program). Waiting x.usb) same waits) in
    absurd (true_not_false (sym away ∙ tied ∙ still))
  where
    true_not_false : true ≡ false → ⊥
    true_not_false h = cc
