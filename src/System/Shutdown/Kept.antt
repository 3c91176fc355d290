-- ===== src/System/Shutdown/Kept.antt =====
-- What every action of the program keeps.
use mathlib.Core.List.{Memᴰ}
use stm32_board.Base.{
  ℕ, ◌≤◌, ◌≡◌, refl, ◌∙◌, subst, List, [], ◌∷◌, Bool, true, false, arith, if◌then◌else◌, inl, inr,
  Bool-cases,
}
use stm32_board.Mailbox.{request_stop, stop_requested}
use stm32_board.System.Shutdown.{
  Signals, signalled, Thread, t_usb, t_tcp, t_ctrl, t_log, end_thread, UsbPhase, connects, works,
  leaves, unwinds, gone, Program, started_program, main_step, tcp_step, controller_step, log_step,
  usb_step, thread_step, usb_connects, usb_fails, rx_step, Action, main_acts, thread_acts,
  usb_has_port, usb_gives_up, read_returns, signal, act, run,
}
use stm32_board.System.Shutdown.Order.{Later, same_ended, end_thread-Later}

-- How far the USB worker is.
abbrev pub rank : UsbPhase → ℕ
rank connects = 0
rank works = 1
rank leaves = 2
rank unwinds = 3
rank gone = 4

abbrev pub is_gone : UsbPhase → Bool
is_gone connects = false
is_gone works = false
is_gone leaves = false
is_gone unwinds = false
is_gone gone = true

-- What every action keeps: a set flag, the threads that have ended, how far the USB worker is at least,
-- and that it has ended exactly when it is gone.
pub record Kept (p p' : Program) : Type 0 where
  pub stop : stop_requested p.stop ≡ true → stop_requested p'.stop ≡ true
  pub later : Later p.ended p'.ended
  pub further : rank p.usb ≤ rank p'.usb
  pub tied : p.ended.usb ≡ is_gone p.usb → p'.ended.usb ≡ is_gone p'.usb

same-Kept : (p : Program) → Kept p p
same-Kept p = record {
  stop = λ s. s;
  later = same_ended p.ended;
  further = omega arith;
  tied = λ t. t;
}

loop-Kept :
    (t : Thread) (p : Program)
    → (end_thread t p.ended).usb ≡ p.ended.usb
    → Kept p (if stop_requested p.stop then record p { ended = end_thread t p.ended } else p)
loop-Kept t p e = elim (Bool-cases (stop_requested p.stop)) [
  | inl s ↦ simp s (record {
    stop = λ x. s;
    later = end_thread-Later t p.ended;
    further = omega arith;
    tied = λ tied. e ∙ tied;
  })
  | inr s ↦ simp s (same-Kept p)
]

usb_step-Kept :
    (u : UsbPhase) (p : Program) → let q : Program = record p { usb = u } in Kept q (usb_step q)
unfolding usb_step end_thread
usb_step-Kept connects p = elim (Bool-cases (stop_requested p.stop)) [
  | inl s ↦ simp s (record {
    stop = λ x. s;
    later = end_thread-Later t_usb p.ended;
    further = omega arith;
    tied = λ t. refl;
  })
  | inr s ↦ simp s (same-Kept (record p { usb = connects }))
]
usb_step-Kept works p = elim (Bool-cases (stop_requested p.stop)) [
  | inl s ↦
      simp s
        (record { stop = λ x. s; later = same_ended p.ended; further = omega arith; tied = λ t. t })
  | inr s ↦ simp s (same-Kept (record p { usb = works }))
]
usb_step-Kept leaves p = same-Kept (record p { usb = leaves })
usb_step-Kept unwinds p = record {
  stop = λ s. s;
  later = end_thread-Later t_usb p.ended;
  further = omega arith;
  tied = λ t. refl;
}
usb_step-Kept gone p = same-Kept (record p { usb = gone })

usb_fails-Kept :
    (u : UsbPhase) (p : Program) → let q : Program = record p { usb = u } in Kept q (usb_fails q)
unfolding usb_fails end_thread stop_requested request_stop
usb_fails-Kept connects p = record {
  stop = λ x. refl;
  later = end_thread-Later t_usb p.ended;
  further = omega arith;
  tied = λ t. refl;
}
usb_fails-Kept works p = record {
  stop = λ x. refl;
  later = same_ended p.ended;
  further = omega arith;
  tied = λ t. t;
}
usb_fails-Kept leaves p = same-Kept (record p { usb = leaves })
usb_fails-Kept unwinds p = same-Kept (record p { usb = unwinds })
usb_fails-Kept gone p = same-Kept (record p { usb = gone })

usb_connects-Kept :
    (u : UsbPhase) (p : Program) → let q : Program = record p { usb = u } in Kept q (usb_connects q)
unfolding usb_connects
usb_connects-Kept connects p = record {
  stop = λ s. s;
  later = same_ended p.ended;
  further = omega arith;
  tied = λ t. t;
}
usb_connects-Kept works p = same-Kept (record p { usb = works })
usb_connects-Kept leaves p = same-Kept (record p { usb = leaves })
usb_connects-Kept unwinds p = same-Kept (record p { usb = unwinds })
usb_connects-Kept gone p = same-Kept (record p { usb = gone })

rx_step-Kept :
    (u : UsbPhase) (p : Program) → let q : Program = record p { usb = u } in Kept q (rx_step q)
unfolding rx_step
rx_step-Kept connects p = same-Kept (record p { usb = connects })
rx_step-Kept works p = same-Kept (record p { usb = works })
rx_step-Kept leaves p = record {
  stop = λ s. s;
  later = same_ended p.ended;
  further = omega arith;
  tied = λ t. t;
}
rx_step-Kept unwinds p = same-Kept (record p { usb = unwinds })
rx_step-Kept gone p = same-Kept (record p { usb = gone })

pub main_step_lem :
    (p : Program)
    → ((main_step p).ended ≡ p.ended)
      × ((main_step p).usb ≡ p.usb)
      × (stop_requested p.stop ≡ true → stop_requested (main_step p).stop ≡ true)
unfolding main_step stop_requested request_stop
main_step_lem p = ground arith

main_step-Kept : (p : Program) → Kept p (main_step p)
main_step-Kept p =
    let r = main_step_lem p in
    record {
      stop = r.2;
      later = rw r.0 (same_ended p.ended);
      further = rw r.1 (omega arith);
      tied = λ t. rw (r.0, r.1) t;
    }

signal-Kept : (p : Program) → Kept p (record p { stop = signalled p.signals p.stop })
unfolding signalled stop_requested request_stop
signal-Kept p = record {
  stop = λ s. ground (arith, s);
  later = same_ended p.ended;
  further = omega arith;
  tied = λ t. t;
}

act-Kept : (a : Action) (p : Program) → Kept p (act a p)
unfolding act thread_step tcp_step controller_step log_step end_thread
act-Kept main_acts p = main_step-Kept p
act-Kept (thread_acts t_usb) p = usb_step-Kept p.usb p
act-Kept (thread_acts t_tcp) p = loop-Kept t_tcp p refl
act-Kept (thread_acts t_ctrl) p = loop-Kept t_ctrl p refl
act-Kept (thread_acts t_log) p = loop-Kept t_log p refl
act-Kept usb_has_port p = usb_connects-Kept p.usb p
act-Kept usb_gives_up p = usb_fails-Kept p.usb p
act-Kept read_returns p = rx_step-Kept p.usb p
act-Kept signal p = signal-Kept p

pub both-Kept : (p q r : Program) → Kept p q → Kept q r → Kept p r
both-Kept p q r k l = record {
  stop = λ s. l.stop (k.stop s);
  later = (
    λ e. l.later.0 (k.later.0 e),
    λ e. l.later.1 (k.later.1 e),
    λ e. l.later.2 (k.later.2 e),
    λ e. l.later.3 (k.later.3 e),
  );
  further = omega (arith, k.further, l.further);
  tied = λ t. l.tied (k.tied t);
}

pub run-Kept : (acts : List Action) (p : Program) → Kept p (run acts p)
unfolding run
run-Kept [] p = same-Kept p
run-Kept (a ∷ more) p =
    both-Kept p (act a p) (run more (act a p)) (act-Kept a p) (run-Kept more (act a p))

-- What an action does whenever the flag is set, and every later one keeps, holds behind a run in which
-- it happens.
pub happens :
    (P : Program → Type 0) (a : Action)
    → ((p q : Program) → Kept p q → P p → P q)
    → (acts : List Action) (p : Program) → ((q : Program) → Kept p q → P (act a q))
    → Memᴰ a acts
    → P (run acts p)
unfolding run
happens P a keeps [] p does m = elim m [ ]
happens P a keeps (b ∷ more) p does (Memᴰ.head e) =
    subst (λ c. P (run more (act c p))) e
      (keeps (act a p) (run more (act a p)) (run-Kept more (act a p)) (does p (same-Kept p)))
happens P a keeps (b ∷ more) p does (Memᴰ.tail m) =
    happens P a keeps more (act b p) (λ q k. does q (both-Kept p (act b p) q (act-Kept b p) k)) m

pub started-tied :
    (before : Signals) → (started_program before).ended.usb ≡ is_gone (started_program before).usb
unfolding started_program
started-tied before = refl
