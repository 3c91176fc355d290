-- ===== src/Rosmaster/Device/Life.antt =====
-- A `Rosmaster` from its construction to its destruction, whatever is called between.
use stm32_board.Base.{
  ℕ, ◌+◌, ◌≡◌, refl, List, [], ◌∷◌, Bool, true, false, Option, none, some, arith, inl, inr,
  Bool-cases,
}
use stm32_board.Socket.{Ledger, Fd, is_open, close, Opening}
use stm32_board.Socket.Balance.{count, Held, close-Held, open_port_lem}
use stm32_board.Rosmaster.Device.{
  Config, Device, new_device, connect, disconnect, start, stopped, stop, destroy,
}

-- The calls that change the port or the thread. The receive thread's reads come to an end.
pub data Call : Type 0 where
  connects : Config → Opening → Call
  disconnects starts stops : Call

abbrev pub step : Call → Device → Option Device
step (connects cfg r) d = some (connect cfg r d).1
step disconnects d = some (disconnect d)
step starts d = elim (start d) [ none ↦ none | some (ok, d') ↦ some d' ]
step stops d = stop true d

-- `none` if a call terminates the program.
abbrev pub run : List Call → Device → Option Device
run [] d = some d
run (c ∷ calls) d = elim (step c d) [ none ↦ none | some d' ↦ run calls d' ]

-- The thread is joinable exactly while it runs, and the port holds what the ledger has open beside what
-- others hold.
pub record IsValid (d : Device) (fd others : ℕ) : Type 0 where
  pub thread : d.rx_thread ≡ d.running
  pub held : Held d.ledger d.ser fd others

pub connect-IsValid :
    (cfg : Config) (r : Opening) (d : Device) (fd others : ℕ)
    → IsValid d fd others
    → IsValid (connect cfg r d).1 fd others
unfolding connect
connect-IsValid cfg r d fd others v = record {
  thread = v.thread;
  held = (open_port_lem r d.ser d.ledger fd others v.held).0;
}

close-none : (fd : Fd) (l : Ledger) → (close fd l).0 ≡ none
unfolding close
close-none none l = refl
close-none (some fd) l = refl

pub disconnect-IsValid :
    (d : Device) (fd others : ℕ) → IsValid d fd others → IsValid (disconnect d) fd others
unfolding disconnect
disconnect-IsValid d fd others v = record {
  thread = v.thread;
  held = rw (close-none d.ser d.ledger) (omega (arith, close-Held d.ser d.ledger fd others v.held));
}

pub start-IsValid :
    (d : Device) (fd others : ℕ)
    → IsValid d fd others
    → (r : Bool × Device) × (start d ≡ some r) × IsValid r.1 fd others
unfolding start
start-IsValid d fd others v = elim (Bool-cases d.running) [
  | inl e ↦ ((true, d), simp e, v)
  | inr e ↦ elim (Bool-cases (is_open d.ser)) [
    | inr e' ↦ ((false, d), simp (e, e'), v)
    | inl e' ↦ (
      (true, record d { running = true; rx_thread = true }),
      simp (e, e', v.thread),
      record { thread = refl; held = v.held },
    )
  ]
]

pub stopped-IsValid :
    (d : Device) (fd others : ℕ) → IsValid d fd others → IsValid (stopped d) fd others
stopped-IsValid d fd others v = record { thread = refl; held = v.held }

pub stop-stopped : (d : Device) → stop true d ≡ some (stopped d)
unfolding stop
stop-stopped d = elim (Bool-cases d.rx_thread) [ inl e ↦ simp e refl | inr e ↦ simp e refl ]

step-IsValid :
    (c : Call) (d : Device) (fd others : ℕ)
    → IsValid d fd others
    → (d' : Device) × (step c d ≡ some d') × IsValid d' fd others
step-IsValid (connects cfg r) d fd others v =
    ((connect cfg r d).1, refl, connect-IsValid cfg r d fd others v)
step-IsValid disconnects d fd others v = (disconnect d, refl, disconnect-IsValid d fd others v)
step-IsValid starts d fd others v =
    let (r, e, v') = start-IsValid d fd others v in (r.1, rw (e, step) refl, v')
step-IsValid stops d fd others v = (stopped d, stop-stopped d, stopped-IsValid d fd others v)

run-IsValid :
    (calls : List Call) (d : Device) (fd others : ℕ)
    → IsValid d fd others
    → (d' : Device) × (run calls d ≡ some d') × IsValid d' fd others
run-IsValid [] d fd others v = (d, refl, v)
run-IsValid (c ∷ calls) d fd others v =
    let (d1, e, v1) = step-IsValid c d fd others v in
    let (d2, e', v2) = run-IsValid calls d1 fd others v1 in (d2, rw (e, run) e', v2)

-- What is left behind by a destroyed device: no thread, no descriptor, and a balanced ledger.
pub record Released (d : Device) (fd others : ℕ) : Type 0 where
  pub joined : d.rx_thread ≡ false
  pub closed : d.ser ≡ none
  pub balance : count fd d.ledger.opened ≡ count fd d.ledger.closed + others

-- If the thread's read comes to an end, the device is destroyed.
pub destroy-Released :
    (d : Device) (fd others : ℕ)
    → IsValid d fd others
    → (d' : Device) × (destroy true d ≡ some d') × Released d' fd others
unfolding destroy disconnect
destroy-Released d fd others v = (
  disconnect (stopped d),
  rw (stop-stopped d, destroy) refl,
  record {
    joined = refl;
    closed = close-none d.ser d.ledger;
    balance = close-Held d.ser d.ledger fd others v.held;
  },
)

pub new_device-IsValid :
    (l : Ledger) (fd others : ℕ)
    → count fd l.opened ≡ count fd l.closed + others
    → IsValid (new_device l) fd others
unfolding new_device
new_device-IsValid l fd others h = record { thread = refl; held = omega arith }

-- Whatever calls of connect, disconnect, start and stop are made of a new device, and whichever of the
-- system's calls fail, no receive thread is started over one that is not joined, which would terminate
-- the program; and if the thread's reads come to an end, the device can be destroyed, and then its
-- thread has been joined, its port is closed, and each descriptor that it opened has been closed once.
-- `others` is what the rest of the program holds.
pub run-destroy :
    (calls : List Call) (l : Ledger) (fd others : ℕ)
    → count fd l.opened ≡ count fd l.closed + others
    → (d d' : Device) × (run calls (new_device l) ≡ some d)
      × (destroy true d ≡ some d')
      × Released d' fd others
run-destroy calls l fd others h =
    let (d, e, v) = run-IsValid calls (new_device l) fd others (new_device-IsValid l fd others h) in
    let (d', e', gone) = destroy-Released d fd others v in (d, d', e, e', gone)
