-- ===== src/Usb/Session/Shutdown.antt =====
-- How the USB worker ends.
use stm32_board.Base.{
  ℕ, suc, ◌+◌, ◌≤◌, ◌≡◌, refl, ap, ◌∙◌, List, [], ◌∷◌, ◌++◌, Bool, true, false, Option, none, some,
  arith, length, leb, ◌||◌, ◌⊎◌, inl, inr, Bool-cases, Option-cases,
}
use stm32_board.Float.{Fpu}
use stm32_board.Mailbox.{StopFlag, request_stop, stop_requested}
use stm32_board.Rosmaster.{set_auto_report_state}
use stm32_board.Rosmaster.Device.{Config, Device, new_device, connect, disconnect, stopped}
use stm32_board.Rosmaster.Device.Life.{
  IsValid, connect-IsValid, disconnect-IsValid, start-IsValid, stopped-IsValid, stop-stopped,
  Released, destroy-Released, new_device-IsValid,
}
use stm32_board.Socket.{Ledger}
use stm32_board.Socket.Balance.{count}
use stm32_board.Usb.{
  connect_max_total, Attempt, connect_or_request_stop, UsbState, write_all, Round, usb_loop,
}
use stm32_board.Usb.Connect.{is_some, Clocked, connect_or_request_stop-ends}
use stm32_board.Usb.Safety.{off_frames, usb_run-off_frames}
use stm32_board.Usb.Session.{
  Try, connect_device, leave, started, connected, usb_worker, serial_config,
}

-- What the attempts of a device come to.
abbrev pub attempts : Config → List Try → Device → List Attempt
attempts cfg [] d = []
attempts cfg (t ∷ tries) d =
    record { stopping = t.stopping; connects = (connect cfg t.opening d).0; elapsed = t.elapsed }
    ∷ attempts cfg tries (connect cfg t.opening d).1

connect_device-is_some :
    (cfg : Config) (tries : List Try) (attempt : ℕ) (flag : StopFlag) (d : Device)
    → is_some (connect_device cfg tries flag d)
      ≡ is_some (connect_or_request_stop (attempts cfg tries d) attempt flag)
unfolding connect_device connect_or_request_stop
connect_device-is_some cfg [] attempt flag d = refl
connect_device-is_some cfg (t ∷ tries) attempt flag d =
    ground (arith, connect_device-is_some cfg tries (attempt + 1) flag (connect cfg t.opening d).1)

length-attempts :
    (cfg : Config) (tries : List Try) (d : Device) → length (attempts cfg tries d) ≡ length tries
length-attempts cfg [] d = refl
length-attempts cfg (t ∷ tries) d = ap suc (length-attempts cfg tries (connect cfg t.opening d).1)

-- The device is whole, and it is connected or the program is asked to stop.
abbrev Ready : ℕ → ℕ → Option (Bool × StopFlag × Device) → Type 0
Ready fd others none = Unit {0}
Ready fd others (some (ok, flag, d)) = IsValid d fd others × ((ok || stop_requested flag) ≡ true)

connect_device-Ready :
    (cfg : Config) (tries : List Try) (flag : StopFlag) (d : Device) (fd others : ℕ)
    → IsValid d fd others
    → Ready fd others (connect_device cfg tries flag d)
unfolding connect_device request_stop stop_requested
connect_device-Ready cfg [] flag d fd others v = tt
connect_device-Ready cfg (t ∷ tries) flag d fd others v =
    let d' = (connect cfg t.opening d).1 in
    let v' = connect-IsValid cfg t.opening d fd others v in
    elim (Bool-cases t.stopping) [
      | inl e ↦ simp e (v, refl)
      | inr e ↦ elim (Bool-cases (connect cfg t.opening d).0) [
        | inl e' ↦ simp (e, e') (v', refl)
        | inr e' ↦ elim (Bool-cases (leb connect_max_total t.elapsed)) [
          | inl e'' ↦ simp (e, e', e'') (v', refl)
          | inr e'' ↦ simp (e, e', e'') (connect_device-Ready cfg tries flag d' fd others v')
        ]
      ]
    ]

none_ends : false ≡ true → ⊥
none_ends h = cc

module _ (fpu : Fpu) (answers : ℕ → Bool) (max_hw_events : ℕ) (rounds : List Round) where
  -- The variables behind the frame that switches the reports of the board on.
  abbrev pub reporting : UsbState → UsbState
  reporting u = (write_all answers (set_auto_report_state true false) u).1

  -- What the worker has written: nothing, and then it asked the program to stop, or the frame that
  -- switches the reports on, the frames of its rounds and five motor-off frames.
  abbrev pub Written : UsbState → UsbState → Type 0
  Written u u' =
      ((u'.frames ≡ u.frames) × (stop_requested u'.stop ≡ true))
      ⊎ ((flag : StopFlag) × (u'.frames
            ≡ (usb_loop fpu answers max_hw_events rounds
                (reporting (record u { stop = flag }))).frames
              ++ off_frames 5))

  -- The worker comes to its end, with its device released.
  abbrev pub Ends : UsbState → Option (UsbState × Device) → ℕ → ℕ → Type 0
  Ends u out fd others =
      (r : UsbState × Device) × (out ≡ some r) × Released r.1 fd others × Written u r.0

  leave-Ends :
      (u u' : UsbState) (d : Device) (fd others : ℕ)
      → IsValid d fd others
      → Written u u'
      → Ends u (leave true u' (some d)) fd others
  leave-Ends u u' d fd others v wrote =
      let (d', e, gone) = destroy-Released d fd others v in
      ((u', d'), rw (e, leave) refl, gone, wrote)

  started-Ends :
      (ok : Bool) (d : Device) (u : UsbState) (flag : StopFlag) (fd others : ℕ)
      → IsValid d fd others
      → Ends u
          (started fpu answers max_hw_events rounds true ok d (record u { stop = flag }))
          fd
          others
  unfolding started stop_requested request_stop
  started-Ends false d u flag fd others v = leave-Ends u _ d fd others v (inl (refl, refl))
  started-Ends true d u flag fd others v = rw (stop-stopped d) (
      leave-Ends u _ (disconnect (stopped d)) fd others
        (disconnect-IsValid (stopped d) fd others (stopped-IsValid d fd others v))
        (inr (
          flag,
          usb_run-off_frames fpu answers max_hw_events rounds
              (reporting (record u { stop = flag })),
        )))

  connected-Ends :
      (ok : Bool) (d : Device) (u : UsbState) (flag : StopFlag) (fd others : ℕ)
      → IsValid d fd others
      → (ok || stop_requested flag) ≡ true
      → Ends u
          (connected fpu answers max_hw_events rounds true ok d (record u { stop = flag }))
          fd
          others
  unfolding connected
  connected-Ends false d u flag fd others v s =
      leave-Ends u (record u { stop = flag }) d fd others v (inl (refl, s))
  connected-Ends true d u flag fd others v s =
      let ((ok, d'), e, v') = start-IsValid d fd others v in
      rw (e, connected) (started-Ends ok d' u flag fd others v')

  -- The USB worker comes to its end, for rounds of any finite number, if the clock is monotonic and the
  -- read that its receive thread is in when it stops comes to an end: it has connected or given up after
  -- eight attempts, and it never starts a second thread over the first, which would terminate the
  -- program. Then its receive thread has been joined, its port is closed, and each descriptor that it
  -- was given has been closed once, `others` being what the rest of the program holds. It has written
  -- nothing and asked the program to stop; or what it wrote ends in five motor-off frames, behind the
  -- frame that switches the reports on and those of its rounds.
  pub usb_worker-ends :
      (tries : List Try) (u : UsbState) (l : Ledger) (fd others : ℕ)
      → Clocked 0 0 (attempts (serial_config u.sh.cfg) tries (new_device l))
      → 8 ≤ length tries
      → count fd l.opened ≡ count fd l.closed + others
      → (r : UsbState × Device) × (usb_worker fpu answers max_hw_events rounds true tries u l
          ≡ some r)
        × Released r.1 fd others
        × Written u r.0
  unfolding usb_worker
  usb_worker-ends tries u l fd others clocked enough h =
      let cfg = serial_config u.sh.cfg in
      let ended =
        connect_device-is_some cfg tries 0 u.stop (new_device l)
        ∙ connect_or_request_stop-ends (attempts cfg tries (new_device l)) u.stop clocked
            (omega (arith, length-attempts cfg tries (new_device l))) in
      let ready =
        connect_device-Ready cfg tries u.stop (new_device l) fd others
          (new_device-IsValid l fd others h) in
      elim (Option-cases (connect_device cfg tries u.stop (new_device l))) [
        | inl e ↦ absurd (none_ends (rw e at ended))
        | inr ((ok, flag, d), e) ↦
            let ready' = rw e at ready in
            rw (e, usb_worker) (connected-Ends ok d u flag fd others ready'.0 ready'.1)
      ]
