-- ===== src/System/Shutdown/Order.antt =====
-- The order in which main joins the threads.
use stm32_board.Base.{◌≡◌, refl, ap, List, [], ◌∷◌, true, false, arith, inl, inr, Bool-cases}
use stm32_board.Mailbox.{StopFlag, stop_requested}
use stm32_board.System.Shutdown.{
  Signals, SignalHandler, install, restore, Thread, t_usb, t_tcp, t_ctrl, t_log, Phase, polls,
  joins, returned, Ended, has_ended, end_thread, UsbPhase, Program, main_step,
}

abbrev pub everything : Ended
everything = record { usb = true; tcp = true; ctrl = true; log = true }

-- The threads that main has joined have ended.
pub data JoinOrder (e : Ended) : List Thread → Type 0 where
  none_joined : JoinOrder e (t_tcp ∷ (t_ctrl ∷ (t_usb ∷ (t_log ∷ []))))
  tcp_joined : e.tcp ≡ true → JoinOrder e (t_ctrl ∷ (t_usb ∷ (t_log ∷ [])))
  ctrl_joined : e.tcp ≡ true → e.ctrl ≡ true → JoinOrder e (t_usb ∷ (t_log ∷ []))
  usb_joined : e.tcp ≡ true → e.ctrl ≡ true → e.usb ≡ true → JoinOrder e (t_log ∷ [])
  all_joined : e ≡ everything → JoinOrder e []

-- The handlers are those from before exactly when main has returned.
pub data Main (before : Signals) (e : Ended) (stop : StopFlag) (now : Signals) (h : SignalHandler)
    : Phase → Type 0 where
  polling : (install before ≡ (h, now)) → Main before e stop now h polls
  joining :
      {left : List Thread}
      → stop_requested stop ≡ true
      → (install before ≡ (h, now))
      → JoinOrder e left
      → Main before e stop now h (joins left)
  done :
      stop_requested stop ≡ true → now ≡ before → e ≡ everything → Main before e stop now h returned

abbrev pub Safe : Signals → Program → Type 0
Safe before p = Main before p.ended p.stop p.signals p.handler p.main

restored :
    (before now : Signals) (h : SignalHandler)
    → before.instance_set ≡ false
    → install before ≡ (h, now)
    → restore h now ≡ before
unfolding install restore
restored before now h f e = ground arith

pub join_next :
    (before : Signals) (stop : StopFlag) (now : Signals) (h : SignalHandler) (e : Ended)
    (u : UsbPhase) (left : List Thread)
    → before.instance_set ≡ false
    → stop_requested stop ≡ true
    → install before ≡ (h, now)
    → JoinOrder e left
    → Safe before (
        main_step (record {
          stop = stop;
          signals = now;
          handler = h;
          ended = e;
          usb = u;
          main = joins left;
        }))
unfolding main_step has_ended
join_next before stop now h e u _ f s i none_joined = elim (Bool-cases e.tcp) [
  | inl t ↦ simp t (joining s i (tcp_joined t))
  | inr t ↦ simp t (joining s i none_joined)
]
join_next before stop now h e u _ f s i (tcp_joined a) = elim (Bool-cases e.ctrl) [
  | inl t ↦ simp t (joining s i (ctrl_joined a t))
  | inr t ↦ simp t (joining s i (tcp_joined a))
]
join_next before stop now h e u _ f s i (ctrl_joined a b) = elim (Bool-cases e.usb) [
  | inl t ↦ simp t (joining s i (usb_joined a b t))
  | inr t ↦ simp t (joining s i (ctrl_joined a b))
]
join_next before stop now h e u _ f s i (usb_joined a b c) = elim (Bool-cases e.log) [
  | inl t ↦ simp t (joining s i (all_joined (ground arith)))
  | inr t ↦ simp t (joining s i (usb_joined a b c))
]
join_next before stop now h e u _ f s i (all_joined all) = done s (restored before now h f i) all

-- The order is kept when more threads end.
abbrev pub Later : Ended → Ended → Type 0
Later e e' =
    (e.usb ≡ true → e'.usb ≡ true)
    × (e.tcp ≡ true → e'.tcp ≡ true)
    × (e.ctrl ≡ true → e'.ctrl ≡ true)
    × (e.log ≡ true → e'.log ≡ true)

everything-Later : (e e' : Ended) → Later e e' → e ≡ everything → e' ≡ everything
everything-Later e e' l h = ground (
  arith,
  l.0 (ap (λ (x : Ended). x.usb) h),
  l.1 (ap (λ (x : Ended). x.tcp) h),
  l.2 (ap (λ (x : Ended). x.ctrl) h),
  l.3 (ap (λ (x : Ended). x.log) h),
)

JoinOrder-Later :
    {left : List Thread} (e e' : Ended) → Later e e' → JoinOrder e left → JoinOrder e' left
JoinOrder-Later e e' l none_joined = none_joined
JoinOrder-Later e e' l (tcp_joined a) = tcp_joined (l.1 a)
JoinOrder-Later e e' l (ctrl_joined a b) = ctrl_joined (l.1 a) (l.2 b)
JoinOrder-Later e e' l (usb_joined a b c) = usb_joined (l.1 a) (l.2 b) (l.0 c)
JoinOrder-Later e e' l (all_joined all) = all_joined (everything-Later e e' l all)

pub Main-Later :
    {before now : Signals} {h : SignalHandler} {m : Phase} (e e' : Ended) (stop stop' : StopFlag)
    → Later e e'
    → (stop_requested stop ≡ true → stop_requested stop' ≡ true)
    → Main before e stop now h m
    → Main before e' stop' now h m
Main-Later e e' stop stop' l k (polling i) = polling i
Main-Later e e' stop stop' l k (joining s i o) = joining (k s) i (JoinOrder-Later e e' l o)
Main-Later e e' stop stop' l k (done s r all) = done (k s) r (everything-Later e e' l all)

pub end_thread-Later : (t : Thread) (e : Ended) → Later e (end_thread t e)
unfolding end_thread
end_thread-Later t_usb e = (λ h. refl, λ h. h, λ h. h, λ h. h)
end_thread-Later t_tcp e = (λ h. h, λ h. refl, λ h. h, λ h. h)
end_thread-Later t_ctrl e = (λ h. h, λ h. h, λ h. refl, λ h. h)
end_thread-Later t_log e = (λ h. h, λ h. h, λ h. h, λ h. refl)

pub same_ended : (e : Ended) → Later e e
same_ended e = (λ h. h, λ h. h, λ h. h, λ h. h)
