-- ===== src/System/Armed.antt =====
-- The states in which the system runs and nothing queued would stop it.
use stm32_board.Base.{
  true, ℕ, zero, suc, ◌≡◌, refl, sym, ap, ◌∙◌, subst, List, [], ◌∷◌, ◌++◌, Bool, false, Option,
  arith, All, take, drop, length, ◌==◌, Bool-cases, inl, inr,
}
use stm32_board.Config.{EventCmd, blank_event, RuntimeConfig}
use stm32_board.Mailbox.{load_or_default}
use stm32_board.Ring.{SpscOverwriteRing}
use stm32_board.Ring.Queue
use stm32_board.Ring.Refine.{IsValid, contents}
use stm32_board.Ring.Drain.{fold}
use stm32_board.Shared.{SharedState, queue_capacity}
use stm32_board.Controller.{Draining, apply_sys_event}
use stm32_board.Controller.Safety.{is_rise}

abbrev pub NoRise : List EventCmd → Type 0
NoRise = All (λ ev. is_rise ev.type_ ≡ false)

-- The system runs, and no event of the flags, which alone could stop it, is queued.
pub record Armed (sh : SharedState) : Type 0 where
  pub armed : (load_or_default sh.system_state).running ≡ true
  pub no_rise : NoRise (contents queue_capacity blank_event sh.sys_event_q)
  pub valid : IsValid queue_capacity sh.sys_event_q

pub NoRise-take : (n : ℕ) (q : List EventCmd) → NoRise q → NoRise (take n q)
NoRise-take zero q h = tt
NoRise-take (suc n) [] h = tt
NoRise-take (suc n) (ev ∷ q) (h, hs) = (h, NoRise-take n q hs)

pub NoRise-drop : (n : ℕ) (q : List EventCmd) → NoRise q → NoRise (drop n q)
NoRise-drop zero q h = h
NoRise-drop (suc n) [] h = tt
NoRise-drop (suc n) (ev ∷ q) (h, hs) = NoRise-drop n q hs

NoRise-append :
    (q : List EventCmd) (ev : EventCmd)
    → NoRise q
    → is_rise ev.type_ ≡ false
    → NoRise (q ++ ev ∷ [])
NoRise-append [] ev h e = (e, tt)
NoRise-append (x ∷ q) ev (h, hs) e = (h, NoRise-append q ev hs e)

pub NoRise-push :
    (bound : ℕ) (q : List EventCmd) (ev : EventCmd)
    → NoRise q
    → is_rise ev.type_ ≡ false
    → NoRise (Queue.push bound q ev).0
unfolding Queue.push
NoRise-push bound q ev h e = elim (Bool-cases (length q == bound)) [
  | inl full ↦ rw full (NoRise-append (drop 1 q) ev (NoRise-drop 1 q h) e)
  | inr room ↦ rw room (NoRise-append q ev h e)
]

apply_sys_event-id :
    (cfg : Option RuntimeConfig) (ev : EventCmd) (d : Draining)
    → is_rise ev.type_ ≡ false
    → apply_sys_event cfg ev d ≡ d
unfolding apply_sys_event
apply_sys_event-id cfg ev d h = ground arith

pub fold-id :
    (cfg : Option RuntimeConfig) (evs : List EventCmd) (d : Draining)
    → NoRise evs
    → fold (apply_sys_event cfg) d evs ≡ d
fold-id cfg [] d h = refl
fold-id cfg (ev ∷ evs) d (h, hs) =
    fold-id cfg evs (apply_sys_event cfg ev d) hs ∙ apply_sys_event-id cfg ev d h

-- The parts of the shared state that `Armed` is about.
abbrev pub control_part : SharedState → Bool × SpscOverwriteRing EventCmd
control_part sh = ((load_or_default sh.system_state).running, sh.sys_event_q)

pub Armed-same : (sh sh' : SharedState) → control_part sh' ≡ control_part sh → Armed sh → Armed sh'
Armed-same sh sh' e h = record {
  armed = ap (λ p. p.0) e ∙ h.armed;
  no_rise =
      subst (λ q. NoRise (contents queue_capacity blank_event q)) (sym (ap (λ p. p.1) e)) h.no_rise;
  valid = subst (λ q. IsValid queue_capacity q) (sym (ap (λ p. p.1) e)) h.valid;
}
