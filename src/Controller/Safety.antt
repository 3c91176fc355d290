-- ===== src/Controller/Safety.antt =====
-- What a control cycle publishes, and what the events of the cycle do to it.
use stm32_board.Base.{
  ℕ, ◌≡◌, refl, ap, ◌∙◌, List, [], ◌∷◌, Bool, true, false, not, ◌&&◌, ◌||◌, some, if◌then◌else◌,
  arith, take, drop,
}
use stm32_board.Core.{zero_motor_commands}
use stm32_board.Float.{Fpu}
use stm32_board.Config.{
  ControlMode, pass_through_cmd, EventType, flag_rise, EventCmd, blank_event, RuntimeConfig,
}
use stm32_board.Mailbox.{store, load_or_default}
use stm32_board.Ring.{drain}
use stm32_board.Ring.Refine.{IsValid, contents}
use stm32_board.Ring.Drain.{fold, drain_lem}
use stm32_board.Shared.{SharedState, queue_capacity}
use stm32_board.Controller.{
  Draining, bit_matches, apply_sys_event, cmd_timeout_active, desired_cmd, system_snapshot,
  control_cycle,
}

abbrev pub is_rise : EventType → Bool
is_rise flag_rise = true
is_rise _ = false

abbrev pub is_pass : ControlMode → Bool
is_pass pass_through_cmd = true
is_pass _ = false

-- The events of a cycle, as the operator means them: the last one that starts, stops or resets
-- decides, and a stop or a reset wins over a start on the same bit.
abbrev pub is_stop : RuntimeConfig → EventCmd → Bool
is_stop c ev =
    is_rise ev.type_
    && (bit_matches c.flag_stop_bit ev.data0 || bit_matches c.flag_reset_bit ev.data0)

abbrev pub is_start : RuntimeConfig → EventCmd → Bool
is_start c ev = is_rise ev.type_ && bit_matches c.flag_start_bit ev.data0

abbrev pub armed : RuntimeConfig → List EventCmd → Bool → Bool
armed c [] running = running
armed c (ev ∷ evs) running =
    armed c evs (if is_stop c ev then false else if is_start c ev then true else running)

-- The snapshot that a cycle starts from.
abbrev pub start_of : SharedState → Draining
start_of sh = record {
  sys = system_snapshot sh;
  remote = sh.latest_remote_motor_cmd;
  setpoint = sh.latest_setpoint_cmd;
}

step_armed :
    (c : RuntimeConfig) (ev : EventCmd) (d : Draining)
    → ((apply_sys_event (some c) ev d).sys.running
        ≡ (if is_stop c ev then false else if is_start c ev then true else d.sys.running))
      × ((apply_sys_event (some c) ev d).sys.control_mode ≡ d.sys.control_mode)
unfolding apply_sys_event
step_armed c ev d = ground arith

fold-armed :
    (c : RuntimeConfig) (evs : List EventCmd) (d : Draining)
    → let d' = fold (apply_sys_event (some c)) d evs in
      (d'.sys.running ≡ armed c evs d.sys.running) × (d'.sys.control_mode ≡ d.sys.control_mode)
fold-armed c [] d = (refl, refl)
fold-armed c (ev ∷ evs) d =
    let d' = apply_sys_event (some c) ev d in
    let (run, mode) = step_armed c ev d in
    let (run', mode') = fold-armed c evs d' in (run' ∙ ap (armed c evs) run, mode' ∙ mode)

reset_start :
    (c : RuntimeConfig) (reset start : EventCmd) (d : Draining)
    → reset.type_ ≡ flag_rise
    → bit_matches c.flag_reset_bit reset.data0 ≡ true
    → is_start c start ≡ true
    → is_stop c start ≡ false
    → (apply_sys_event (some c) start (apply_sys_event (some c) reset d)).remote.value
      ≡ zero_motor_commands
unfolding apply_sys_event store
reset_start c reset start d rise hit go keep = ground arith

module _ (fpu : Fpu) (now_mono : ℕ) (sh : SharedState)
    (v : IsValid queue_capacity sh.sys_event_q) where
  -- The events that the cycle takes.
  abbrev batch : List EventCmd
  batch = take 32 (contents queue_capacity blank_event sh.sys_event_q)

  abbrev timeout : Bool
  timeout = cmd_timeout_active fpu sh.cfg now_mono sh.last_cmd_rx_mono_s

  drained :
      (drain queue_capacity blank_event 32 (apply_sys_event sh.cfg) sh.sys_event_q (start_of sh)).2
      ≡ fold (apply_sys_event sh.cfg) (start_of sh) batch
  drained =
      (drain_lem queue_capacity blank_event (apply_sys_event sh.cfg) 32 sh.sys_event_q (start_of sh)
        v).2

  -- The motors get the remote command only from a cycle that is running, within the command timeout
  -- and in pass-through mode, by the state that the same cycle publishes; in all other cases zero.
  pub control_cycle_request :
      let sh' = control_cycle fpu now_mono sh in
      let sys' = load_or_default sh'.system_state in
      load_or_default sh'.latest_motor_command_request ≡ (
        if sys'.running && (not timeout && is_pass sys'.control_mode)
        then load_or_default sh.latest_remote_motor_cmd
        else zero_motor_commands)
  unfolding control_cycle desired_cmd store load_or_default
  control_cycle_request = ground arith

module _ (fpu : Fpu) (now_mono : ℕ) (sh : SharedState) (c : RuntimeConfig)
    (v : IsValid queue_capacity sh.sys_event_q) (e : sh.cfg ≡ some c) where
  snapshot :
      ((system_snapshot sh).running ≡ (load_or_default sh.system_state).running)
      × ((system_snapshot sh).control_mode ≡ c.control_mode)
  unfolding system_snapshot
  snapshot = ground arith

  drained_by :
      (drain queue_capacity blank_event 32 (apply_sys_event sh.cfg) sh.sys_event_q (start_of sh)).2
      ≡ fold
          (apply_sys_event (some c))
          (start_of sh)
          (take 32 (contents queue_capacity blank_event sh.sys_event_q))
  drained_by =
      drained fpu now_mono sh v
      ∙ ap
          (λ cfg.
            fold (apply_sys_event cfg) (start_of sh)
              (take 32 (contents queue_capacity blank_event sh.sys_event_q)))
          e

  -- Whether the system runs after a cycle is decided by the events among the 32 oldest in the queue:
  -- the last start, stop or reset, or the state before if there is none. The mode is the configured
  -- one, and the other events stay queued.
  pub control_cycle-armed :
      let q = contents queue_capacity blank_event sh.sys_event_q in
      let sh' = control_cycle fpu now_mono sh in
      let sys' = load_or_default sh'.system_state in
      (sys'.running ≡ armed c (take 32 q) (load_or_default sh.system_state).running)
      × (sys'.control_mode ≡ c.control_mode)
      × (contents queue_capacity blank_event sh'.sys_event_q ≡ drop 32 q)
  unfolding control_cycle store load_or_default
  control_cycle-armed =
      let evs = take 32 (contents queue_capacity blank_event sh.sys_event_q) in
      let (run, mode) = fold-armed c evs (start_of sh) in
      (
        ap (λ d. d.sys.running) drained_by ∙ run ∙ ap (armed c evs) snapshot.0,
        ap (λ d. d.sys.control_mode) drained_by ∙ mode ∙ snapshot.1,
        (drain_lem queue_capacity blank_event (apply_sys_event sh.cfg) 32 sh.sys_event_q
            (start_of sh) v).1,
      )

  -- A reset and then a start in one batch, on different bits, in pass-through mode and within the
  -- command timeout: the command from before the reset is published once more, although the mailbox
  -- that it came from has been cleared.
  pub control_cycle_reset_start :
      (reset start : EventCmd)
      → contents queue_capacity blank_event sh.sys_event_q ≡ reset ∷ start ∷ []
      → reset.type_ ≡ flag_rise
      → bit_matches c.flag_reset_bit reset.data0 ≡ true
      → is_start c start ≡ true
      → is_stop c start ≡ false
      → c.control_mode ≡ pass_through_cmd
      → cmd_timeout_active fpu sh.cfg now_mono sh.last_cmd_rx_mono_s ≡ false
      → let sh' = control_cycle fpu now_mono sh in
        (load_or_default sh'.latest_motor_command_request
          ≡ load_or_default sh.latest_remote_motor_cmd)
        × (load_or_default sh'.latest_remote_motor_cmd ≡ zero_motor_commands)
  unfolding control_cycle load_or_default
  control_cycle_reset_start reset start q rise hit go keep pass live =
      let r0 = (load_or_default sh.system_state).running in
      let armed_by = control_cycle-armed in
      let running = armed_by.0 ∙ ap (λ evs. armed c (take 32 evs) r0) q in
      (ground (arith, control_cycle_request fpu now_mono sh v, running, armed_by.1), cleared)
    where
      cleared :
          load_or_default (control_cycle fpu now_mono sh).latest_remote_motor_cmd
          ≡ zero_motor_commands
      cleared =
          ap (λ (d : Draining). d.remote.value)
            (drained_by ∙ ap (λ evs. fold (apply_sys_event (some c)) (start_of sh) (take 32 evs)) q)
          ∙ reset_start c reset start (start_of sh) rise hit go keep
