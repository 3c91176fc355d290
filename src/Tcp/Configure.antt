-- ===== src/Tcp/Configure.antt =====
-- `apply_config_payload`: the configuration keeps its bounds, and the change is announced.
use stm32_board.Base.{
  ℕ, ◌-◌, ◌^◌, ◌≤◌, ◌<◌, ◌≡◌, refl, sym, ap, ap₂, ◌∙◌, false, some, if◌then◌else◌, ltb, arith,
}
use stm32_board.Core.{Timestamps, IsU16}
use stm32_board.Float.{Fpu, f64_one, f64_five, f64_hundredth, f64_200, f64_1000, f64_2000, f64_8192}
use stm32_board.Wire.Messages.{ConfigPayload}
use stm32_board.Config.{RuntimeConfig, config_applied, blank_event}
use stm32_board.Shared.{SharedState, queue_capacity}
use stm32_board.Ring.Refine.{IsValid, contents, push_overwrite_refines}
use stm32_board.Ring.Queue
use stm32_board.Tcp.{
  clampd, configure, current_config, apply_config_payload, emit_config_applied, publish_sys_event,
}

-- What the double unit does with the integers below 2 ^ 16, which it holds exactly, and with the
-- bounds of the command timeout.
pub record ExactSmall (fpu : Fpu) : Type 0 where
  pub lt_of_nat :
      (m n : ℕ) → m < 2 ^ 16 → n < 2 ^ 16 → fpu.lt (fpu.of_nat m) (fpu.of_nat n) ≡ ltb m n
  pub to_u32_of_nat : (n : ℕ) → n < 2 ^ 16 → fpu.to_u32 (fpu.of_nat n) ≡ n
  pub one : fpu.of_nat 1 ≡ f64_one
  pub two_hundred : fpu.of_nat 200 ≡ f64_200
  pub two_thousand : fpu.of_nat 2000 ≡ f64_2000
  pub eight_ki : fpu.of_nat 8192 ≡ f64_8192
  pub hundredth_self : fpu.lt f64_hundredth f64_hundredth ≡ false
  pub five_self : fpu.lt f64_five f64_five ≡ false
  pub five_hundredth : fpu.lt f64_five f64_hundredth ≡ false

-- A rate of whole hertz from 1 to 2000.
unfoldable pub IsRate : Fpu → ℕ → Type 0
IsRate fpu hz = (n : ℕ) × (1 ≤ n) × (n ≤ 2000) × (hz ≡ fpu.of_nat n)

pub record IsTuned (fpu : Fpu) (c : RuntimeConfig) : Type 0 where
  pub usb : IsRate fpu c.usb_hz
  pub tcp : IsRate fpu c.tcp_hz
  pub ctrl : IsRate fpu c.ctrl_hz
  pub timeout_above : fpu.lt c.cmd_timeout_s f64_hundredth ≡ false
  pub timeout_below : fpu.lt f64_five c.cmd_timeout_s ≡ false
  pub rotate_above : 1 ≤ c.log_rotate_mb
  pub rotate_below : c.log_rotate_mb ≤ 8192
  pub keep_above : 1 ≤ c.log_rotate_keep
  pub keep_below : c.log_rotate_keep ≤ 200

-- The whole number that a clamp lets through.
abbrev clamp : ℕ → ℕ → ℕ → ℕ
clamp n lo hi = if ltb n lo then lo else if ltb hi n then hi else n

module _ (fpu : Fpu) (exact : ExactSmall fpu) where
  clampd-of_nat :
      (n lo hi : ℕ)
      → n < 2 ^ 16
      → lo < 2 ^ 16
      → hi < 2 ^ 16
      → clampd fpu (fpu.of_nat n) (fpu.of_nat lo) (fpu.of_nat hi) ≡ fpu.of_nat (clamp n lo hi)
  unfolding clampd
  clampd-of_nat n lo hi hn hl hh =
      ground (arith, exact.lt_of_nat n lo hn hl, exact.lt_of_nat hi n hh hn)

  rate : (n : ℕ) → n < 2 ^ 16 → IsRate fpu (clampd fpu (fpu.of_nat n) f64_one f64_2000)
  unfolding IsRate
  rate n h = (
    clamp n 1 2000,
    ground arith,
    ground arith,
    ap₂ (clampd fpu (fpu.of_nat n)) (sym exact.one) (sym exact.two_thousand)
        ∙ clampd-of_nat n 1 2000 h (omega arith) (omega arith),
  )

  count :
      (n hi : ℕ) {hi' : ℕ}
      → n < 2 ^ 16
      → 1 ≤ hi
      → hi < 2 ^ 16
      → fpu.of_nat hi ≡ hi'
      → fpu.to_u32 (clampd fpu (fpu.of_nat n) f64_one hi') ≡ clamp n 1 hi
  count n hi h low k e =
      ap fpu.to_u32 (
        ap₂ (clampd fpu (fpu.of_nat n)) (sym exact.one) (sym e)
        ∙ clampd-of_nat n 1 hi h (omega arith) k)
      ∙ exact.to_u32_of_nat (clamp n 1 hi) (ground arith)

  timeout :
      (v : ℕ)
      → let t = clampd fpu v f64_hundredth f64_five in
        (fpu.lt t f64_hundredth ≡ false) × (fpu.lt f64_five t ≡ false)
  unfolding clampd
  timeout v = ground (arith, exact.hundredth_self, exact.five_self, exact.five_hundredth)

  pub configure-IsTuned :
      (c : RuntimeConfig) (p : ConfigPayload)
      → IsU16 p.u16
      → IsTuned fpu c
      → IsTuned fpu (configure fpu c p)
  unfolding configure
  configure-IsTuned c p h v = ground (
    arith,
    rate p.u16 h,
    timeout (fpu.div (fpu.of_nat p.u16) f64_1000),
    count p.u16 8192 h (omega arith) (omega arith) exact.eight_ki,
    count p.u16 200 h (omega arith) (omega arith) exact.two_hundred,
  )

  -- A configuration message keeps the tuned values within their bounds, whatever its key and its
  -- values, and puts a CONFIG_APPLIED event with its sequence number and key in the controller's queue.
  pub apply_config_payload-IsTuned :
      (sh : SharedState) (now : Timestamps) (p : ConfigPayload)
      → IsU16 p.u16
      → IsTuned fpu (current_config fpu sh)
      → IsValid queue_capacity sh.sys_event_q
      → let sh' = apply_config_payload fpu sh now p in
        (c : RuntimeConfig) × (sh'.cfg ≡ some c)
        × IsTuned fpu c
        × (contents queue_capacity blank_event sh'.sys_event_q
            ≡ (Queue.push
                (queue_capacity - 1)
                (contents queue_capacity blank_event sh.sys_event_q)
                (record blank_event { type_ = config_applied; seq = p.seq; data0 = p.key })).0)
  unfolding apply_config_payload emit_config_applied publish_sys_event
  apply_config_payload-IsTuned sh now p h v q = (
    configure fpu (current_config fpu sh) p,
    refl,
    configure-IsTuned (current_config fpu sh) p h v,
    (push_overwrite_refines queue_capacity blank_event sh.sys_event_q _ q).0,
  )

-- The fields that take effect only when the gateway starts.
pub record SameAtStart (c d : RuntimeConfig) : Type 0 where
  pub bind_ip : c.bind_ip ≡ d.bind_ip
  pub state_port : c.state_port ≡ d.state_port
  pub cmd_port : c.cmd_port ≡ d.cmd_port
  pub serial_dev : c.serial_dev ≡ d.serial_dev
  pub serial_baud : c.serial_baud ≡ d.serial_baud
  pub binary_log : c.binary_log ≡ d.binary_log
  pub log_path : c.log_path ≡ d.log_path
  pub flag_start_bit : c.flag_start_bit ≡ d.flag_start_bit
  pub flag_stop_bit : c.flag_stop_bit ≡ d.flag_stop_bit
  pub flag_reset_bit : c.flag_reset_bit ≡ d.flag_reset_bit

-- No configuration message changes an address, a port, the serial line, the log or the event bits.
pub configure-SameAtStart :
    (fpu : Fpu) (c : RuntimeConfig) (p : ConfigPayload) → SameAtStart (configure fpu c p) c
unfolding configure
configure-SameAtStart fpu c p = ground arith
