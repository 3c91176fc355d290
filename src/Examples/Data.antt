-- ===== src/Examples/Data.antt =====
-- Data that the examples of the workers share.
use stm32_board.Base.{
  ℕ, ◌+◌, ◌-◌, ◌*◌, ◌≡◌, ◌<◌, ◌^◌, refl, some, ltb, leb, ◌==◌, if◌then◌else◌, arith,
}
use stm32_board.Base.Int.{pos}
use stm32_board.Float.{Fpu, f64_one, f64_200, f64_2000, f64_8192}
use stm32_board.Config.{RuntimeConfig, default_config, EventCmd, blank_event, flag_rise}
use stm32_board.Ring.Refine.{IsValid, empty_ring-IsValid}
use stm32_board.Core.{Timestamps}
use stm32_board.Shared.{SharedState, fresh_shared, queue_capacity}
use stm32_board.Tcp.Configure.{ExactSmall}

-- A unit whose numbers keep their order as patterns, with the constants where they are; between two
-- constants the whole numbers follow each other.
abbrev number : ℕ → ℕ
number n =
    if n == 0
    then 0
    else if ltb n 200
    then f64_one + (n - 1)
    else if ltb n 2000
    then f64_200 + (n - 200)
    else if ltb n 8192
    then f64_2000 + (n - 2000)
    else f64_8192 + (n - 8192)

abbrev whole : ℕ → ℕ
whole x =
    if x == 0
    then 0
    else if ltb x f64_200
    then x - f64_one + 1
    else if ltb x f64_2000
    then x - f64_200 + 200
    else if ltb x f64_8192
    then x - f64_2000 + 2000
    else x - f64_8192 + 8192

abbrev pub unit : Fpu
unit = record {
  lt = ltb;
  le = leb;
  sub = ◌-◌;
  mul = ◌*◌;
  div = λ a b. a;
  of_nat = number;
  to_f32 = λ x. 0;
  to_u32 = whole;
  f32_of_int = λ z. 0;
  f32_mul = λ a b. 0;
  f32_add = λ a b. 0;
  f32_div = λ a b. 0;
  f32_neg = λ a. a;
}

number_order : (m n : ℕ) → m < 2 ^ 16 → n < 2 ^ 16 → ltb (number m) (number n) ≡ ltb m n
number_order m n h k = ground arith

whole-number : (n : ℕ) → n < 2 ^ 16 → whole (number n) ≡ n
whole-number n h = ground arith

pub unit-ExactSmall : ExactSmall unit
unit-ExactSmall = record {
  lt_of_nat = number_order;
  to_u32_of_nat = whole-number;
  one = refl;
  two_hundred = refl;
  two_thousand = refl;
  eight_ki = refl;
  hundredth_self = refl;
  five_self = refl;
  five_hundredth = refl;
}

abbrev pub noon : Timestamps
noon = record { epoch_s = 0x41d0_0000_0000_0000; mono_s = 0x4059_0000_0000_0000 }

-- Bit 0 starts, bit 1 stops and bit 2 resets.
abbrev pub with_bits : RuntimeConfig
with_bits = record default_config {
  flag_start_bit = pos 0;
  flag_stop_bit = pos 1;
  flag_reset_bit = pos 2;
}

abbrev pub rise : ℕ → EventCmd
rise bit = record blank_event { type_ = flag_rise; data0 = bit }

abbrev pub started : SharedState
started = record (fresh_shared 0) { cfg = some with_bits }

pub started-sys_event_q : IsValid queue_capacity started.sys_event_q
unfolding fresh_shared
started-sys_event_q = empty_ring-IsValid queue_capacity blank_event (omega arith)
