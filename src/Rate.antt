-- ===== src/Rate.antt =====
-- cpp_gateway/include/utils/rate_limiter.hpp: the schedule of the loops. A time of the steady clock is
-- a number of its ticks; the conversions between ticks and seconds are arguments.
pub mod Schedule
use stm32_board.Base.{ℕ, ◌+◌, ◌-◌, ◌%◌, ◌^◌, Bool, true, false, not, ltb, if◌then◌else◌}
use stm32_board.Float.{Fpu, f64_zero, f64_one}

-- `duration_cast` of seconds to ticks, of ticks to seconds, and the cast of a double to uint64.
pub record Chrono : Type 0 where
  pub ticks : ℕ → ℕ
  pub seconds : ℕ → ℕ
  pub to_u64 : ℕ → ℕ

pub record RateLimiter : Type 0 where
  pub hz : ℕ
  pub next : ℕ
  pub initialized : Bool
  pub late_ticks : ℕ
  pub skipped_ticks : ℕ
  pub last_late_s : ℕ
  pub max_late_s : ℕ

-- `RateLimiter()`
abbrev pub default_limiter : RateLimiter
default_limiter = record {
  hz = f64_one;
  next = 0;
  initialized = false;
  late_ticks = 0;
  skipped_ticks = 0;
  last_late_s = f64_zero;
  max_late_s = f64_zero;
}

unfoldable pub reset : ℕ → RateLimiter → RateLimiter
reset now rl = record {
  hz = rl.hz;
  next = now;
  initialized = true;
  late_ticks = 0;
  skipped_ticks = 0;
  last_late_s = f64_zero;
  max_late_s = f64_zero;
}

module _ (fpu : Fpu) where
  unfoldable pub set_hz : ℕ → RateLimiter → RateLimiter
  set_hz hz rl = record rl { hz = if fpu.lt f64_zero hz then hz else f64_one }

  -- `RateLimiter(hz)`, made at the time `now`.
  unfoldable pub rate_limiter : ℕ → ℕ → RateLimiter
  rate_limiter hz now = reset now (set_hz hz default_limiter)

  module _ (chrono : Chrono) where
    abbrev pub period : RateLimiter → ℕ
    period rl = chrono.ticks (fpu.div f64_one rl.hz)

    -- `sleep`: the clock says `now_reset` if the limiter is reset first, and `now` later. The thread
    -- sleeps until `next` of the result.
    unfoldable pub sleep : ℕ → ℕ → RateLimiter → RateLimiter
    sleep now_reset now rl =
        let rl0 = if not rl.initialized then reset now_reset rl else rl in
        let period_d = period rl0 in
        let next = rl0.next + period_d in
        if ltb next now
        then overrun period_d now (now - next) (record rl0 { next = next })
        else record rl0 { next = next }
      where
        overrun : ℕ → ℕ → ℕ → RateLimiter → RateLimiter
        overrun period_d now late rl =
            let late_s = chrono.seconds late in
            let missed = (chrono.to_u64 (fpu.div late_s (chrono.seconds period_d)) + 1) % 2 ^ 64 in
            record rl {
              next = now + period_d;
              late_ticks = (rl.late_ticks + 1) % 2 ^ 64;
              skipped_ticks = (rl.skipped_ticks + missed) % 2 ^ 64;
              last_late_s = late_s;
              max_late_s = if fpu.lt rl.max_late_s late_s then late_s else rl.max_late_s;
            }
