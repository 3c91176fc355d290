-- ===== src/Rate/Schedule.antt =====
-- When a paced loop goes on.
use stm32_board.Base.{ℕ, ◌+◌, ◌%◌, ◌^◌, ◌≤◌, ◌≡◌, true, ltb, if◌then◌else◌, arith}
use stm32_board.Float.{Fpu}
use stm32_board.Rate.{Chrono, RateLimiter, period, sleep}

-- A sleep of a limiter that is set up ends one period behind the tick before, or, if that has passed,
-- one period from now: never in the past, and with no burst of ticks to catch up. Exactly a sleep that
-- comes too late is counted as late.
pub sleep_schedule :
    (fpu : Fpu) (chrono : Chrono) (now_reset now : ℕ) (rl : RateLimiter)
    → rl.initialized ≡ true
    → let p = period fpu chrono rl in
      let rl' = sleep fpu chrono now_reset now rl in
      (now ≤ rl'.next)
      × (rl.next + p ≤ rl'.next)
      × (rl'.next ≡ (if ltb (rl.next + p) now then now else rl.next) + p)
      × (rl'.late_ticks
          ≡ (if ltb (rl.next + p) now then (rl.late_ticks + 1) % 2 ^ 64 else rl.late_ticks))
unfolding sleep
sleep_schedule fpu chrono now_reset now rl h = ground arith
