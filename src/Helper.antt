-- ===== src/Helper.antt =====
-- cpp_gateway/app/helpper.cpp: `Print`, which says when it is time for the next line, and
-- src/utils/timestamp.cpp. A time is a double; the formatting of values is the library's.
use stm32_board.Base.{ℕ, Bool, true, false, if◌then◌else◌}
use stm32_board.Core.{Timestamps}
use stm32_board.Float.{Fpu}

pub record Print : Type 0 where
  pub duration : ℕ
  pub last : ℕ

module _ (fpu : Fpu) where
  -- `Print(duration)` at the time `now`.
  unfoldable pub print : ℕ → ℕ → Print
  print duration now = record { duration = duration; last = fpu.sub now duration }

  unfoldable pub check : ℕ → Print → Bool × Print
  check now p =
      if fpu.lt p.duration (fpu.sub now p.last) then (true, record p { last = now }) else (false, p)

-- `now()`, from both clocks.
unfoldable pub timestamps_now : ℕ → ℕ → Timestamps
timestamps_now epoch_now monotonic_now = record { epoch_s = epoch_now; mono_s = monotonic_now }
