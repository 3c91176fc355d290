-- ===== src/Mailbox.antt =====
-- cpp_gateway/include/gateway/latest_value.hpp and stop_flag.hpp: what the workers share, call by call.
use stm32_board.Base.{ℕ, ◌+◌, ◌%◌, ◌^◌, Bool, true, Option, none, some, ◌==◌, if◌then◌else◌}

pub record LatestValue {ℓ} (T : Type ℓ) : Type ℓ where
  pub value : T
  pub seq : ℕ

module _ {ℓ} {T : Type ℓ} where
  -- `T{}` and no store yet.
  abbrev pub unset : T → LatestValue T
  unset blank = record { value = blank; seq = 0 }

  -- `seq_` is a uint64 counter.
  unfoldable pub store : LatestValue T → T → LatestValue T
  store m v = record { value = v; seq = (m.seq + 1) % 2 ^ 64 }

  unfoldable pub load : LatestValue T → Option T
  load m = if m.seq == 0 then none else some m.value

  unfoldable pub load_or_default : LatestValue T → T
  load_or_default m = m.value

pub record StopFlag : Type 0 where
  pub stop : Bool

unfoldable pub request_stop : StopFlag → StopFlag
request_stop f = record { stop = true }

unfoldable pub stop_requested : StopFlag → Bool
stop_requested f = f.stop
