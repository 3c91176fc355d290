-- ===== src/Examples/Links.antt =====
-- Transfers that are cut short, and a loop that runs late.
use stm32_board.Base.{◌≤◌, ◌≡◌, refl, [], ◌∷◌, true, false, some}
use stm32_board.Transfer.{intr, other, count, error, write_all}
use stm32_board.Transfer.Prefix.{Moved, write_all-Moved}
use stm32_board.Rate.{Chrono, RateLimiter, sleep, default_limiter}
use stm32_board.Rate.Schedule.{sleep_schedule}
use stm32_board.Examples.Data.{unit}

write_all_cut :
    write_all (count 2 ∷ error intr ∷ error other ∷ []) (1 ∷ 2 ∷ 3 ∷ []) ≡ (some false, 1 ∷ 2 ∷ [])
unfolding write_all
write_all_cut = refl

write_all-Moved_example :
    Moved (1 ∷ 2 ∷ 3 ∷ []) (write_all (count 2 ∷ error intr ∷ count 1 ∷ []) (1 ∷ 2 ∷ 3 ∷ []))
write_all-Moved_example = write_all-Moved (count 2 ∷ error intr ∷ count 1 ∷ []) (1 ∷ 2 ∷ 3 ∷ [])

-- A clock whose ticks are the patterns.
abbrev chrono : Chrono
chrono = record { ticks = λ s. 5; seconds = λ t. t; to_u64 = λ x. x }

abbrev paced : RateLimiter
paced = record default_limiter { initialized = true; next = 100 }

sleep_schedule_example :
    let rl = sleep unit chrono 0 120 paced in
    (120 ≤ rl.next) × (105 ≤ rl.next) × (rl.next ≡ 125) × (rl.late_ticks ≡ 1)
sleep_schedule_example = sleep_schedule unit chrono 0 120 paced refl
