-- ===== src/Usb/Connect.antt =====
-- How long the USB worker waits between its attempts to connect.
use stm32_board.Base.{
  Bool, true, false, List, [], ◌∷◌, Option, none, some, length, ℕ, zero, suc, ◌+◌, ◌-◌, ◌*◌, ◌≤◌,
  ◌≡◌, arith, refl, ◌==◌, min, if◌then◌else◌,
}
use stm32_board.Mailbox.{StopFlag}
use stm32_board.Usb.{
  Attempt, connect_or_request_stop, backoff_for_attempt, connect_backoff_min, connect_backoff_max,
}

late : (i : ℕ) → min (suc (suc (suc i))) 3 ≡ 3
late i = omega arith

backoff_for_attempt_lem :
    (i : ℕ)
    → backoff_for_attempt i
      ≡ (if i == 0 then 200 else if i == 1 then 400 else if i == 2 then 800 else 1000)
unfolding backoff_for_attempt
backoff_for_attempt_lem zero = refl
backoff_for_attempt_lem (suc zero) = refl
backoff_for_attempt_lem (suc (suc zero)) = refl
backoff_for_attempt_lem (suc (suc (suc i))) = rw (late i) (ground arith)

-- The wait grows with the attempts, from the least wait to the greatest, which it has from the fourth
-- attempt on.
pub backoff_for_attempt_bounds :
    (i j : ℕ)
    → i ≤ j
    → (connect_backoff_min ≤ backoff_for_attempt i)
      × (backoff_for_attempt i ≤ backoff_for_attempt j)
      × (backoff_for_attempt j ≤ connect_backoff_max)
      × (backoff_for_attempt (3 + i) ≡ connect_backoff_max)
backoff_for_attempt_bounds i j h =
    ground
      (arith, backoff_for_attempt_lem i, backoff_for_attempt_lem j, backoff_for_attempt_lem (3 + i))

-- The clock is monotonic: behind an attempt at least the time of the waits before it has passed.
abbrev pub Clocked : ℕ → ℕ → List Attempt → Type 0
Clocked waited attempt [] = Unit {0}
Clocked waited attempt (a ∷ attempts) =
    (waited ≤ a.elapsed) × Clocked (waited + backoff_for_attempt attempt) (attempt + 1) attempts

abbrev pub is_some : {A : Type 0} → Option A → Bool
is_some none = false
is_some (some a) = true

-- The waits before an attempt, at the least.
abbrev least_waited : ℕ → ℕ
least_waited n =
    if n == 0 then 0 else if n == 1 then 200 else if n == 2 then 600 else 1000 * n - 1600

least_waited_step :
    (n waited : ℕ) → least_waited n ≤ waited → least_waited (n + 1) ≤ waited + backoff_for_attempt n
least_waited_step n waited h = ground (arith, backoff_for_attempt_lem n)

ends_from :
    (attempts : List Attempt) (attempt waited : ℕ) (stop : StopFlag)
    → Clocked waited attempt attempts
    → least_waited attempt ≤ waited
    → attempt ≤ 7
    → 8 ≤ attempt + length attempts
    → is_some (connect_or_request_stop attempts attempt stop) ≡ true
unfolding connect_or_request_stop
ends_from [] attempt waited stop c h k l = absurd (omega arith)
ends_from (a ∷ attempts) attempt waited stop (now, c) h k l = ground (
  arith,
  ends_from attempts (attempt + 1) (waited + backoff_for_attempt attempt) stop c
      (least_waited_step attempt waited h),
)

-- The worker stops trying after eight attempts at the latest, whatever they meet.
pub connect_or_request_stop-ends :
    (attempts : List Attempt) (stop : StopFlag)
    → Clocked 0 0 attempts
    → 8 ≤ length attempts
    → is_some (connect_or_request_stop attempts 0 stop) ≡ true
connect_or_request_stop-ends attempts stop c h =
    ends_from attempts 0 0 stop c (omega arith) (omega arith) (omega arith)
