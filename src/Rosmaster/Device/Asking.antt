-- ===== src/Rosmaster/Device/Asking.antt =====
-- Waiting for the version.
use stm32_board.Base.{
  ℕ, ◌+◌, ◌≤◌, ◌<◌, ◌≡◌, refl, List, [], ◌∷◌, Option, some, ltb, ◌==◌, arith, length, if◌then◌else◌,
  inl, inr, Bool-cases,
}
use stm32_board.Core.{Version}
use stm32_board.Rosmaster.{request_data}
use stm32_board.Rosmaster.Func
use stm32_board.Rosmaster.Receive.{Robot}
use stm32_board.Rosmaster.Device.{version_loop, get_version, f32_minus_one}

-- Each round but the first comes at least a millisecond after the one before: it has slept that long.
abbrev pub Sleeps : ℕ → List (ℕ × Version) → Type 0
Sleeps t [] = Unit {0}
Sleeps t ((now, v) ∷ polls) = (t ≤ now) × Sleeps (now + 1) polls

-- The answer is that of the first version seen before the deadline, or -1.
abbrev pub first_version : ℕ → List (ℕ × Version) → Option ℕ
first_version deadline [] = some f32_minus_one
first_version deadline ((now, v) ∷ polls) =
    let rest = first_version deadline polls in
    if ltb now deadline then (if v.high == 0 then rest else some v.version) else some f32_minus_one

version_loop_enough :
    (polls : List (ℕ × Version)) (deadline t : ℕ)
    → Sleeps t polls
    → deadline < t + length polls
    → 1 ≤ length polls
    → version_loop deadline polls ≡ first_version deadline polls
unfolding version_loop
version_loop_enough [] deadline t h k l = absurd (omega arith)
version_loop_enough ((now, v) ∷ []) deadline t h k l = ground arith
version_loop_enough ((now, v) ∷ (p ∷ polls)) deadline t h k l =
    elim (Bool-cases (ltb now deadline)) [
      | inl e ↦
          rw
            (
              e,
              version_loop_enough (p ∷ polls) deadline (now + 1) h.1 (omega (arith, h.0))
                  (omega arith),
            )
            refl
      | inr e ↦ rw e refl
    ]

-- A call of `get_version` ends: once its loop has made 21 rounds, between which the thread sleeps for
-- a millisecond. It asks the board exactly if no version with a high byte is known, and forgets the old
-- one before; it returns the known version, or the first with a high byte that it sees before 20
-- milliseconds have passed, or -1.
pub get_version-ends :
    (r : Robot) (now : ℕ) (polls : List (ℕ × Version))
    → Sleeps now polls
    → 21 ≤ length polls
    → get_version r now polls ≡ (
        if r.version.high == 0
        then (
          record r { version = record { high = 0; low = 0; version = 0 } },
          request_data Func.version 0 ∷ [],
          first_version (now + 20) polls,
        )
        else (r, [], some r.version.version))
unfolding get_version
get_version-ends r now polls h k = elim (Bool-cases (r.version.high == 0)) [
  | inl e ↦ simp (e, version_loop_enough polls (now + 20) now h (omega arith) (omega arith)) refl
  | inr e ↦ simp e refl
]
