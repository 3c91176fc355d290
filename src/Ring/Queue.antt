-- ===== src/Ring/Queue.antt =====
-- What the ring promises: a queue, oldest item first, that holds at most `bound` items and drops the
-- oldest to make room.
use stm32_board.Base.{ℕ, List, [], ◌∷◌, ◌++◌, Option, none, some, ◌==◌, if◌then◌else◌, length, drop}

module _ {ℓ} {T : Type ℓ} where
  unfoldable pub pop : List T → Option T × List T
  pop [] = (none, [])
  pop (x ∷ q) = (some x, q)

  -- The queue after a push, and how many items were dropped.
  unfoldable pub push : ℕ → List T → T → List T × ℕ
  push bound q x = if length q == bound then (drop 1 q ++ x ∷ [], 1) else (q ++ x ∷ [], 0)
