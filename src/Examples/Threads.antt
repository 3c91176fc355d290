-- ===== src/Examples/Threads.antt =====
-- A ring of four slots under two threads.
use stm32_board.Base.{ℕ, ◌+◌, ◌%◌, ◌^◌, ◌≡◌, refl, List, [], ◌∷◌, ◌++◌, arith, length, get_or}
use stm32_board.Ring.{inc}
use stm32_board.Ring.Refine.{contents}
use stm32_board.Ring.Threads.{Machine, push, produce, consume, run}
use stm32_board.Ring.Threads.Interrupted.{interrupted, full_machine, run-interrupted}
use stm32_board.Ring.Threads.Fifo.{
  fresh_machine, Reached, start, pushes, produces, consumes, Reached-fifo,
}

abbrev slots : List ℕ
slots = 4 ∷ 5 ∷ 6 ∷ 7 ∷ []

run-interrupted_example :
    let s = full_machine 4 slots 0 0 in
    let s' = run 4 0 (interrupted 8 9) s in
    (length (contents 4 0 s.mem) ≡ 3)
    × (contents 4 0 s'.mem ≡ [])
    × (s'.pushed ≡ 8 ∷ 9 ∷ [])
    × (s'.popped ≡ get_or slots (inc 4 0) 0 ∷ [])
    × (s'.mem.drops ≡ ((0 + 1) % 2 ^ 64 + 1) % 2 ^ 64)
run-interrupted_example = run-interrupted 4 0 slots 0 0 8 9 (omega arith) (omega arith)

-- The consumer loads `tail_` before the push of an item, and takes the item.
abbrev pushed_one : Machine ℕ
pushed_one = produce 4 0 (produce 4 0 (produce 4 0 (push 4 0 8 (consume 4 0 (fresh_machine 4 0)))))

pushed_one-Reached : Reached 4 0 pushed_one
unfolding fresh_machine push produce stm32_board.Ring.Threads.produce_from consume
    stm32_board.Ring.Threads.consume_from stm32_board.Ring.empty_ring inc
pushed_one-Reached =
    let a = consumes (fresh_machine 4 0) start in
    let b = pushes _ 8 a refl in
    let c = produces _ b (λ e. ground (arith, e)) in let d = produces _ c tt in produces _ d tt

Reached-fifo_example :
    let s = consume 4 0 (consume 4 0 (consume 4 0 pushed_one)) in
    s.popped ++ contents 4 0 s.mem ≡ s.pushed
Reached-fifo_example =
    let s = consume 4 0 (consume 4 0 (consume 4 0 pushed_one)) in
    Reached-fifo 4 0 (omega arith) s (
      consumes (consume 4 0 (consume 4 0 pushed_one))
        (consumes (consume 4 0 pushed_one) (consumes pushed_one pushed_one-Reached)))
