-- ===== src/Ring/Threads/Fifo.antt =====
-- The states that a ring reaches while the producer never finds it full.
use stm32_board.Base.{ℕ, ◌≤◌, ◌≡◌, refl, [], ◌++◌}
use stm32_board.Ring.{empty_ring}
use stm32_board.Ring.Refine.{contents, empty_ring-IsValid}
use stm32_board.Ring.Threads.{Machine, idle, ready, push, produce, consume}
use stm32_board.Ring.Threads.Order.{Ordered, NotFull, produce-Ordered, consume-Ordered}

module _ {T : Type 0} (capacity : ℕ) (blank : T) where
  unfoldable pub fresh_machine : Machine T
  fresh_machine = record {
    mem = empty_ring capacity blank;
    producer = idle;
    consumer = ready;
    pushed = [];
    popped = [];
  }

  -- The threads' steps in any order: a push starts when none is under way.
  pub data Reached : Machine T → Type 0 where
    start : Reached fresh_machine
    pushes :
        (s : Machine T) (x : T) → Reached s → s.producer ≡ idle → Reached (push capacity blank x s)
    produces :
        (s : Machine T)
        → Reached s
        → NotFull capacity blank s.producer s.mem
        → Reached (produce capacity blank s)
    consumes : (s : Machine T) → Reached s → Reached (consume capacity blank s)

  Reached-Ordered : 2 ≤ capacity → (s : Machine T) → Reached s → Ordered capacity blank s
  unfolding push produce consume fresh_machine empty_ring
  Reached-Ordered two s start = record {
    valid = empty_ring-IsValid capacity blank two;
    producer = tt;
    consumer = tt;
    history = refl;
  }
  Reached-Ordered two s (pushes s' x r e) =
      let v = Reached-Ordered two s' r in
      record { valid = v.valid; producer = refl; consumer = v.consumer; history = v.history }
  Reached-Ordered two s (produces s' r n) =
      produce-Ordered capacity blank s'.producer s' (Reached-Ordered two s' r) n
  Reached-Ordered two s (consumes s' r) =
      consume-Ordered capacity blank s'.consumer s' (Reached-Ordered two s' r)

  -- In whatever order the two threads take their steps on a ring of two places or more, if the producer
  -- never finds it full: the items that were popped, and then those in the ring, are the items that were pushed, in order.
  pub Reached-fifo :
      2 ≤ capacity
      → (s : Machine T) → Reached s
      → s.popped ++ contents capacity blank s.mem ≡ s.pushed
  Reached-fifo two s r = (Reached-Ordered two s r).history
