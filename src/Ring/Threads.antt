-- ===== src/Ring/Threads.antt =====
-- cpp_gateway/include/gateway/spsc_overwrite_ring.hpp, one access to the shared memory at a time: a
-- producer and a consumer whose steps come in any order. The accesses are sequentially consistent.
pub mod Memory
pub mod Order
pub mod Interrupted
pub mod Fifo
use stm32_board.Base.{
  ℕ, ◌+◌, ◌%◌, ◌^◌, List, [], ◌∷◌, ◌++◌, ◌==◌, if◌then◌else◌, Option, none, some, get_or, set,
}
use stm32_board.Ring.{SpscOverwriteRing, inc}

-- Where the producer is in `push_overwrite(item)`, with its local variables: before the test for a full
-- ring, before it counts a drop, before it loads `tail_` again, before it stores it, before it writes
-- the item, and before it stores `head_`.
pub data Producer (T : Type 0) : Type 0 where
  idle : Producer T
  checks counts reloads : T → ℕ → Producer T
  moves : T → ℕ → ℕ → Producer T
  writes : T → ℕ → Producer T
  publishes : T → ℕ → Producer T

-- Where the consumer is in `pop()`: before its first load, before the test for an empty ring, before
-- it copies the item, and before it stores `tail_`.
pub data Consumer (T : Type 0) : Type 0 where
  ready : Consumer T
  loaded copies : ℕ → Consumer T
  stores : ℕ → T → Consumer T

-- The memory and the two threads, with the items whose push and whose pop are complete.
pub record Machine (T : Type 0) : Type 0 where
  pub mem : SpscOverwriteRing T
  pub producer : Producer T
  pub consumer : Consumer T
  pub pushed : List T
  pub popped : List T

module _ {T : Type 0} (capacity : ℕ) (blank : T) where
  -- The load of `head_`, with which a call begins.
  unfoldable pub push : T → Machine T → Machine T
  push item s = record s { producer = checks item s.mem.head }

  -- The next access of the producer.
  unfoldable pub produce_from : Producer T → Machine T → Machine T
  produce_from idle s = s
  produce_from (checks item head) s = record s {
    producer = if inc capacity head == s.mem.tail then counts item head else writes item head;
  }
  produce_from (counts item head) s = record s {
    mem = record s.mem { drops = (s.mem.drops + 1) % 2 ^ 64 };
    producer = reloads item head;
  }
  produce_from (reloads item head) s = record s { producer = moves item head s.mem.tail }
  produce_from (moves item head tail) s = record s {
    mem = record s.mem { tail = inc capacity tail };
    producer = writes item head;
  }
  produce_from (writes item head) s = record s {
    mem = record s.mem { buf = set s.mem.buf head item };
    producer = publishes item head;
  }
  produce_from (publishes item head) s = record s {
    mem = record s.mem { head = inc capacity head };
    producer = idle;
    pushed = s.pushed ++ item ∷ [];
  }

  unfoldable pub produce : Machine T → Machine T
  produce s = produce_from s.producer s

  -- The next access of the consumer.
  unfoldable pub consume_from : Consumer T → Machine T → Machine T
  consume_from ready s = record s { consumer = loaded s.mem.tail }
  consume_from (loaded tail) s = record s {
    consumer = if tail == s.mem.head then ready else copies tail;
  }
  consume_from (copies tail) s = record s { consumer = stores tail (get_or s.mem.buf tail blank) }
  consume_from (stores tail out) s = record s {
    mem = record s.mem { tail = inc capacity tail };
    consumer = ready;
    popped = s.popped ++ out ∷ [];
  }

  unfoldable pub consume : Machine T → Machine T
  consume s = consume_from s.consumer s

-- The order of the threads' steps.
pub data Move (T : Type 0) : Type 0 where
  starts : T → Move T
  produces consumes : Move T

unfoldable pub run : {T : Type 0} → ℕ → T → List (Move T) → Machine T → Machine T
run capacity blank [] s = s
run capacity blank (starts item ∷ more) s = run capacity blank more (push capacity blank item s)
run capacity blank (produces ∷ more) s = run capacity blank more (produce capacity blank s)
run capacity blank (consumes ∷ more) s = run capacity blank more (consume capacity blank s)
