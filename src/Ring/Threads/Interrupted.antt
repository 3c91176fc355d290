-- ===== src/Ring/Threads/Interrupted.antt =====
-- A pop that two pushes interrupt while the ring is full.
use stm32_board.Base.{
  ℕ, ◌+◌, ◌-◌, ◌%◌, ◌^◌, ◌≤◌, ◌<◌, ◌≡◌, ◌≢◌, refl, ap, ◌∙◌, List, [], ◌∷◌, ◌++◌, leb, ==_refl,
  ne→==, get_or, length, arith, set, if◌then◌else◌,
}
use stm32_board.Ring.{inc}
use stm32_board.Ring.Refine.{contents, window, length-contents, inc_value}
use stm32_board.Ring.Threads.{
  Machine, idle, ready, Move, starts, produces, consumes, run, push, produce, produce_from, consume,
  consume_from,
}

-- A whole push of an item into a full ring: the load of `head_`, and six accesses more.
unfoldable pub full_push : {T : Type 0} → T → List (Move T)
full_push item = starts item ∷ produces ∷ produces ∷ produces ∷ produces ∷ produces ∷ produces ∷ []

-- The consumer copies the oldest item, the producer pushes two items, the consumer stores `tail_`.
unfoldable pub interrupted : {T : Type 0} → T → T → List (Move T)
unfolding full_push
interrupted x y = consumes ∷ consumes ∷ consumes ∷ (full_push x ++ (full_push y ++ consumes ∷ []))

-- A full ring, with no call under way.
abbrev pub full_machine : {T : Type 0} → ℕ → List T → ℕ → ℕ → Machine T
full_machine capacity buf head drops = record {
  mem = record { buf = buf; head = head; tail = inc capacity head; drops = drops };
  producer = idle;
  consumer = ready;
  pushed = [];
  popped = [];
}

inc_ne : (capacity i : ℕ) → 2 ≤ capacity → i < capacity → inc capacity i ≢ i
inc_ne capacity i two h = λ e. ground (arith, inc_value capacity i h, e)

size_full :
    (capacity head : ℕ)
    → 2 ≤ capacity
    → head < capacity
    → (if leb (inc capacity head) head
        then head - inc capacity head
        else head + capacity - inc capacity head)
      ≡ capacity - 1
size_full capacity head two h = ground (arith, inc_value capacity head h)

size_empty : (capacity i : ℕ) → (if leb i i then i - i else i + capacity - i) ≡ 0
size_empty capacity i = ground arith

module _ {T : Type 0} (capacity : ℕ) (blank : T) where
  -- A pop from a full ring, between whose copy and whose store two pushes run, leaves the ring empty:
  -- the store moves `tail_` back onto `head_`, and of the `capacity + 1` items that were in the ring or
  -- pushed, all but the one that is returned are lost, while the counter counts two.
  pub run-interrupted :
      (buf : List T) (head drops : ℕ) (x y : T)
      → 2 ≤ capacity
      → head < capacity
      → let s = full_machine capacity buf head drops in
        let s' = run capacity blank (interrupted x y) s in
        (length (contents capacity blank s.mem) ≡ capacity - 1)
        × (contents capacity blank s'.mem ≡ [])
        × (s'.pushed ≡ x ∷ y ∷ [])
        × (s'.popped ≡ get_or buf (inc capacity head) blank ∷ [])
        × (s'.mem.drops ≡ ((drops + 1) % 2 ^ 64 + 1) % 2 ^ 64)
  unfolding run interrupted full_push push produce produce_from consume consume_from
  run-interrupted buf head drops x y two h =
      simp (ne→== (inc capacity head) head (inc_ne capacity head two h), ==_refl)
        (
          length-contents capacity blank (full_machine capacity buf head drops).mem
              ∙ size_full capacity head two h,
          ap
              (window capacity blank (set (set buf head x) (inc capacity head) y)
                (inc capacity (inc capacity head)))
              (size_empty capacity (inc capacity (inc capacity head))),
          refl,
          refl,
          refl,
        )
