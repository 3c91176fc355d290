-- ===== src/Ring.antt =====
-- cpp_gateway/include/gateway/spsc_overwrite_ring.hpp: the ring that drops its oldest item when it
-- is full. The calls are whole, one after the other.
pub mod Queue
pub mod Refine
pub mod Drain
pub mod Threads
use stm32_board.Base.{
  ℕ, zero, suc, ◌+◌, ◌%◌, ◌^◌, List, [], ◌∷◌, Bool, true, Option, none, some, ◌==◌, if◌then◌else◌,
  get_or, set,
}

pub record SpscOverwriteRing {ℓ} (T : Type ℓ) : Type ℓ where
  pub buf : List T
  pub head : ℕ
  pub tail : ℕ
  pub drops : ℕ

-- `Capacity` is a template argument.
unfoldable pub inc : ℕ → ℕ → ℕ
inc capacity i = (i + 1) % capacity

-- `T{}` fills the array at first.
module _ {ℓ} {T : Type ℓ} (capacity : ℕ) (blank : T) where
  abbrev pub fill : ℕ → List T
  fill zero = []
  fill (suc n) = blank ∷ fill n

  unfoldable pub empty_ring : SpscOverwriteRing T
  empty_ring = record { buf = fill capacity; head = 0; tail = 0; drops = 0 }

  -- `drops_` is a uint64 counter.
  unfoldable pub push_overwrite : SpscOverwriteRing T → T → SpscOverwriteRing T × Bool
  push_overwrite r item =
      let next = inc capacity r.head in
      let full = next == r.tail in
      (
        record {
          buf = set r.buf r.head item;
          head = next;
          tail = if full then inc capacity r.tail else r.tail;
          drops = if full then (r.drops + 1) % 2 ^ 64 else r.drops;
        },
        true,
      )

  unfoldable pub pop : SpscOverwriteRing T → Option T × SpscOverwriteRing T
  pop r =
      if r.tail == r.head
      then (none, r)
      else (some (get_or r.buf r.tail blank), record r { tail = inc capacity r.tail })

  -- `drain(max_n, fn)`: the state that `fn` changes is `s`, and the result is `n`.
  unfoldable pub drain {κ} :
      {S : Type κ} → ℕ → (T → S → S) → SpscOverwriteRing T → S → ℕ × SpscOverwriteRing T × S
  drain zero fn r s = (0, r, s)
  drain (suc max_n) fn r s =
      let (v, r') = pop r in
      elim v [
        | none ↦ (0, r', s)
        | some x ↦ let (n, r'', s') = drain max_n fn r' (fn x s) in (n + 1, r'', s')
      ]
