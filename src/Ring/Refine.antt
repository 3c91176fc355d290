-- ===== src/Ring/Refine.antt =====
-- The ring behaves as the bounded queue of the items that it holds.
use native.Mathlib.Nat.{mod-eq_of_lt}
use stm32_board.Base.{
  ℕ, zero, suc, ◌+◌, ◌-◌, ◌%◌, ◌^◌, ◌≤◌, ◌<◌, ◌≡◌, ◌≢◌, refl, ap, ap₂, List, [], ◌∷◌, ◌++◌, arith,
  ltb, leb, ◌==◌, if◌then◌else◌, length, get_or, set, length-set, get_or-set_self, get_or-set_ne,
  ==_iff, Bool-cases, inl, inr,
}
use stm32_board.Ring.{SpscOverwriteRing, empty_ring, fill, inc, push_overwrite, pop}
use stm32_board.Ring.Queue

-- `Capacity >= 2` is a static assertion of the template.
pub record IsValid {ℓ} {T : Type ℓ} (capacity : ℕ) (r : SpscOverwriteRing T) : Type 0 where
  pub two : 2 ≤ capacity
  pub storage : length r.buf ≡ capacity
  pub head_in : r.head < capacity
  pub tail_in : r.tail < capacity
  pub counted : r.drops < 2 ^ 64

-- The number of items between the two indices.
abbrev pub size {ℓ} : {T : Type ℓ} → ℕ → SpscOverwriteRing T → ℕ
size capacity r = if leb r.tail r.head then r.head - r.tail else r.head + capacity - r.tail

module _ (capacity : ℕ) where
  pub inc_value : (i : ℕ) → i < capacity → inc capacity i ≡ (if i + 1 == capacity then 0 else i + 1)
  unfolding inc
  inc_value i h = elim (Bool-cases (i + 1 == capacity)) [
    | inl e ↦ rw (e, (==_iff (i + 1) capacity).0 e) (grind arith)
    | inr e ↦ rw (e, mod-eq_of_lt {n = i + 1} {m = capacity} (ground arith))
  ]

  -- The index `n` steps on.
  abbrev pub step : ℕ → ℕ → ℕ
  step i zero = i
  step i (suc n) = step (inc capacity i) n

  pub step_value :
      (i n : ℕ)
      → i < capacity
      → n < capacity
      → step i n ≡ (if ltb (i + n) capacity then i + n else i + n - capacity)
  step_value i zero h k = ground arith
  step_value i (suc n) h k = ground (arith, inc_value i h, step_value (inc capacity i) n)

module _ {T : Type 0} (capacity : ℕ) (blank : T) where
  -- The `n` items from index `i` on.
  abbrev pub window : List T → ℕ → ℕ → List T
  window buf i zero = []
  window buf i (suc n) = get_or buf i blank ∷ window buf (inc capacity i) n

  length-window : (buf : List T) (i n : ℕ) → length (window buf i n) ≡ n
  length-window buf i zero = refl
  length-window buf i (suc n) = ap suc (length-window buf (inc capacity i) n)

  pub window_of_pos :
      (buf : List T) (i n : ℕ)
      → n ≢ 0
      → window buf i n ≡ get_or buf i blank ∷ window buf (inc capacity i) (n - 1)
  window_of_pos buf i zero h = absurd (h refl)
  window_of_pos buf i (suc n) h = ap (λ k. window buf i (suc k)) (omega arith)

  -- A write just behind a window extends it.
  pub window-set :
      (buf : List T) (x : T) (n i j : ℕ)
      → length buf ≡ capacity
      → i < capacity
      → n < capacity
      → j ≡ step capacity i n
      → window (set buf j x) i (suc n) ≡ window buf i n ++ x ∷ []
  window-set buf x zero i j s hi hn e =
      rw e (ap (λ y. y ∷ []) (get_or-set_self buf i x blank (omega arith)))
  window-set buf x (suc n) i j s hi hn e = ap₂ ◌∷◌ (get_or-set_ne buf x blank apart) (
      window-set buf x n (inc capacity i) j s (ground (arith, inc_value capacity i hi))
        (omega arith) e)
    where
      apart : j ≢ i
      apart = λ q. ground (arith, step_value capacity i (suc n) hi hn)

  abbrev pub contents : SpscOverwriteRing T → List T
  contents r = window r.buf r.tail (size capacity r)

  pub length-contents : (r : SpscOverwriteRing T) → length (contents r) ≡ size capacity r
  length-contents r = length-window r.buf r.tail (size capacity r)

  length-fill : (n : ℕ) → length (fill capacity blank n) ≡ n
  length-fill zero = refl
  length-fill (suc n) = ap suc (length-fill n)

  pub empty_ring-IsValid : 2 ≤ capacity → IsValid capacity (empty_ring capacity blank)
  unfolding empty_ring
  empty_ring-IsValid h = record {
    two = h;
    storage = length-fill capacity;
    head_in = omega arith;
    tail_in = omega arith;
    counted = omega arith;
  }

  pub push_overwrite-IsValid :
      (r : SpscOverwriteRing T) (x : T)
      → IsValid capacity r
      → IsValid capacity (push_overwrite capacity blank r x).0
  unfolding push_overwrite
  push_overwrite-IsValid r x v = ground (
    arith,
    length-set r.buf r.head x,
    inc_value capacity r.head v.head_in,
    inc_value capacity r.tail v.tail_in,
  )

  pub pop-IsValid :
      (r : SpscOverwriteRing T) → IsValid capacity r → IsValid capacity (pop capacity blank r).1
  unfolding pop
  pop-IsValid r v = ground (arith, inc_value capacity r.tail v.tail_in)

  -- `pop` takes the oldest item, or nothing from an empty queue.
  pub pop_refines :
      (r : SpscOverwriteRing T)
      → IsValid capacity r
      → let (out, r') = pop capacity blank r in (out, contents r') ≡ Queue.pop (contents r)
  unfolding pop Queue.pop
  pop_refines r v =
      ground
        (arith, inc_value capacity r.tail v.tail_in, window_of_pos r.buf r.tail (size capacity r))

  -- `push_overwrite` appends to a queue of at most `capacity - 1` items, which drops its oldest item
  -- when it is full; the counter counts what is dropped, modulo 2 ^ 64.
  pub push_overwrite_refines :
      (r : SpscOverwriteRing T) (x : T)
      → IsValid capacity r
      → let r' = (push_overwrite capacity blank r x).0 in
        let (q, dropped) = Queue.push (capacity - 1) (contents r) x in
        (contents r' ≡ q) × (r'.drops ≡ (r.drops + dropped) % 2 ^ 64)
  unfolding push_overwrite Queue.push
  push_overwrite_refines r x v = ground (
    arith,
    inc_value capacity r.tail v.tail_in,
    inc_value capacity r.head v.head_in,
    length-contents r,
    step_value capacity r.tail (size capacity r) v.tail_in,
    step_value capacity (inc capacity r.tail) (capacity - 2),
    window-set r.buf x (size capacity r) r.tail r.head v.storage v.tail_in,
    window-set r.buf x (capacity - 2) (inc capacity r.tail) r.head v.storage,
    window_of_pos r.buf r.tail (capacity - 1),
  )
