-- ===== src/Ring/Threads/Memory.antt =====
-- What single writes to the memory of a ring do to its items.
use stm32_board.Base.{
  ℕ, zero, suc, ◌-◌, ◌<◌, ◌≡◌, ◌≢◌, refl, sym, ap, ◌∙◌, List, [], ◌∷◌, ◌++◌, get_or, get_or-set_ne,
  arith, set,
}
use stm32_board.Ring.{SpscOverwriteRing, inc}
use stm32_board.Ring.Refine.{
  IsValid, size, contents, window, window_of_pos, step, step_value, inc_value,
}

module _ {T : Type 0} (capacity : ℕ) (blank : T) where
  window-set_outside :
      (buf : List T) (x : T) (n i j : ℕ)
      → i < capacity
      → n < capacity
      → j ≡ step capacity i n
      → window capacity blank (set buf j x) i n ≡ window capacity blank buf i n
  window-set_outside buf x zero i j hi hn e = refl
  window-set_outside buf x (suc n) i j hi hn e = λ k.
      get_or-set_ne buf x blank apart k
      ∷ window-set_outside buf x n (inc capacity i) j (ground (arith, inc_value capacity i hi))
          (omega arith) e k
    where
      apart : j ≢ i
      apart = λ q. ground (arith, step_value capacity i (suc n) hi hn)

  window_snoc :
      (buf : List T) (n i : ℕ)
      → window capacity blank buf i (suc n)
        ≡ window capacity blank buf i n ++ get_or buf (step capacity i n) blank ∷ []
  window_snoc buf zero i = refl
  window_snoc buf (suc n) i = ap (◌∷◌ (get_or buf i blank)) (window_snoc buf n (inc capacity i))

  step_to_head :
      (m : SpscOverwriteRing T)
      → IsValid capacity m
      → step capacity m.tail (size capacity m) ≡ m.head
  step_to_head m v = ground (arith, step_value capacity m.tail (size capacity m) v.tail_in)

  size-lt : (m : SpscOverwriteRing T) → IsValid capacity m → size capacity m < capacity
  size-lt m v = ground arith

  -- A write to the free place does not change the items.
  pub contents-write :
      (m : SpscOverwriteRing T) (x : T)
      → IsValid capacity m
      → contents capacity blank (record m { buf = set m.buf m.head x }) ≡ contents capacity blank m
  contents-write m x v =
      window-set_outside m.buf x (size capacity m) m.tail m.head v.tail_in (size-lt m v)
        (sym (step_to_head m v))

  -- Moving `head_` on publishes the item of the free place.
  pub contents-publish :
      (m : SpscOverwriteRing T)
      → IsValid capacity m
      → inc capacity m.head ≢ m.tail
      → contents capacity blank (record m { head = inc capacity m.head })
        ≡ contents capacity blank m ++ get_or m.buf m.head blank ∷ []
  contents-publish m v h =
      ap (window capacity blank m.buf m.tail) grown
      ∙ window_snoc m.buf (size capacity m) m.tail
      ∙ ap (λ i. contents capacity blank m ++ get_or m.buf i blank ∷ []) (step_to_head m v)
    where
      grown : size capacity (record m { head = inc capacity m.head }) ≡ suc (size capacity m)
      grown = ground (arith, inc_value capacity m.head v.head_in, h)

  -- Moving `tail_` on takes the oldest item.
  pub contents-take :
      (m : SpscOverwriteRing T)
      → IsValid capacity m
      → m.tail ≢ m.head
      → contents capacity blank m
        ≡ get_or m.buf m.tail blank
          ∷ contents capacity blank (record m { tail = inc capacity m.tail })
  contents-take m v h =
      window_of_pos capacity blank m.buf m.tail (size capacity m) some_left
      ∙ ap (λ n. get_or m.buf m.tail blank ∷ window capacity blank m.buf (inc capacity m.tail) n)
          shrunk
    where
      some_left : size capacity m ≢ 0
      some_left = λ e. ground (arith, h, e)

      shrunk : size capacity m - 1 ≡ size capacity (record m { tail = inc capacity m.tail })
      shrunk = ground (arith, inc_value capacity m.tail v.tail_in, h)

  pub inc-lt : (i : ℕ) → i < capacity → inc capacity i < capacity
  inc-lt i h = ground (arith, inc_value capacity i h)

  pub inc_injective :
      (i j : ℕ) → i < capacity → j < capacity → i ≢ j → inc capacity i ≢ inc capacity j
  inc_injective i j hi hj h =
      λ e. ground (arith, inc_value capacity i hi, inc_value capacity j hj, h, e)
