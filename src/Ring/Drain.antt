-- ===== src/Ring/Drain.antt =====
-- Runs of ring operations: `drain`, and a producer that is never read.
use stm32_board.Base.{
  ℕ, zero, suc, ◌+◌, ◌-◌, ◌≤◌, ◌<◌, ◌≡◌, ◌⊎◌, refl, sym, ap, ◌∙◌, min, List, [], ◌∷◌, ◌++◌, none,
  some, arith, length, drop, take, drop-drop, drop-append, append-nil, append_assoc, length-append,
  length-drop, ◌==◌, ==_iff, Bool-cases, inl, inr,
}
use stm32_board.Ring.{SpscOverwriteRing, push_overwrite, pop, drain}
use stm32_board.Ring.Queue
use stm32_board.Ring.Refine.{
  IsValid, contents, length-contents, push_overwrite-IsValid, pop-IsValid, pop_refines,
  push_overwrite_refines,
}

-- `fn` called on the items of a list in turn.
abbrev pub fold {κ} : {T : Type 0} {S : Type κ} → (T → S → S) → S → List T → S
fold fn s [] = s
fold fn s (x ∷ xs) = fold fn (fn x s) xs

-- The pushes of a producer.
unfoldable pub push_all : {T : Type 0} → ℕ → T → SpscOverwriteRing T → List T → SpscOverwriteRing T
push_all capacity blank r [] = r
push_all capacity blank r (x ∷ xs) =
    push_all capacity blank (push_overwrite capacity blank r x).0 xs

module _ {T : Type 0} (capacity : ℕ) (blank : T) where
  -- What `drain` does to the items `q` of the ring.
  record Drained {S : Type 0} (fn : T → S → S) (n : ℕ) (q : List T) (s : S)
      (out : ℕ × SpscOverwriteRing T × S) : Type 0 where
    count : out.0 ≡ min n (length q)
    left : contents capacity blank out.1 ≡ drop n q
    state : out.2 ≡ fold fn s (take n q)
    valid : IsValid capacity out.1

  pop_empty :
      (r : SpscOverwriteRing T)
      → IsValid capacity r
      → contents capacity blank r ≡ []
      → ((pop capacity blank r).0 ≡ none) × (contents capacity blank (pop capacity blank r).1 ≡ [])
  unfolding Queue.pop
  pop_empty r v e =
      let p = pop_refines capacity blank r v ∙ ap Queue.pop e in (ap (λ t. t.0) p, ap (λ t. t.1) p)

  pop_oldest :
      (r : SpscOverwriteRing T) (x : T) (q : List T)
      → IsValid capacity r
      → contents capacity blank r ≡ x ∷ q
      → ((pop capacity blank r).0 ≡ some x) × (contents capacity blank (pop capacity blank r).1 ≡ q)
  unfolding Queue.pop
  pop_oldest r x q v e =
      let p = pop_refines capacity blank r v ∙ ap Queue.pop e in (ap (λ t. t.0) p, ap (λ t. t.1) p)

  drain-Drained :
      {S : Type 0} (fn : T → S → S) (n : ℕ) (r : SpscOverwriteRing T) (q : List T) (s : S)
      → IsValid capacity r
      → contents capacity blank r ≡ q
      → Drained fn n q s (drain capacity blank n fn r s)
  unfolding drain
  drain-Drained fn zero r q s v e = record {
    count = omega arith;
    left = e;
    state = refl;
    valid = v;
  }
  drain-Drained fn (suc n) r [] s v e =
      let (out, rest) = pop_empty r v e in
      rw (out, drain)
        (record {
          count = omega arith;
          left = rest;
          state = refl;
          valid = pop-IsValid capacity blank r v;
        })
  drain-Drained fn (suc n) r (x ∷ q) s v e =
      let (out, rest) = pop_oldest r x q v e in
      let ih =
        drain-Drained fn n (pop capacity blank r).1 q (fn x s) (pop-IsValid capacity blank r v)
          rest in
      rw (out, drain)
        (record {
          count = omega (arith, ih.count);
          left = ih.left;
          state = ih.state;
          valid = ih.valid;
        })

  -- `drain(n, fn)` calls `fn` on the `n` oldest items in order, or on all if there are fewer, returns
  -- their number, and leaves the others in the ring.
  pub drain_lem :
      {S : Type 0} (fn : T → S → S) (n : ℕ) (r : SpscOverwriteRing T) (s : S)
      → IsValid capacity r
      → let q = contents capacity blank r in
        let (k, r', s') = drain capacity blank n fn r s in
        (k ≡ min n (length q))
        × (contents capacity blank r' ≡ drop n q)
        × (s' ≡ fold fn s (take n q))
        × IsValid capacity r'
  drain_lem fn n r s v =
      let d = drain-Drained fn n r (contents capacity blank r) s v refl in
      (d.count, d.left, d.state, d.valid)

  Queue_push-drop :
      (bound : ℕ) (q : List T) (x : T)
      → 1 ≤ bound
      → length q ≤ bound
      → (Queue.push bound q x).0 ≡ drop (suc (length q) - bound) (q ++ x ∷ [])
  unfolding Queue.push
  Queue_push-drop bound q x h k = elim (Bool-cases (length q == bound)) [
    | inl e ↦ rw e (
        sym (drop-append 1 q (x ∷ []) (omega (arith, (==_iff (length q) bound).0 e)))
        ∙ ap (λ n. drop n (q ++ x ∷ [])) {x = 1} (omega (arith, (==_iff (length q) bound).0 e)))
    | inr e ↦ rw e (ap (λ n. drop n (q ++ x ∷ [])) (none_over (ground arith)))
  ]
    where
      none_over : length q < bound → 0 ≡ suc (length q) - bound
      none_over lt = omega arith

  -- Dropping the excess at once, or in two parts.
  trim :
      (bound k : ℕ) (ws xs : List T)
      → k ≤ length ws
      → (k ≡ 0) ⊎ (k + bound ≡ length ws)
      → drop (length (drop k ws ++ xs) - bound) (drop k ws ++ xs)
        ≡ drop (length (ws ++ xs) - bound) (ws ++ xs)
  trim bound k ws xs h cases = rw (← drop-append k ws xs h) (
      drop-drop (length (drop k (ws ++ xs)) - bound) k (ws ++ xs)
      ∙ ap (λ n. drop n (ws ++ xs)) (omega (arith, length-drop k (ws ++ xs), length-append ws xs)))

  -- With nobody reading, the ring keeps the newest `capacity - 1` items, in order.
  pub push_all-contents :
      (xs : List T) (r : SpscOverwriteRing T)
      → IsValid capacity r
      → let q = contents capacity blank r ++ xs in
        contents capacity blank (push_all capacity blank r xs) ≡ drop (length q - (capacity - 1)) q
  unfolding push_all
  push_all-contents [] r v =
      rw append-nil (ap (λ n. drop n (contents capacity blank r)) (no_excess))
    where
      no_excess : 0 ≡ length (contents capacity blank r) - (capacity - 1)
      no_excess = ground (arith, length-contents capacity blank r)
  push_all-contents (x ∷ xs) r v =
      rw
        (
          push_all-contents xs (push_overwrite capacity blank r x).0
              (push_overwrite-IsValid capacity blank r x v),
          newest,
        )
        (trim (capacity - 1) (suc (length (contents capacity blank r)) - (capacity - 1))
            (contents capacity blank r ++ x ∷ []) xs over.0 over.1
          ∙ ap (λ q. drop (length q - (capacity - 1)) q)
              (append_assoc (contents capacity blank r) (x ∷ []) xs))
    where
      bounded : length (contents capacity blank r) ≤ capacity - 1
      bounded = ground (arith, length-contents capacity blank r)

      newest :
          contents capacity blank (push_overwrite capacity blank r x).0
          ≡ drop
              (suc (length (contents capacity blank r)) - (capacity - 1))
              (contents capacity blank r ++ x ∷ [])
      newest =
          (push_overwrite_refines capacity blank r x v).0
          ∙ Queue_push-drop (capacity - 1) (contents capacity blank r) x (omega (arith, v.two))
              bounded

      over :
          let k = suc (length (contents capacity blank r)) - (capacity - 1) in
          let ws = contents capacity blank r ++ x ∷ [] in
          (k ≤ length ws) × ((k ≡ 0) ⊎ (k + (capacity - 1) ≡ length ws))
      over = ground (arith, length-append (contents capacity blank r) (x ∷ []), bounded)
