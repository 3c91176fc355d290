-- ===== src/BinaryLog/Cleanup.antt =====
-- Which files the pruning removes.
use stm32_board.Base.{
  ℕ, zero, suc, ◌-◌, ◌<◌, ◌≤◌, ◌≡◌, refl, List, [], ◌∷◌, ltb, Bool-cases, inl, inr, length, take,
  arith,
}
use stm32_board.Ring.Drain.{fold}
use stm32_board.BinaryLog.{Action, removes, DirectoryEntry}
use stm32_board.BinaryLog.Rotating.{prune}

abbrev pub remove_entry : DirectoryEntry → List Action → List Action
remove_entry e done = removes e.path ∷ done

take_nil : {A : Type 0} (n : ℕ) → take {A = A} n [] ≡ []
take_nil zero = refl
take_nil (suc n) = refl

-- The first files of the list are removed, in order, and as many as `keep` are left.
pub prune_oldest :
    (keep : ℕ) (es : List DirectoryEntry) (done : List Action)
    → prune keep es done ≡ fold remove_entry done (take (length es - keep) es)
unfolding prune
prune_oldest keep [] done = rw take_nil refl
prune_oldest keep (e ∷ es) done = elim (Bool-cases (ltb keep (length (e ∷ es)))) [
  | inl c ↦ rw (c, more (ground arith)) (prune_oldest keep es (removes e.path ∷ done))
  | inr c ↦ rw (c, enough (ground arith)) refl
]
  where
    more : keep < suc (length es) → suc (length es) - keep ≡ suc (length es - keep)
    more h = omega arith

    enough : suc (length es) ≤ keep → suc (length es) - keep ≡ 0
    enough h = omega arith
