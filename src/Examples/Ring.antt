-- ===== src/Examples/Ring.antt =====
-- A ring of four slots, full.
use stm32_board.Base.{ℕ, ◌≡◌, ◌+◌, ◌-◌, ◌%◌, ◌^◌, refl, [], ◌∷◌, ◌++◌, arith, length, drop}
use stm32_board.Ring.{SpscOverwriteRing, push_overwrite, pop, drain}
use stm32_board.Ring.Queue
use stm32_board.Ring.Refine.{IsValid, contents, push_overwrite_refines}
use stm32_board.Ring.Drain.{push_all, push_all-contents}

-- It holds 5, 6 and 7, and its write index has wrapped.
abbrev full : SpscOverwriteRing ℕ
full = record { buf = 7 ∷ 4 ∷ 5 ∷ 6 ∷ []; head = 1; tail = 2; drops = 1 }

full-IsValid : IsValid 4 full
full-IsValid = ground arith

holds : contents 4 0 full ≡ 5 ∷ 6 ∷ 7 ∷ []
unfolding stm32_board.Ring.inc
holds = refl

push_overwrite_refines_example :
    let r = (push_overwrite 4 0 full 8).0 in
    let (q, dropped) = Queue.push 3 (contents 4 0 full) 8 in
    (contents 4 0 r ≡ q) × (r.drops ≡ (1 + dropped) % 2 ^ 64)
push_overwrite_refines_example = push_overwrite_refines 4 0 full 8 full-IsValid

push_all-contents_example :
    let q = contents 4 0 full ++ 8 ∷ 9 ∷ [] in
    contents 4 0 (push_all 4 0 full (8 ∷ 9 ∷ [])) ≡ drop (length q - 3) q
push_all-contents_example = push_all-contents 4 0 (8 ∷ 9 ∷ []) full full-IsValid
