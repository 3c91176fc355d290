-- ===== src/Transfer/Prefix.antt =====
-- What a transfer that succeeds or fails has moved.
use stm32_board.Base.{
  ℕ, zero, suc, ◌+◌, ◌-◌, ◌≡◌, refl, sym, ap, ◌∙◌, List, [], ◌∷◌, ◌++◌, Bool, true, false, Option,
  none, some, ◌==◌, leb, length, take, drop, arith, append_assoc, length-append, take-append-drop,
  Bool-cases, inl, inr,
}
use stm32_board.Transfer.{
  intr, again, other, Ret, count, error, read_exact, write_all, Send, sends, blocks, fails,
  send_loop, send_all,
}

-- The result `true`.
abbrev pub succeeded : Option Bool → Bool
succeeded none = false
succeeded (some ok) = ok

abbrev pub is_empty : List ℕ → Bool
is_empty [] = true
is_empty (b ∷ bytes) = false

-- What a transfer did to the bytes: it moved the beginning of them, and succeeded exactly if nothing is
-- left over.
abbrev pub Moved : List ℕ → Option Bool × List ℕ → Type 0
Moved bytes (ok, sent) = (rest : List ℕ) × (bytes ≡ sent ++ rest) × (succeeded ok ≡ is_empty rest)

pub append-Moved :
    (n : ℕ) (bytes : List ℕ) (out : Option Bool × List ℕ)
    → Moved (drop n bytes) out
    → Moved bytes (out.0, take n bytes ++ out.1)
append-Moved n bytes out (rest, split, ok) = (
  rest,
  sym (take-append-drop n bytes)
      ∙ ap (λ xs. take n bytes ++ xs) split
      ∙ sym (append_assoc (take n bytes) out.1 rest),
  ok,
)

nothing : (b : ℕ) (bytes : List ℕ) → Moved (b ∷ bytes) (some false, [])
nothing b bytes = (b ∷ bytes, refl, refl)

-- `write_all` of the serial port hands the line the beginning of the data, and returns true exactly if
-- that is all of it, whatever the calls return.
pub write_all-Moved : (rets : List (Ret ℕ)) (bytes : List ℕ) → Moved bytes (write_all rets bytes)
unfolding write_all
write_all-Moved rets [] = ([], refl, refl)
write_all-Moved [] (b ∷ bytes) = (b ∷ bytes, refl, refl)
write_all-Moved (count n ∷ rets) (b ∷ bytes) = elim (Bool-cases (n == 0)) [
  | inl e ↦ rw e (nothing b bytes)
  | inr e ↦
      let bs = drop n (b ∷ bytes) in
      rw e (append-Moved n (b ∷ bytes) (write_all rets bs) (write_all-Moved rets bs))
]
write_all-Moved (error intr ∷ rets) (b ∷ bytes) = write_all-Moved rets (b ∷ bytes)
write_all-Moved (error again ∷ rets) (b ∷ bytes) = nothing b bytes
write_all-Moved (error other ∷ rets) (b ∷ bytes) = nothing b bytes

send_loop-Moved : (calls : List Send) (bytes : List ℕ) → Moved bytes (send_loop calls bytes)
unfolding send_loop
send_loop-Moved calls [] = ([], refl, refl)
send_loop-Moved [] (b ∷ bytes) = (b ∷ bytes, refl, refl)
send_loop-Moved (sends n ∷ calls) (b ∷ bytes) = elim (Bool-cases (n == 0)) [
  | inl e ↦ rw e (nothing b bytes)
  | inr e ↦
      let bs = drop n (b ∷ bytes) in
      rw e (append-Moved n (b ∷ bytes) (send_loop calls bs) (send_loop-Moved calls bs))
]
send_loop-Moved (blocks true ∷ calls) (b ∷ bytes) = send_loop-Moved calls (b ∷ bytes)
send_loop-Moved (blocks false ∷ calls) (b ∷ bytes) = nothing b bytes
send_loop-Moved (fails ∷ calls) (b ∷ bytes) = nothing b bytes

-- `send_all` of an open socket sends the beginning of the data, and returns true exactly if that is all
-- of it, whatever the calls return; on a closed socket it does so with nothing sent.
pub send_all-Moved :
    (calls : List Send) (b : ℕ) (bytes : List ℕ)
    → Moved (b ∷ bytes) (send_all true calls (b ∷ bytes))
      × (send_all false calls (b ∷ bytes) ≡ (some false, []))
unfolding send_all
send_all-Moved calls b bytes = (send_loop-Moved calls (b ∷ bytes), refl)

leb_sub : (n k m : ℕ) → leb (n - k) m ≡ leb n (k + m)
leb_sub n k m = ground arith

-- `read_exact` returns true exactly if it stored as many bytes as it was asked for, or more, where a
-- call returns more than was asked of it.
pub read_exact-length :
    (rets : List (Ret (List ℕ))) (n : ℕ)
    → let (ok, got) = read_exact rets n in succeeded ok ≡ leb n (length got)
unfolding read_exact
read_exact-length rets zero = ground arith
read_exact-length [] (suc n) = ground arith
read_exact-length (count bytes ∷ rets) (suc n) = elim (Bool-cases (length bytes == 0)) [
  | inl e ↦ rw e (ground arith)
  | inr e ↦
      let got = (read_exact rets (suc n - length bytes)).1 in
      rw e (
        read_exact-length rets (suc n - length bytes)
        ∙ leb_sub (suc n) (length bytes) (length got)
        ∙ ap (leb (suc n)) (sym (length-append bytes got)))
]
read_exact-length (error intr ∷ rets) (suc n) = read_exact-length rets (suc n)
read_exact-length (error again ∷ rets) (suc n) = ground arith
read_exact-length (error other ∷ rets) (suc n) = ground arith
