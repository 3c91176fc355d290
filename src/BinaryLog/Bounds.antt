-- ===== src/BinaryLog/Bounds.antt =====
-- A rotating log keeps every record, in order, in files within the limit.
use Prim.Native.String.{String}
use stm32_board.Base.{
  ℕ, ◌+◌, ◌%◌, ◌^◌, ◌≤◌, ◌<◌, ◌≡◌, ◌⊎◌, inl, inr, refl, sym, ◌∙◌, List, [], ◌∷◌, ◌++◌, map, All,
  true, false, leb, ◌==◌, ==_iff, Bool-cases, length, append-nil, append_assoc, arith, subst,
}
use stm32_board.Core.{IsU16}
use stm32_board.BinaryLog
use stm32_board.BinaryLog.{Action, Os}
use stm32_board.BinaryLog.Rotating.{
  RotatingBinaryLog, blank_log, open_new_file, open_, close, rotate_if_needed, write_record,
  after_rotation,
}
use stm32_board.BinaryLog.Contents.{
  files, LoggedRecord, file_bytes, in_order, write_records, Working, Holds,
}
use stm32_board.BinaryLog.Kept.{
  length-file_bytes, length-file_bytes_nil, written-Holds, open_new_file-Holds, files-close,
}

-- A file keeps to the limit, if there is one, or it has one record only.
abbrev pub Fits : ℕ → List LoggedRecord → Type 0
Fits max_bytes rs = (max_bytes ≡ 0) ⊎ (length (file_bytes rs) ≤ max_bytes) ⊎ (length rs ≤ 1)

-- The file that is written is below this size, so that `bytes_written_` does not wrap.
abbrev Small : ℕ → List LoggedRecord → Type 0
Small max_bytes rs = (max_bytes ≡ 0) ⊎ (length (file_bytes rs) ≤ max_bytes + 65563)

-- What a call of `write_record` leads to: the record goes to the file that is open, or to a new one.
abbrev Step :
    ℕ → List LoggedRecord → List (List LoggedRecord) → LoggedRecord → RotatingBinaryLog → Type 0
Step max_bytes g gs r l =
    (Holds l (g ++ r ∷ []) gs × Fits max_bytes (g ++ r ∷ []) × Small max_bytes (g ++ r ∷ []))
    ⊎ Holds l (r ∷ []) (g ∷ gs)

room :
    (max_bytes b size n : ℕ)
    → leb ((b + (20 + n)) % 2 ^ 64) max_bytes ≡ true
    → max_bytes < 2 ^ 63
    → n < 2 ^ 16
    → b ≡ size % 2 ^ 64
    → (max_bytes ≡ 0) ⊎ (size ≤ max_bytes + 65563)
    → (max_bytes ≡ 0) ⊎ (size + (20 + n) ≤ max_bytes)
room max_bytes b size n e lm ln c small = ground arith

after_append :
    (max_bytes : ℕ) (g : List LoggedRecord) (r : LoggedRecord)
    → (max_bytes ≡ 0) ⊎ (length (file_bytes g) + (20 + length r.payload) ≤ max_bytes)
    → Fits max_bytes (g ++ r ∷ []) × Small max_bytes (g ++ r ∷ [])
after_append max_bytes g r (inl e) = (inl e, inl e)
after_append max_bytes g r (inr le) =
    (inr (inl (omega (arith, length-file_bytes g r))), inr (omega (arith, length-file_bytes g r)))

module _ (os : Os) (works : Working os) where
  -- The record follows the others in the file.
  stays :
      (l : RotatingBinaryLog) (g : List LoggedRecord) (gs : List (List LoggedRecord))
      (r : LoggedRecord)
      → Holds l g gs
      → (l.max_bytes ≡ 0) ⊎ (length (file_bytes g) + (20 + length r.payload) ≤ l.max_bytes)
      → let n = length r.payload in
        let (ok, l') = after_rotation os r.header r.payload n (true, l) in
        (ok ≡ true) × (l'.max_bytes ≡ l.max_bytes) × Step l.max_bytes g gs r l'
  unfolding after_rotation
  stays l g gs r h fits =
      let out = written-Holds os l g gs r works h in
      let (f, small) = after_append l.max_bytes g r fits in (out.0, out.2, inl (out.1, f, small))

  -- The record is the first of a new file.
  moves :
      (l : RotatingBinaryLog) (g : List LoggedRecord) (gs : List (List LoggedRecord))
      (r : LoggedRecord)
      → Holds l g gs
      → let n = length r.payload in
        let (ok, l') = after_rotation os r.header r.payload n (open_new_file os (close l)) in
        (ok ≡ true) × (l'.max_bytes ≡ l.max_bytes) × Step l.max_bytes g gs r l'
  unfolding after_rotation close
  moves l g gs r h =
      let opened =
        open_new_file-Holds os (close l) (g ∷ gs) works (files-close l.writer ∙ h.held) in
      let out = written-Holds os (open_new_file os (close l)).1 [] (g ∷ gs) r works opened.1 in
      rw opened.0 (out.0, out.2 ∙ opened.2, inr out.1)

  no_limit :
      (k : ℕ) (l : RotatingBinaryLog)
      → l.writer.is_open ≡ true
      → (l.max_bytes == 0) ≡ true
      → rotate_if_needed os k l ≡ (true, l)
  unfolding rotate_if_needed
  no_limit k l o e = simp (o, e)

  room_left :
      (k : ℕ) (l : RotatingBinaryLog)
      → l.writer.is_open ≡ true
      → (l.max_bytes == 0) ≡ false
      → leb ((l.bytes_written + k) % 2 ^ 64) l.max_bytes ≡ true
      → rotate_if_needed os k l ≡ (true, l)
  unfolding rotate_if_needed
  room_left k l o e c = simp (o, e, c)

  full :
      (k : ℕ) (l : RotatingBinaryLog)
      → l.writer.is_open ≡ true
      → (l.max_bytes == 0) ≡ false
      → leb ((l.bytes_written + k) % 2 ^ 64) l.max_bytes ≡ false
      → rotate_if_needed os k l ≡ open_new_file os (close l)
  unfolding rotate_if_needed
  full k l o e c = simp (o, e, c)

  write_record-Step :
      (l : RotatingBinaryLog) (g : List LoggedRecord) (gs : List (List LoggedRecord))
      (r : LoggedRecord)
      → l.max_bytes < 2 ^ 63
      → IsU16 (length r.payload)
      → Holds l g gs
      → Small l.max_bytes g
      → let (ok, l') = write_record os r.header r.payload (length r.payload) l in
        (ok ≡ true) × (l'.max_bytes ≡ l.max_bytes) × Step l.max_bytes g gs r l'
  unfolding write_record
  write_record-Step l g gs r lm ln h small =
      let n = length r.payload in
      elim (Bool-cases (l.max_bytes == 0)) [
        | inl e ↦
            rw (no_limit (20 + n) l h.is_open e)
              (stays l g gs r h (inl ((==_iff l.max_bytes 0).0 e)))
        | inr e ↦ elim (Bool-cases (leb ((l.bytes_written + (20 + n)) % 2 ^ 64) l.max_bytes)) [
          | inl c ↦ rw (room_left (20 + n) l h.is_open e c) (
              stays l g gs r h (
                room l.max_bytes l.bytes_written (length (file_bytes g)) n c lm ln h.counted small))
          | inr c ↦ rw (full (20 + n) l h.is_open e c) (moves l g gs r h)
        ]
      ]

abbrev PayloadsInRange : List LoggedRecord → Type 0
PayloadsInRange rs = All (λ r. IsU16 (length r.payload)) rs

-- The files hold the records in order, and each keeps to the limit.
abbrev pub Logged : ℕ → List LoggedRecord → List Action → Type 0
Logged max_bytes rs done =
    (groups : List (List LoggedRecord)) × (files done ≡ map file_bytes groups)
    × (in_order groups ≡ rs)
    × All (Fits max_bytes) groups

one_record-Small :
    (max_bytes : ℕ) (r : LoggedRecord) → IsU16 (length r.payload) → Small max_bytes (r ∷ [])
one_record-Small max_bytes r h = inr (omega (arith, length-file_bytes [] r, length-file_bytes_nil))

one_more :
    (max_bytes : ℕ) (xs : List LoggedRecord) (r : LoggedRecord) (rs : List LoggedRecord)
    (done : List Action)
    → Logged max_bytes ((xs ++ r ∷ []) ++ rs) done
    → Logged max_bytes (xs ++ r ∷ rs) done
one_more max_bytes xs r rs done (groups, held, order, fit) =
    (groups, held, order ∙ append_assoc xs (r ∷ []) rs, fit)

module _ (os : Os) (works : Working os) where
  write_records-Logged :
      (rs : List LoggedRecord) (l : RotatingBinaryLog) (max_bytes : ℕ) (g : List LoggedRecord)
      (gs : List (List LoggedRecord))
      → l.max_bytes ≡ max_bytes
      → max_bytes < 2 ^ 63
      → PayloadsInRange rs
      → Holds l g gs
      → Small max_bytes g
      → All (Fits max_bytes) (g ∷ gs)
      → Logged max_bytes (in_order (g ∷ gs) ++ rs) (write_records os rs l).writer.done
  unfolding write_records
  write_records-Logged [] l max_bytes g gs m lm range h small fit =
      (g ∷ gs, h.held, sym (append-nil (in_order (g ∷ gs))), fit)
  write_records-Logged (r ∷ rs) l max_bytes g gs m lm (range, ranges) h small fit =
      let l' = (write_record os r.header r.payload (length r.payload) l).1 in
      let done = (write_records os rs l').writer.done in
      let (ok, limit, step) =
        subst
          (λ k.
            let (ok, l') = write_record os r.header r.payload (length r.payload) l in
            (ok ≡ true) × (l'.max_bytes ≡ l.max_bytes) × Step k g gs r l')
          m
          (write_record-Step os works l g gs r (omega (arith, m)) range h
            (subst (λ k. Small k g) (sym m) small)) in
      elim step [
        | inl (h', f, small') ↦ one_more max_bytes (in_order (g ∷ gs)) r rs done (
            subst (λ xs. Logged max_bytes (xs ++ rs) (write_records os rs l').writer.done)
              (sym (append_assoc (in_order gs) g (r ∷ [])))
              (write_records-Logged rs l' max_bytes (g ++ r ∷ []) gs (limit ∙ m) lm ranges h' small'
                (f, fit.1)))
        | inr h' ↦ one_more max_bytes (in_order (g ∷ gs)) r rs done (
            write_records-Logged rs l' max_bytes (r ∷ []) (g ∷ gs) (limit ∙ m) lm ranges h'
              (one_record-Small max_bytes r range) (inr (inr (omega arith)), fit))
      ]

  -- A log that is opened and written, if no call of the system fails, its limit is below 2^63 and each
  -- payload below 2^16 bytes, has put every record into its files, in order, and each file keeps to the
  -- limit, if there is one, unless it has one record only.
  pub open-write_records-Logged :
      (session_tag base_path : String) (max_bytes keep_files : ℕ) (rs : List LoggedRecord)
      → max_bytes < 2 ^ 63
      → PayloadsInRange rs
      → let (ok, l) = open_ os session_tag base_path max_bytes keep_files blank_log in
        (ok ≡ true) × Logged max_bytes rs (write_records os rs l).writer.done
  unfolding open_ BinaryLog.close
  open-write_records-Logged session_tag base_path max_bytes keep_files rs lm range =
      let opened = open_new_file-Holds os _ [] works refl in
      (
        opened.0,
        write_records-Logged rs _ max_bytes [] [] opened.2 lm range opened.1
            (inr (omega (arith, length-file_bytes_nil))) (inr (inr (omega arith)), tt),
      )
