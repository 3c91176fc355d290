-- ===== src/Decoder/Rows.antt =====
-- The rows of the CSV files, record by record and file by file.
use stm32_board.Base.{
  ℕ, ◌≡◌, refl, sym, ap, ap₂, ◌∙◌, List, [], ◌∷◌, ◌++◌, map, All, true, ◌==◌, Bool-cases, inl, inr,
  Option, none, some, append-nil, append_assoc, arith, length-append,
}
use stm32_board.BinaryLog.{RecordHeader, blank_record, record_header_bytes}
use stm32_board.BinaryLog.Contents.{
  LoggedRecord, record_bytes, file_bytes, in_order, length-record_header_bytes,
}
use stm32_board.Decoder.{Row, Decoded, nothing, decode_record, decode_log}
use stm32_board.Decoder.Contents.{stored, InRange, decode_all}
use stm32_board.Decoder.Cut.{decode_log-cut}

-- The rows of the three files.
abbrev pub Csvs : Type 0
Csvs = List Row × List Row × List Row

abbrev pub csvs : Decoded → Csvs
csvs d = (d.state_csv, d.cmd_csv, d.event_csv)

abbrev pub both : Csvs → Csvs → Csvs
both (s, c, e) (s', c', e') = (s ++ s', c ++ c', e ++ e')

both_assoc : (a b c : Csvs) → both (both a b) c ≡ both a (both b c)
both_assoc (s, c, e) (s', c', e') (s'', c'', e'') =
    λ i. (append_assoc s s' s'' i, append_assoc c c' c'' i, append_assoc e e' e'' i)

-- The rows of a file that is decoded by itself.
abbrev pub csvs_of : Option Decoded → Csvs
csvs_of none = ([], [], [])
csvs_of (some d) = csvs d

-- The rows of some files, the newest file first, in the order of their writing.
abbrev pub csvs_of_files : List (List ℕ) → Csvs
csvs_of_files [] = ([], [], [])
csvs_of_files (f ∷ fs) = both (csvs_of_files fs) (csvs_of (decode_log (some f) true))

-- The rows that a record adds do not depend on those before it.
csvs-decode_record :
    (rh : RecordHeader) (payload : List ℕ) (d : Decoded)
    → csvs (decode_record rh payload d) ≡ both (csvs d) (csvs (decode_record rh payload nothing))
unfolding decode_record
csvs-decode_record rh payload d = elim (Bool-cases (rh.type_ == 1)) [
  | inl e ↦ elim (Bool-cases (rh.payload_len == 88)) [
    | inl f ↦ simp (e, f, append-nil)
    | inr f ↦ simp (e, f, append-nil)
  ]
  | inr e ↦ elim (Bool-cases (rh.type_ == 2)) [
    | inl f ↦ elim (Bool-cases (rh.payload_len == 28)) [
      | inl g ↦ simp (e, f, g, append-nil)
      | inr g ↦ simp (e, f, g, append-nil)
    ]
    | inr f ↦ elim (Bool-cases (rh.type_ == 3)) [
      | inl g ↦ elim (Bool-cases (rh.payload_len == 29)) [
        | inl h ↦ simp (e, f, g, h, append-nil)
        | inr h ↦ simp (e, f, g, h, append-nil)
      ]
      | inr g ↦ simp (e, f, g, append-nil)
    ]
  ]
]

abbrev pub rows : List LoggedRecord → Csvs
rows rs = csvs (decode_all rs nothing)

csvs-decode_all :
    (rs : List LoggedRecord) (d : Decoded) → csvs (decode_all rs d) ≡ both (csvs d) (rows rs)
unfolding decode_all
csvs-decode_all [] d = λ i.
    (sym (append-nil d.state_csv) i, sym (append-nil d.cmd_csv) i, sym (append-nil d.event_csv) i)
csvs-decode_all (r ∷ rs) d =
    let one = λ (d : Decoded). decode_record (stored r) r.payload d in
    csvs-decode_all rs (one d)
    ∙ ap (λ c. both c (rows rs)) (csvs-decode_record (stored r) r.payload d)
    ∙ both_assoc (csvs d) (csvs (one nothing)) (rows rs)
    ∙ ap (both (csvs d)) (sym (csvs-decode_all rs (one nothing)))

pub rows-cons :
    (r : LoggedRecord) (rs : List LoggedRecord)
    → rows (r ∷ rs) ≡ both (csvs (decode_record (stored r) r.payload nothing)) (rows rs)
unfolding decode_all
rows-cons r rs = csvs-decode_all rs (decode_record (stored r) r.payload nothing)

pub rows-append : (xs ys : List LoggedRecord) → rows (xs ++ ys) ≡ both (rows xs) (rows ys)
unfolding decode_all
rows-append [] ys = refl
rows-append (x ∷ xs) ys =
    let c = csvs (decode_record (stored x) x.payload nothing) in
    rows-cons x (xs ++ ys)
    ∙ ap (both c) (rows-append xs ys)
    ∙ sym (both_assoc c (rows xs) (rows ys))
    ∙ ap (λ t. both t (rows ys)) (sym (rows-cons x xs))

-- A file that ends behind a whole record.
decode_log-file_bytes :
    (rs : List LoggedRecord)
    → All InRange rs
    → decode_log (some (file_bytes rs)) true ≡ some (decode_all rs nothing)
unfolding record_header_bytes
decode_log-file_bytes rs h =
    ap (λ bytes. decode_log (some bytes) true) (sym (append-nil (file_bytes rs)))
    ∙ decode_log-cut rs (record { header = blank_record; payload = [] }) 0 h
        (record { payload_len = omega arith; epoch_s = omega arith; mono_s = omega arith })
        (omega (
          arith,
          length-append (record_bytes (record { header = blank_record; payload = [] })) [],
          length-record_header_bytes blank_record,
        ))

All-left : (xs ys : List LoggedRecord) → All InRange (xs ++ ys) → All InRange xs
All-left [] ys h = tt
All-left (x ∷ xs) ys (h, hs) = (h, All-left xs ys hs)

All-right : (xs ys : List LoggedRecord) → All InRange (xs ++ ys) → All InRange ys
All-right [] ys h = h
All-right (x ∷ xs) ys (h, hs) = All-right xs ys hs

-- Decoding the files one by one gives the rows of all their records in order.
pub csvs_of_files-rows :
    (groups : List (List LoggedRecord))
    → All InRange (in_order groups)
    → csvs_of_files (map file_bytes groups) ≡ rows (in_order groups)
unfolding decode_all
csvs_of_files-rows [] h = refl
csvs_of_files-rows (g ∷ gs) h =
    ap₂ both (csvs_of_files-rows gs (All-left (in_order gs) g h))
      (ap csvs_of (decode_log-file_bytes g (All-right (in_order gs) g h)))
    ∙ sym (rows-append (in_order gs) g)
