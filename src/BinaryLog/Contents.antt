-- ===== src/BinaryLog/Contents.antt =====
-- What the files of a rotating log hold, as lists of records, if no call of the system fails.
use stm32_board.Base.{
  ℕ, ◌%◌, ◌^◌, ◌≡◌, refl, sym, ap, ◌∙◌, List, [], ◌∷◌, ◌++◌, map, true, length, append-nil,
  append_assoc,
}
use stm32_board.Wire.{write_u16_le, write_u32_le}
use stm32_board.BinaryLog.{
  Action, create_directories, opens, removes, writes, closes, Os, RecordHeader, file_header,
  file_header_bytes, record_header_bytes, write_f64,
}
use stm32_board.BinaryLog.Rotating.{RotatingBinaryLog, write_record}

-- A write goes to the end of the newest file.
abbrev pub append_newest : List ℕ → List (List ℕ) → List (List ℕ)
append_newest bytes [] = []
append_newest bytes (f ∷ fs) = (f ++ bytes) ∷ fs

-- The bytes of every file that the actions opened, the newest file first, removed ones included.
abbrev pub files : List Action → List (List ℕ)
files [] = []
files (create_directories p ∷ done) = files done
files (opens p ∷ done) = [] ∷ files done
files (removes p ∷ done) = files done
files (writes bytes ∷ done) = append_newest bytes (files done)
files (closes ∷ done) = files done

pub record LoggedRecord : Type 0 where
  pub header : RecordHeader
  pub payload : List ℕ

abbrev pub record_bytes : LoggedRecord → List ℕ
record_bytes r =
    record_header_bytes (record r.header { payload_len = length r.payload }) ++ r.payload

abbrev pub records_bytes : List LoggedRecord → List ℕ
records_bytes [] = []
records_bytes (r ∷ rs) = record_bytes r ++ records_bytes rs

-- A file with these records.
abbrev pub file_bytes : List LoggedRecord → List ℕ
file_bytes rs = file_header_bytes file_header ++ records_bytes rs

-- The records of some files, the newest file first, in the order of their writing.
abbrev pub in_order {ℓ} : {A : Type ℓ} → List (List A) → List A
in_order [] = []
in_order (g ∷ gs) = in_order gs ++ g

-- The calls of `write_record` for some records.
unfoldable pub write_records : Os → List LoggedRecord → RotatingBinaryLog → RotatingBinaryLog
write_records os [] l = l
write_records os (r ∷ rs) l =
    write_records os rs (write_record os r.header r.payload (length r.payload) l).1

-- No call of the system fails.
pub record Working (os : Os) : Type 0 where
  pub can_open : (done : List Action) → os.can_open done ≡ true
  pub good : (done : List Action) → os.good done ≡ true

-- The open log `l` has written the records `g` into its file, and `gs` into the ones before.
pub record Holds (l : RotatingBinaryLog) (g : List LoggedRecord) (gs : List (List LoggedRecord))
    : Type 0 where
  pub is_open : l.writer.is_open ≡ true
  pub held : files l.writer.done ≡ map file_bytes (g ∷ gs)
  pub counted : l.bytes_written ≡ length (file_bytes g) % 2 ^ 64

pub length-record_header_bytes : (h : RecordHeader) → length (record_header_bytes h) ≡ 20
unfolding record_header_bytes write_u16_le write_f64 write_u32_le
length-record_header_bytes h = refl

pub length-file_header_bytes : length (file_header_bytes file_header) ≡ 8
unfolding file_header_bytes write_u32_le write_u16_le
length-file_header_bytes = refl

pub records_bytes-append :
    (rs : List LoggedRecord) (r : LoggedRecord)
    → records_bytes (rs ++ r ∷ []) ≡ records_bytes rs ++ record_bytes r
records_bytes-append [] r = append-nil (record_bytes r)
records_bytes-append (x ∷ rs) r =
    ap (λ t. record_bytes x ++ t) (records_bytes-append rs r)
    ∙ sym (append_assoc (record_bytes x) (records_bytes rs) (record_bytes r))

pub file_bytes-append :
    (rs : List LoggedRecord) (r : LoggedRecord)
    → file_bytes (rs ++ r ∷ []) ≡ file_bytes rs ++ record_bytes r
file_bytes-append rs r =
    ap (λ t. file_header_bytes file_header ++ t) (records_bytes-append rs r)
    ∙ sym (append_assoc (file_header_bytes file_header) (records_bytes rs) (record_bytes r))
