-- ===== src/BinaryLog/Kept.antt =====
-- What the operations of a rotating log do to the records in its files.
use Prim.Native.String.{String, ◌++◌ as ◌<>◌}
use stm32_board.Base.{
  ℕ, suc, ◌+◌, ◌%◌, ◌^◌, ◌≡◌, inl, inr, refl, sym, ap, ap₂, ◌∙◌, List, [], ◌∷◌, ◌++◌, map, Bool,
  true, ltb, Bool-cases, length, length-append, append-nil, append_assoc, arith, if◌then◌else◌,
}
use stm32_board.Wire.{write_u16_le, write_u32_le}
use stm32_board.BinaryLog.{
  Action, create_directories, opens, removes, writes, closes, DirectoryEntry, Os, RecordHeader,
  BinaryLogWriter, file_header, file_header_bytes, record_header_bytes, write_f64, file_header_size,
  record_header_size,
}
use stm32_board.BinaryLog
use stm32_board.BinaryLog.Rotating.{
  RotatingBinaryLog, prune, cleanup, open_new_file, opened, written, name_prefix,
}
use stm32_board.BinaryLog.Contents.{
  Holds, append_newest, files, LoggedRecord, record_bytes, file_bytes, Working,
  length-record_header_bytes, file_bytes-append,
}

-- Removing files leaves the bytes that were written.
files-prune :
    (keep : ℕ) (es : List DirectoryEntry) (done : List Action)
    → files (prune keep es done) ≡ files done
unfolding prune
files-prune keep [] done = refl
files-prune keep (e ∷ es) done = elim (Bool-cases (ltb keep (length (e ∷ es)))) [
  | inl c ↦ rw c (files-prune keep es (removes e.path ∷ done))
  | inr c ↦ rw c refl
]

pub files-close : (w : BinaryLogWriter) → files (BinaryLog.close w).done ≡ files w.done
unfolding BinaryLog.close
files-close w = elim (Bool-cases w.is_open) [ inl e ↦ rw e refl | inr e ↦ rw e refl ]

-- A new file of the writer starts with its header.
open_file-files :
    (os : Os) (path : String) (w : BinaryLogWriter)
    → Working os
    → let (ok, w') = BinaryLog.open_ os path w in
      (ok ≡ true) × (w'.is_open ≡ true) × (files w'.done ≡ file_bytes [] ∷ files w.done)
unfolding BinaryLog.open_
open_file-files os path w works = elim (Bool-cases (os.has_parent_path path)) [
  | inl e ↦
      rw (e, works.can_open, works.good)
        (refl, refl, ap₂ (◌∷◌) (sym (append-nil (file_header_bytes file_header))) (files-close w))
  | inr e ↦
      rw (e, works.can_open, works.good)
        (refl, refl, ap₂ (◌∷◌) (sym (append-nil (file_header_bytes file_header))) (files-close w))
]

-- What `cleanup` leaves as it was.
record SameFile (l l' : RotatingBinaryLog) : Type 0 where
  is_open : l'.writer.is_open ≡ l.writer.is_open
  held : files l'.writer.done ≡ files l.writer.done
  counted : l'.bytes_written ≡ l.bytes_written
  limit : l'.max_bytes ≡ l.max_bytes

cleanup-SameFile : (os : Os) (l : RotatingBinaryLog) → SameFile l (cleanup os l)
unfolding cleanup
cleanup-SameFile os l = elim (Bool-cases (ltb 0 l.keep_files)) [
  | inl e ↦ rw e (record {
    is_open = refl;
    held = files-prune l.keep_files _ l.writer.done;
    counted = refl;
    limit = refl;
  })
  | inr e ↦ rw e (record { is_open = refl; held = refl; counted = refl; limit = refl })
]

size_of_header : 8 ≡ length (file_bytes []) % 2 ^ 64
unfolding file_header_bytes write_u32_le write_u16_le
size_of_header = refl

opened-Holds :
    (os : Os) (l : RotatingBinaryLog) (out : Bool × BinaryLogWriter) (gs : List (List LoggedRecord))
    → out.0 ≡ true
    → out.1.is_open ≡ true
    → files out.1.done ≡ map file_bytes ([] ∷ gs)
    → let (ok, l') = opened os l out in (ok ≡ true) × Holds l' [] gs × (l'.max_bytes ≡ l.max_bytes)
unfolding opened
opened-Holds os l out gs ok is_open held =
    let l1 = record l { writer = out.1; bytes_written = 8 } in
    let s = cleanup-SameFile os l1 in
    rw ok (
      refl,
      record {
        is_open = s.is_open ∙ is_open;
        held = s.held ∙ held;
        counted = s.counted ∙ size_of_header;
      },
      s.limit,
    )

-- A new file holds no record yet.
pub open_new_file-Holds :
    (os : Os) (l : RotatingBinaryLog) (gs : List (List LoggedRecord))
    → Working os
    → files l.writer.done ≡ map file_bytes gs
    → let (ok, l') = open_new_file os l in
      (ok ≡ true) × Holds l' [] gs × (l'.max_bytes ≡ l.max_bytes)
unfolding open_new_file
open_new_file-Holds os l gs works held =
    let path = os.join l.dir (name_prefix l <> (os.to_string l.index <> l.ext)) in
    let out = open_file-files os path l.writer works in
    opened-Holds os (record l { index = (l.index + 1) % 2 ^ 32 }) (BinaryLog.open_ os path l.writer)
      gs out.0 out.1 (out.2 ∙ ap (◌∷◌ (file_bytes [])) held)

files-payload :
    (f : List ℕ) (fs : List (List ℕ)) (done : List Action) (payload : List ℕ)
    → files done ≡ f ∷ fs
    → files (if ltb 0 (length payload) then writes payload ∷ done else done) ≡ (f ++ payload) ∷ fs
files-payload f fs done [] e = e ∙ ap (λ t. t ∷ fs) (sym (append-nil f))
files-payload f fs done (b ∷ payload) e = rw (ltb_zero, e) refl
  where
    ltb_zero : ltb 0 (suc (length payload)) ≡ true
    ltb_zero = ground arith

-- A record goes to the end of the file of an open log.
write_record-files :
    (os : Os) (w : BinaryLogWriter) (g : List LoggedRecord) (gs : List (List LoggedRecord))
    (r : LoggedRecord)
    → Working os
    → w.is_open ≡ true
    → files w.done ≡ map file_bytes (g ∷ gs)
    → let (ok, w') = BinaryLog.write_record os r.header r.payload (length r.payload) w in
      (ok ≡ true) × (w'.is_open ≡ true) × (files w'.done ≡ map file_bytes ((g ++ r ∷ []) ∷ gs))
unfolding BinaryLog.write_record
write_record-files os w g gs r works is_open held =
    let header = record_header_bytes (record r.header { payload_len = length r.payload }) in
    let whole = append_assoc (file_bytes g) header r.payload ∙ sym (file_bytes-append g r) in
    rw (is_open, works.good)
      (
        refl,
        refl,
        files-payload (file_bytes g ++ header) (map file_bytes gs) (writes header ∷ w.done)
              r.payload (ap (append_newest header) held)
            ∙ ap (λ f. f ∷ map file_bytes gs) whole,
      )

added : (n b k : ℕ) → n ≡ b % 2 ^ 64 → (n + k) % 2 ^ 64 ≡ (b + k) % 2 ^ 64
added n b k e = omega arith

length-record_bytes : (r : LoggedRecord) → length (record_bytes r) ≡ 20 + length r.payload
length-record_bytes r =
    let h = record r.header { payload_len = length r.payload } in
    omega (arith, length-append (record_header_bytes h) r.payload, length-record_header_bytes h)

pub length-file_bytes_nil : length (file_bytes []) ≡ 8
unfolding file_header_bytes write_u32_le write_u16_le
length-file_bytes_nil = refl

pub length-file_bytes :
    (g : List LoggedRecord) (r : LoggedRecord)
    → length (file_bytes (g ++ r ∷ [])) ≡ length (file_bytes g) + (20 + length r.payload)
length-file_bytes g r =
    ap length (file_bytes-append g r)
    ∙ omega (arith, length-append (file_bytes g) (record_bytes r), length-record_bytes r)

pub written-Holds :
    (os : Os) (l : RotatingBinaryLog) (g : List LoggedRecord) (gs : List (List LoggedRecord))
    (r : LoggedRecord)
    → Working os
    → Holds l g gs
    → let n = length r.payload in
      let (ok, l') =
        written os (20 + n) l (BinaryLog.write_record os r.header r.payload n l.writer) in
      (ok ≡ true) × Holds l' (g ++ r ∷ []) gs × (l'.max_bytes ≡ l.max_bytes)
unfolding written
written-Holds os l g gs r works h =
    let out = write_record-files os l.writer g gs r works h.is_open h.held in
    rw out.0 (
      refl,
      record {
        is_open = out.1;
        held = out.2;
        counted =
            added l.bytes_written (length (file_bytes g)) (20 + length r.payload) h.counted
            ∙ ap (λ k. k % 2 ^ 64) (sym (length-file_bytes g r));
      },
      refl,
    )
