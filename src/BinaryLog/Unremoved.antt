-- ===== src/BinaryLog/Unremoved.antt =====
-- A rotating log whose `keep_files` is 0 removes no file.
use Prim.Native.String.{String, ◌++◌ as ◌<>◌}
use stm32_board.Base.{
  ℕ, ◌+◌, ◌≡◌, refl, List, [], ◌∷◌, Bool, true, false, ltb, leb, ◌==◌, Bool-cases, inl, inr, length,
  ◌%◌, ◌^◌,
}
use stm32_board.BinaryLog.{
  Action, create_directories, opens, removes, writes, closes, Os, RecordHeader, BinaryLogWriter,
  file_header_size, record_header_size,
}
use stm32_board.BinaryLog
use stm32_board.BinaryLog.Rotating.{
  RotatingBinaryLog, blank_log, open_, cleanup, opened, open_new_file, rotate_if_needed, written,
  after_rotation, write_record, close, name_prefix,
}
use stm32_board.BinaryLog.Contents.{LoggedRecord, write_records}

-- No action removes a file.
abbrev pub Unremoved : List Action → Type 0
Unremoved [] = Unit {0}
Unremoved (create_directories p ∷ done) = Unremoved done
Unremoved (opens p ∷ done) = Unremoved done
Unremoved (removes p ∷ done) = ⊥
Unremoved (writes bytes ∷ done) = Unremoved done
Unremoved (closes ∷ done) = Unremoved done

-- The log prunes nothing and has removed nothing.
record Whole (l : RotatingBinaryLog) : Type 0 where
  keeps_all : l.keep_files ≡ 0
  unremoved : Unremoved l.writer.done

close-Unremoved : (w : BinaryLogWriter) → Unremoved w.done → Unremoved (BinaryLog.close w).done
unfolding BinaryLog.close
close-Unremoved w h = elim (Bool-cases w.is_open) [ inl e ↦ simp e h | inr e ↦ simp e h ]

module _ (os : Os) where
  open_file-Unremoved :
      (path : String) (w : BinaryLogWriter)
      → Unremoved w.done
      → Unremoved (BinaryLog.open_ os path w).1.done
  unfolding BinaryLog.open_
  open_file-Unremoved path w h =
      let c = close-Unremoved w h in
      let bare = (BinaryLog.close w).done in
      let made = create_directories (os.parent_path path) ∷ bare in
      elim (Bool-cases (os.has_parent_path path)) [
        | inl e ↦ elim (Bool-cases (os.can_open (opens path ∷ made))) [
          | inl e' ↦ rw (e, e') c
          | inr e' ↦ rw (e, e') c
        ]
        | inr e ↦ elim (Bool-cases (os.can_open (opens path ∷ bare))) [
          | inl e' ↦ rw (e, e') c
          | inr e' ↦ rw (e, e') c
        ]
      ]

  record-Unremoved :
      (h : RecordHeader) (payload : List ℕ) (n : ℕ) (w : BinaryLogWriter)
      → Unremoved w.done
      → Unremoved (BinaryLog.write_record os h payload n w).1.done
  unfolding BinaryLog.write_record
  record-Unremoved h payload n w u = elim (Bool-cases w.is_open) [
    | inr e ↦ rw e u
    | inl e ↦ elim (Bool-cases (ltb 0 n)) [ inl e' ↦ rw (e, e') u | inr e' ↦ rw (e, e') u ]
  ]

  cleanup-same : (l : RotatingBinaryLog) → l.keep_files ≡ 0 → cleanup os l ≡ l
  unfolding cleanup
  cleanup-same l k = simp k refl

  opened-Whole :
      (ok : Bool) (w : BinaryLogWriter) (l : RotatingBinaryLog)
      → l.keep_files ≡ 0
      → Unremoved w.done
      → Whole (opened os l (ok, w)).1
  unfolding opened
  opened-Whole true w l k u =
      rw (cleanup-same (record l { writer = w; bytes_written = file_header_size }) k)
        (record { keeps_all = k; unremoved = u })
  opened-Whole false w l k u = record { keeps_all = k; unremoved = u }

  open_new_file-Whole : (l : RotatingBinaryLog) → Whole l → Whole (open_new_file os l).1
  unfolding open_new_file
  open_new_file-Whole l h =
      let path = os.join l.dir (name_prefix l <> (os.to_string l.index <> l.ext)) in
      let (ok, w) = BinaryLog.open_ os path l.writer in
      opened-Whole ok w (record l { index = (l.index + 1) % 2 ^ 32 }) h.keeps_all
        (open_file-Unremoved path l.writer h.unremoved)

  rotate-Whole : (n : ℕ) (l : RotatingBinaryLog) → Whole l → Whole (rotate_if_needed os n l).1
  unfolding rotate_if_needed close
  rotate-Whole n l h =
      let moved =
        open_new_file-Whole (close l)
          (record { keeps_all = h.keeps_all; unremoved = close-Unremoved l.writer h.unremoved }) in
      elim (Bool-cases l.writer.is_open) [
        | inr e ↦ simp e h
        | inl e ↦ elim (Bool-cases (l.max_bytes == 0)) [
          | inl e' ↦ simp (e, e') h
          | inr e' ↦ elim (Bool-cases (leb ((l.bytes_written + n) % 2 ^ 64) l.max_bytes)) [
            | inl e'' ↦ simp (e, e', e'') h
            | inr e'' ↦ simp (e, e', e'') moved
          ]
        ]
      ]

  after_rotation-Whole :
      (h : RecordHeader) (payload : List ℕ) (n : ℕ) (ok : Bool) (l : RotatingBinaryLog)
      → Whole l
      → Whole (after_rotation os h payload n (ok, l)).1
  unfolding after_rotation written
  after_rotation-Whole h payload n true l w = record {
    keeps_all = w.keeps_all;
    unremoved = record-Unremoved h payload n l.writer w.unremoved;
  }
  after_rotation-Whole h payload n false l w = w

  write_records-Whole :
      (rs : List LoggedRecord) (l : RotatingBinaryLog) → Whole l → Whole (write_records os rs l)
  unfolding write_records write_record
  write_records-Whole [] l w = w
  write_records-Whole (r ∷ rs) l w =
      let n = length r.payload in
      let (ok, l') = rotate_if_needed os (record_header_size + n) l in
      write_records-Whole rs (write_record os r.header r.payload n l).1 (
        after_rotation-Whole r.header r.payload n ok l' (rotate-Whole (record_header_size + n) l w))

  -- A log that is opened with `keep_files` 0 and written removes no file.
  pub open-write_records-Unremoved :
      (session_tag base_path : String) (max_bytes : ℕ) (rs : List LoggedRecord)
      → Unremoved
          (write_records os rs (open_ os session_tag base_path max_bytes 0 blank_log).1).writer.done
  unfolding open_ BinaryLog.close
  open-write_records-Unremoved session_tag base_path max_bytes rs =
      (write_records-Whole rs _
        (open_new_file-Whole _ (record { keeps_all = refl; unremoved = tt }))).unremoved
