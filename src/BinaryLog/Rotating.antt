-- ===== src/BinaryLog/Rotating.antt =====
-- cpp_gateway/include/utils/rotating_binary_log.hpp and cpp_gateway/src/utils/rotating_binary_log.cpp:
-- a log in files of bounded size, the oldest of which are removed. Log lines are left out.
use Prim.Native.String.{String, ◌++◌}
use text.Mathlib.Text.{◌==◌ as ◌≐◌, starts_with}
use stm32_board.Base.{
  ℕ, ◌+◌, ◌%◌, ◌^◌, List, [], ◌∷◌, Bool, true, false, not, ◌&&◌, ◌==◌, ltb, leb, if◌then◌else◌,
  length,
}
use stm32_board.BinaryLog.{
  Action, create_directories, removes, DirectoryEntry, Os, RecordHeader, BinaryLogWriter,
  file_header_size, record_header_size,
}
use stm32_board.BinaryLog

pub record RotatingBinaryLog : Type 0 where
  pub base_path : String
  pub dir : String
  pub stem : String
  pub ext : String
  pub max_bytes : ℕ
  pub keep_files : ℕ
  pub index : ℕ
  pub bytes_written : ℕ
  pub session_tag : String
  pub writer : BinaryLogWriter

-- `RotatingBinaryLog{}`
abbrev pub blank_log : RotatingBinaryLog
blank_log = record {
  base_path = "";
  dir = "";
  stem = "";
  ext = ".bin";
  max_bytes = 0;
  keep_files = 0;
  index = 0;
  bytes_written = 0;
  session_tag = "";
  writer = record { is_open = false; done = [] };
}

-- `stem_ + "_" + session_tag_ + "_"`
unfoldable pub name_prefix : RotatingBinaryLog → String
name_prefix l = l.stem ++ ("_" ++ (l.session_tag ++ "_"))

-- The files of this session in a directory.
unfoldable pub matches : RotatingBinaryLog → List DirectoryEntry → List DirectoryEntry
matches l [] = []
matches l (e ∷ es) =
    let rest = matches l es in
    if e.is_regular_file && starts_with e.filename (name_prefix l) && (e.extension ≐ l.ext)
    then e ∷ rest
    else rest

-- `while (matches.size() > keep_files_)`: the first is removed.
unfoldable pub prune : ℕ → List DirectoryEntry → List Action → List Action
prune keep [] done = done
prune keep (e ∷ es) done =
    let rest = prune keep es (removes e.path ∷ done) in
    if ltb keep (length (e ∷ es)) then rest else done

unfoldable pub close : RotatingBinaryLog → RotatingBinaryLog
close l = record l { writer = BinaryLog.close l.writer }

module _ (os : Os) where
  -- The files beyond `keep_files_` are removed, the oldest first.
  unfoldable pub cleanup : RotatingBinaryLog → RotatingBinaryLog
  cleanup l =
      let found = os.sort_by_time (matches l (os.listing l.writer.done l.dir)) in
      if ltb 0 l.keep_files
      then record l { writer = record l.writer { done = prune l.keep_files found l.writer.done } }
      else l

  unfoldable pub opened : RotatingBinaryLog → Bool × BinaryLogWriter → Bool × RotatingBinaryLog
  opened l (ok, w) =
      if ok
      then (true, cleanup (record l { writer = w; bytes_written = file_header_size }))
      else (false, record l { writer = w })

  unfoldable pub open_new_file : RotatingBinaryLog → Bool × RotatingBinaryLog
  unfolding opened
  open_new_file l =
      let name = name_prefix l ++ (os.to_string l.index ++ l.ext) in
      opened (record l { index = (l.index + 1) % 2 ^ 32 })
        (BinaryLog.open_ os (os.join l.dir name) l.writer)

  -- `session_tag` is the time of the call as `now_tag` writes it.
  unfoldable pub open_ : String → String → ℕ → ℕ → RotatingBinaryLog → Bool × RotatingBinaryLog
  open_ session_tag base_path max_bytes keep_files l =
      let parent = os.parent_path base_path in
      let dir = if parent ≐ "" then "." else parent in
      let ext = os.extension base_path in
      let w = BinaryLog.close l.writer in
      open_new_file (record {
        base_path = base_path;
        dir = dir;
        stem = os.stem base_path;
        ext = if ext ≐ "" then ".bin" else ext;
        max_bytes = max_bytes;
        keep_files = keep_files;
        index = 0;
        bytes_written = 0;
        session_tag = session_tag;
        writer = record w { done = create_directories dir ∷ w.done };
      })

  unfoldable pub rotate_if_needed : ℕ → RotatingBinaryLog → Bool × RotatingBinaryLog
  rotate_if_needed bytes_to_add l =
      if not l.writer.is_open
      then (false, l)
      else if l.max_bytes == 0
      then (true, l)
      else if leb ((l.bytes_written + bytes_to_add) % 2 ^ 64) l.max_bytes
      then (true, l)
      else open_new_file (close l)

  unfoldable pub written : ℕ → RotatingBinaryLog → Bool × BinaryLogWriter → Bool × RotatingBinaryLog
  written bytes_to_add l (ok, w) = (
    ok,
    record l {
      writer = w;
      bytes_written = if ok then (l.bytes_written + bytes_to_add) % 2 ^ 64 else l.bytes_written;
    },
  )

  unfoldable pub after_rotation :
      RecordHeader → List ℕ → ℕ → Bool × RotatingBinaryLog → Bool × RotatingBinaryLog
  unfolding written
  after_rotation h payload n (ok, l) =
      if ok
      then written (record_header_size + n) l (BinaryLog.write_record os h payload n l.writer)
      else (false, l)

  unfoldable pub write_record :
      RecordHeader → List ℕ → ℕ → RotatingBinaryLog → Bool × RotatingBinaryLog
  unfolding after_rotation
  write_record h payload n l =
      after_rotation h payload n (rotate_if_needed (record_header_size + n) l)
