-- ===== src/BinaryLog.antt =====
-- cpp_gateway/include/utils/binary_log.hpp and cpp_gateway/src/utils/binary_log.cpp: the format of the
-- log and the writer of one file.
-- What the writer asks of the system is a list of actions, the newest first. Whether a file opens, and
-- whether the stream is still good, are functions of this list.
pub mod Rotating
pub mod Bounds
pub mod Unremoved
pub mod Contents
pub mod Kept
pub mod Cleanup
pub mod Samples
pub mod SampleBytes
use Prim.Native.String.{String}
use stm32_board.Base.{
  ℕ, zero, suc, ◌+◌, ◌*◌, ◌/◌, ◌%◌, ◌^◌, List, [], ◌∷◌, ◌++◌, Bool, true, false, ◌==◌, ltb,
  if◌then◌else◌, length, drop, get_or,
}
use stm32_board.Wire.{shl, shr, write_u16_le, write_u32_le, read_u16_le, read_u32_le}

-- `RecordType` is a byte; a file may hold other bytes than these.
abbrev pub state_record : ℕ
state_record = 1

abbrev pub cmd_record : ℕ
cmd_record = 2

abbrev pub event_record : ℕ
event_record = 3

pub record FileHeader : Type 0 where
  pub magic : ℕ
  pub ver : ℕ
  pub reserved : ℕ

abbrev pub file_header : FileHeader
file_header = record { magic = 0x47574C42; ver = 1; reserved = 0 }

pub record RecordHeader : Type 0 where
  pub type_ : ℕ
  pub reserved0 : ℕ
  pub payload_len : ℕ
  pub epoch_s : ℕ
  pub mono_s : ℕ

-- `RecordHeader{}`
abbrev pub blank_record : RecordHeader
blank_record = record {
  type_ = state_record;
  reserved0 = 0;
  payload_len = 0;
  epoch_s = 0;
  mono_s = 0;
}

abbrev pub file_header_size : ℕ
file_header_size = 8

abbrev pub record_header_size : ℕ
record_header_size = 20

-- The bytes of a double in memory, and the double at the beginning of some bytes.
unfoldable pub write_f64 : ℕ → List ℕ
write_f64 v = write_u32_le (v % 2 ^ 32) ++ write_u32_le (shr v 32)

unfoldable pub read_f64 : List ℕ → ℕ
read_f64 bytes = read_u32_le bytes + shl (read_u32_le (drop 4 bytes)) 32

-- The bytes of the packed structs in memory, on a little-endian machine.
unfoldable pub file_header_bytes : FileHeader → List ℕ
file_header_bytes h = write_u32_le h.magic ++ (write_u16_le h.ver ++ write_u16_le h.reserved)

unfoldable pub record_header_bytes : RecordHeader → List ℕ
record_header_bytes h =
    h.type_
    ∷ h.reserved0
    ∷ (write_u16_le h.payload_len ++ (write_f64 h.epoch_s ++ write_f64 h.mono_s))

-- The structs that a reader copies from bytes.
unfoldable pub file_header_at : List ℕ → FileHeader
file_header_at bytes = record {
  magic = read_u32_le bytes;
  ver = read_u16_le (drop 4 bytes);
  reserved = read_u16_le (drop 6 bytes);
}

unfoldable pub record_header_at : List ℕ → RecordHeader
record_header_at bytes = record {
  type_ = get_or bytes 0 0;
  reserved0 = get_or bytes 1 0;
  payload_len = read_u16_le (drop 2 bytes);
  epoch_s = read_f64 (drop 4 bytes);
  mono_s = read_f64 (drop 12 bytes);
}

pub data Action : Type 0 where
  create_directories opens removes : String → Action
  writes : List ℕ → Action
  closes : Action

pub record DirectoryEntry : Type 0 where
  pub is_regular_file : Bool
  pub path : String
  pub filename : String
  pub extension : String
  pub last_write_time : ℕ

-- The file system and the library's functions on paths. `listing` is what iterates over a directory up
-- to its end or an error; `sort_by_time` is `std::sort` by `last_write_time`.
pub record Os : Type 0 where
  pub can_open : List Action → Bool
  pub good : List Action → Bool
  pub listing : List Action → String → List DirectoryEntry
  pub sort_by_time : List DirectoryEntry → List DirectoryEntry
  pub has_parent_path : String → Bool
  pub parent_path : String → String
  pub stem : String → String
  pub extension : String → String
  pub join : String → String → String
  pub to_string : ℕ → String

-- `BinaryLogWriter`
pub record BinaryLogWriter : Type 0 where
  pub is_open : Bool
  pub done : List Action

unfoldable pub close : BinaryLogWriter → BinaryLogWriter
close w = if w.is_open then record { is_open = false; done = closes ∷ w.done } else w

module _ (os : Os) where
  make_parent : String → List Action → List Action
  make_parent path done =
      if os.has_parent_path path then create_directories (os.parent_path path) ∷ done else done

  unfoldable pub open_ : String → BinaryLogWriter → Bool × BinaryLogWriter
  unfolding make_parent
  open_ path w =
      let done = opens path ∷ make_parent path (close w).done in
      let headed = writes (file_header_bytes file_header) ∷ done in
      if os.can_open done
      then (os.good headed, record { is_open = true; done = headed })
      else (false, record { is_open = false; done = done })

  -- `payload` is the `n` bytes that the pointer has.
  unfoldable pub write_record : RecordHeader → List ℕ → ℕ → BinaryLogWriter → Bool × BinaryLogWriter
  write_record h payload n w =
      let headed = writes (record_header_bytes (record h { payload_len = n })) ∷ w.done in
      let full = if ltb 0 n then writes payload ∷ headed else headed in
      if w.is_open then (os.good full, record w { done = full }) else (false, w)
