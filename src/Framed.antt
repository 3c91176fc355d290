-- ===== src/Framed.antt =====
-- cpp_gateway/include/connection/framed.hpp: the frame header and `FrameRx`, the decoder of a byte
-- stream into frames.
pub mod Stream
pub mod Invariant
pub mod RoundTrip
pub mod Session
use stm32_board.Base.{
  ℕ, zero, suc, ◌+◌, ◌-◌, ◌*◌, ◌/◌, List, [], ◌∷◌, ◌++◌, Bool, true, false, not, ◌&&◌, ◌||◌, Option,
  none, some, ltb, leb, ◌==◌, if◌then◌else◌, length, get_or, take, drop,
}

abbrev pub msg_ver : ℕ
msg_ver = 1

abbrev pub msg_state : ℕ
msg_state = 1

abbrev pub msg_cmd : ℕ
msg_cmd = 2

abbrev pub msg_setpoint : ℕ
msg_setpoint = 3

abbrev pub msg_config : ℕ
msg_config = 4

abbrev pub msg_stats_req : ℕ
msg_stats_req = 5

abbrev pub msg_stats_resp : ℕ
msg_stats_resp = 6

pub record MsgHdr : Type 0 where
  pub type_ : ℕ
  pub ver : ℕ
  pub len : ℕ

-- `sizeof(MsgHdr)`
abbrev pub hdr_size : ℕ
hdr_size = 3

unfoldable pub is_known_type : ℕ → Bool
is_known_type t =
    t == msg_state
    || (t == msg_cmd
        || (t == msg_setpoint || (t == msg_config || (t == msg_stats_req || t == msg_stats_resp))))

unfoldable pub make_hdr : ℕ → ℕ → MsgHdr
make_hdr type_ payload_len = record { type_ = type_; ver = msg_ver; len = payload_len }

unfoldable pub hdr_len : MsgHdr → ℕ
hdr_len h = h.len

-- `memcpy` of the packed header, out of and into bytes.
unfoldable pub hdr_bytes : MsgHdr → List ℕ
hdr_bytes h = h.type_ ∷ h.ver ∷ h.len ∷ []

unfoldable pub hdr_at : List ℕ → MsgHdr
hdr_at bytes = record { type_ = get_or bytes 0 0; ver = get_or bytes 1 0; len = get_or bytes 2 0 }

abbrev pub max_payload : ℕ
max_payload = 255

abbrev pub max_buffer_bytes : ℕ
max_buffer_bytes = 65536

abbrev pub compact_threshold : ℕ
compact_threshold = 4096

pub record FrameRx : Type 0 where
  pub buf : List ℕ
  pub read_pos : ℕ

abbrev pub fresh : FrameRx
fresh = record { buf = []; read_pos = 0 }

unfoldable pub clear : FrameRx → FrameRx
clear rx = record { buf = []; read_pos = 0 }

unfoldable pub available_bytes : FrameRx → ℕ
available_bytes rx = if leb rx.read_pos (length rx.buf) then length rx.buf - rx.read_pos else 0

unfoldable pub maybe_compact : FrameRx → FrameRx
unfolding clear
maybe_compact rx =
    if rx.read_pos == length rx.buf
    then clear rx
    else if leb compact_threshold rx.read_pos && ltb (length rx.buf / 2) rx.read_pos
    then record { buf = drop rx.read_pos rx.buf; read_pos = 0 }
    else rx

-- The bytes `data[0..n)` that a call hands over are a list.
unfoldable pub push_bytes : FrameRx → List ℕ → FrameRx
unfolding clear available_bytes
push_bytes rx bytes =
    if length bytes == 0
    then rx
    else if ltb max_buffer_bytes (available_bytes rx + length bytes)
    then append (clear rx) (
        if ltb max_buffer_bytes (length bytes)
        then drop (length bytes - max_buffer_bytes) bytes
        else bytes)
    else append rx bytes
  where
    append : FrameRx → List ℕ → FrameRx
    append r tail = record r { buf = r.buf ++ tail }

-- `++read_pos_; maybe_compact();`
unfoldable pub advance : FrameRx → ℕ → FrameRx
unfolding maybe_compact
advance rx n = maybe_compact (record rx { read_pos = rx.read_pos + n })

-- The types that must have a payload.
unfoldable pub needs_payload : ℕ → Bool
needs_payload t = t == msg_cmd || (t == msg_setpoint || (t == msg_config || t == msg_stats_resp))

pub record Frame : Type 0 where
  pub type_ : ℕ
  pub payload : List ℕ

-- `pop`, after the header has been read. `none` is the result `false`, which leaves the output
-- arguments alone.
unfoldable pub pop_frame : FrameRx → MsgHdr → Option Frame × FrameRx
unfolding hdr_len
pop_frame rx h =
    if not (h.ver == msg_ver) || not (is_known_type h.type_)
    then (none, advance rx 1)
    else if ltb max_payload (hdr_len h)
    then (none, advance rx 1)
    else if hdr_len h == 0 && needs_payload h.type_
    then (none, advance rx 1)
    else if ltb (available_bytes rx) (hdr_size + hdr_len h)
    then (none, rx)
    else (
      some (record {
        type_ = h.type_;
        payload = take (hdr_len h) (drop (rx.read_pos + hdr_size) rx.buf);
      }),
      advance rx (hdr_size + hdr_len h),
    )

unfoldable pub pop : FrameRx → Option Frame × FrameRx
pop rx =
    if ltb (available_bytes rx) hdr_size
    then (none, rx)
    else pop_frame rx (hdr_at (drop rx.read_pos rx.buf))

-- The loop `while (cmd_frx.pop(type, payload))` of the TCP worker, with the frames in the order in
-- which its body is given them. Every frame takes three bytes at least, so the fuel `receive` gives
-- is enough.
unfoldable pub pop_all : ℕ → FrameRx → List Frame × FrameRx
pop_all zero rx = ([], rx)
pop_all (suc fuel) rx =
    let (r, rx') = pop rx in
    elim r [ none ↦ ([], rx') | some f ↦ let (fs, rx'') = pop_all fuel rx' in (f ∷ fs, rx'') ]

-- One `push_bytes(buf, n)` and the loop behind it.
unfoldable pub receive : FrameRx → List ℕ → List Frame × FrameRx
receive rx bytes = let rx' = push_bytes rx bytes in pop_all (suc (available_bytes rx')) rx'

-- The loop over what successive calls of `try_recv` return: all the frames, in order.
unfoldable pub receive_all : FrameRx → List (List ℕ) → List Frame × FrameRx
receive_all rx [] = ([], rx)
receive_all rx (bytes ∷ more) =
    let (fs, rx') = receive rx bytes in let (gs, rx'') = receive_all rx' more in (fs ++ gs, rx'')
