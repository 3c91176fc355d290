-- ===== src/Decoder/Contents.antt =====
-- What the decoder finds in a file that the log's writer wrote.
use stm32_board.Base.{
  ℕ, zero, suc, ◌+◌, ◌<◌, ◌≡◌, refl, sym, ap, ◌∙◌, List, [], ◌∷◌, ◌++◌, All, Bool, true, false, not,
  ◌&&◌, ltb, ◌==◌, ==_refl, if◌then◌else◌, length, take, drop, length-take, take-append,
  drop-append_self, append_assoc, arith, suc_add,
}
use stm32_board.Core.{IsU16}
use stm32_board.Wire.{write_u16_le, write_u32_le}
use stm32_board.Wire.Words.{read_u16_le-write_u16_le}
use stm32_board.BinaryLog.{RecordHeader, record_header_bytes, record_header_at, write_f64}
use stm32_board.BinaryLog.Samples.{IsU64}
use stm32_board.BinaryLog.SampleBytes.{read_f64-write_f64}
use stm32_board.BinaryLog.Contents.{LoggedRecord, record_bytes, records_bytes}
use stm32_board.Decoder.{Decoded, decode_record, read_exact, decode_loop}

pub record HeaderInRange (h : RecordHeader) : Type 0 where
  pub payload_len : IsU16 h.payload_len
  pub epoch_s : IsU64 h.epoch_s
  pub mono_s : IsU64 h.mono_s

-- The header that is stored with a record.
abbrev pub stored : LoggedRecord → RecordHeader
stored r = record r.header { payload_len = length r.payload }

abbrev pub InRange : LoggedRecord → Type 0
InRange r = HeaderInRange (stored r)

record_header_at-bytes :
    (h : RecordHeader) → HeaderInRange h → record_header_at (record_header_bytes h) ≡ h
unfolding record_header_at record_header_bytes write_u16_le write_f64 write_u32_le
record_header_at-bytes h r =
    let bytes = record_header_bytes h in
    (λ i. record {
      type_ = h.type_;
      reserved0 = h.reserved0;
      payload_len = read_u16_le-write_u16_le h.payload_len (drop 4 bytes) r.payload_len i;
      epoch_s = read_f64-write_f64 h.epoch_s (drop 12 bytes) r.epoch_s i;
      mono_s = read_f64-write_f64 h.mono_s (drop 20 bytes) r.mono_s i;
    })

-- One turn of the loop behind a header.
abbrev after_header : ℕ → RecordHeader → List ℕ → Decoded → Decoded
after_header fuel rh input d =
    let (complete, payload, input') = read_exact input rh.payload_len in
    let all = decode_loop fuel input' (decode_record rh payload d) in
    if ltb 0 rh.payload_len && not complete then d else all

pub decode_loop-header :
    (fuel : ℕ) (h : RecordHeader) (input : List ℕ) (d : Decoded)
    → HeaderInRange h
    → decode_loop (suc fuel) (record_header_bytes h ++ input) d ≡ after_header fuel h input d
unfolding decode_loop read_exact record_header_bytes write_u16_le write_f64 write_u32_le
decode_loop-header fuel h input d r =
    ap (λ rh. after_header fuel rh input d) (record_header_at-bytes h r)

and_false : (b : Bool) → (b && false) ≡ false
and_false true = refl
and_false false = refl

after_header-whole :
    (fuel : ℕ) (h : RecordHeader) (payload input : List ℕ) (d : Decoded)
    → h.payload_len ≡ length payload
    → after_header fuel h (payload ++ input) d ≡ decode_loop fuel input (decode_record h payload d)
unfolding read_exact
after_header-whole fuel h payload input d e =
    simp (e, take-append, drop-append_self, ==_refl, and_false)

decode_loop-record :
    (fuel : ℕ) (r : LoggedRecord) (input : List ℕ) (d : Decoded)
    → InRange r
    → decode_loop (suc fuel) (record_bytes r ++ input) d
      ≡ decode_loop fuel input (decode_record (stored r) r.payload d)
decode_loop-record fuel r input d h =
    ap (λ bytes. decode_loop (suc fuel) bytes d)
      (append_assoc (record_header_bytes (stored r)) r.payload input)
    ∙ decode_loop-header fuel (stored r) (r.payload ++ input) d h
    ∙ after_header-whole fuel (stored r) r.payload input d refl

-- The records of a file in turn.
unfoldable pub decode_all : List LoggedRecord → Decoded → Decoded
decode_all [] d = d
decode_all (r ∷ rs) d = decode_all rs (decode_record (stored r) r.payload d)

pub decode_loop-records :
    (rs : List LoggedRecord) (more : ℕ) (input : List ℕ) (d : Decoded)
    → All InRange rs
    → decode_loop (length rs + more) (records_bytes rs ++ input) d
      ≡ decode_loop more input (decode_all rs d)
unfolding decode_all
decode_loop-records [] more input d h = ap (λ fuel. decode_loop fuel input d) (omega arith)
decode_loop-records (r ∷ rs) more input d (h, hs) =
    ap (λ bytes. decode_loop (length (r ∷ rs) + more) bytes d)
      (append_assoc (record_bytes r) (records_bytes rs) input)
    ∙ ap (λ fuel. decode_loop fuel (record_bytes r ++ (records_bytes rs ++ input)) d)
        (sym (suc_add (length rs) more))
    ∙ decode_loop-record (length rs + more) r (records_bytes rs ++ input) d h
    ∙ decode_loop-records rs more input (decode_record (stored r) r.payload d) hs

-- A record that is cut off.
pub take-append_more : (xs ys : List ℕ) (j : ℕ) → take (length xs + j) (xs ++ ys) ≡ xs ++ take j ys
take-append_more [] ys j = ap (λ n. take n ys) (zero_add j)
  where
    zero_add : (n : ℕ) → 0 + n ≡ n
    zero_add n = omega arith
take-append_more (x ∷ xs) ys j =
    ap (λ n. take n (x ∷ (xs ++ ys))) (sym (suc_add (length xs) j))
    ∙ ap (◌∷◌ x) (take-append_more xs ys j)

short_read : (n : ℕ) (input : List ℕ) → length input < n → (length (take n input) == n) ≡ false
short_read n input h = ground (arith, length-take n input)

pub no_header :
    (fuel : ℕ) (input : List ℕ) (d : Decoded) → length input < 20 → decode_loop fuel input d ≡ d
unfolding decode_loop read_exact
no_header zero input d h = refl
no_header (suc fuel) input d h = simp (short_read 20 input h)

pub no_payload :
    (fuel : ℕ) (r : LoggedRecord) (j : ℕ) (d : Decoded)
    → InRange r
    → j < length r.payload
    → decode_loop fuel (record_header_bytes (stored r) ++ take j r.payload) d ≡ d
unfolding decode_loop read_exact
no_payload zero r j d h lt = refl
no_payload (suc fuel) r j d h lt =
    decode_loop-header fuel (stored r) (take j r.payload) d h
    ∙ simp (
      short_read (length r.payload) (take j r.payload) (omega (arith, length-take j r.payload)),
      positive,
    )
  where
    positive : ltb 0 (length r.payload) ≡ true
    positive = ground (arith, lt)
