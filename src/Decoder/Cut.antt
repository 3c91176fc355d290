-- ===== src/Decoder/Cut.antt =====
-- A log file that ends inside a record, and the fuel of the decoder.
use stm32_board.Base.{
  ℕ, zero, suc, ◌+◌, ◌-◌, ◌≤◌, ◌<◌, ◌≡◌, refl, ap, ◌∙◌, List, [], ◌∷◌, ◌++◌, All, true, ltb, ◌==◌,
  ==_iff, Bool-cases, inl, inr, some, length, take, drop, length-append, length-take, length-drop,
  append_assoc, arith,
}
use stm32_board.Wire.{write_u16_le, write_u32_le}
use stm32_board.BinaryLog.{file_header, file_header_bytes, record_header_bytes, record_header_at}
use stm32_board.BinaryLog.Contents.{
  LoggedRecord, record_bytes, records_bytes, file_bytes, length-record_header_bytes,
}
use stm32_board.Decoder.{Decoded, nothing, decode_record, read_exact, decode_loop, decode_log}
use stm32_board.Decoder.Contents.{
  stored, InRange, decode_all, decode_loop-records, take-append_more, no_header, no_payload,
}

-- A record that is cut off leaves no trace.
cut_record :
    (fuel k : ℕ) (r : LoggedRecord) (d : Decoded)
    → InRange r
    → k < length (record_bytes r)
    → decode_loop fuel (take k (record_bytes r)) d ≡ d
cut_record fuel k r d h lt = elim (Bool-cases (ltb k 20)) [
  | inl c ↦
      no_header fuel (take k (record_bytes r)) d (ground (arith, length-take k (record_bytes r)))
  | inr c ↦
      ap (λ bytes. decode_loop fuel bytes d)
        (ap (λ n. take n (record_bytes r)) (split (ground arith))
          ∙ take-append_more (record_header_bytes (stored r)) r.payload (k - 20))
      ∙ no_payload fuel r (k - 20) d h (
          ground (
            arith,
            length-append (record_header_bytes (stored r)) r.payload,
            length-record_header_bytes (stored r),
          ))
]
  where
    split : 20 ≤ k → k ≡ length (record_header_bytes (stored r)) + (k - 20)
    split le = omega (arith, length-record_header_bytes (stored r))

length-records_bytes : (rs : List LoggedRecord) → length rs ≤ length (records_bytes rs)
length-records_bytes [] = omega arith
length-records_bytes (r ∷ rs) = omega (
  arith,
  length-records_bytes rs,
  length-append (record_bytes r) (records_bytes rs),
  length-append (record_header_bytes (stored r)) r.payload,
  length-record_header_bytes (stored r),
)

-- A whole file header is skipped.
decode_log-header :
    (input : List ℕ)
    → decode_log (some (file_header_bytes file_header ++ input)) true
      ≡ some (decode_loop (suc (length (file_header_bytes file_header ++ input))) input nothing)
unfolding decode_log read_exact file_header_bytes write_u32_le write_u16_le
decode_log-header input = refl

fuel_enough :
    (rs : List LoggedRecord) (tail : List ℕ)
    → let fuel = suc (length (file_header_bytes file_header ++ (records_bytes rs ++ tail))) in
      fuel ≡ length rs + (fuel - length rs)
fuel_enough rs tail = omega (
  arith,
  length-records_bytes rs,
  length-append (records_bytes rs) tail,
  length-append (file_header_bytes file_header) (records_bytes rs ++ tail),
)

-- The decoder finds exactly the records that a file holds whole, in order, wherever the file is cut
-- inside the next record, if the fields of the headers are in range.
pub decode_log-cut :
    (rs : List LoggedRecord) (r : LoggedRecord) (k : ℕ)
    → All InRange rs
    → InRange r
    → k < length (record_bytes r)
    → decode_log (some (file_bytes rs ++ take k (record_bytes r))) true
      ≡ some (decode_all rs nothing)
decode_log-cut rs r k hs h lt =
    let tail = take k (record_bytes r) in
    let body = records_bytes rs ++ tail in
    let fuel = suc (length (file_header_bytes file_header ++ body)) in
    ap (λ bytes. decode_log (some bytes) true)
      (append_assoc (file_header_bytes file_header) (records_bytes rs) tail)
    ∙ decode_log-header body
    ∙ ap some (
        ap (λ n. decode_loop n body nothing) (fuel_enough rs tail)
        ∙ decode_loop-records rs (fuel - length rs) tail nothing hs
        ∙ cut_record (fuel - length rs) k r (decode_all rs nothing) h lt)

-- Fuel beyond the number of bytes changes nothing: the loop ends by itself.
pub decode_loop_enough :
    (fuel fuel' : ℕ) (input : List ℕ) (d : Decoded)
    → length input < fuel
    → length input < fuel'
    → decode_loop fuel input d ≡ decode_loop fuel' input d
unfolding decode_loop read_exact
decode_loop_enough zero fuel' input d h h' = absurd (omega arith)
decode_loop_enough (suc fuel) zero input d h h' = absurd (omega arith)
decode_loop_enough (suc fuel) (suc fuel') input d h h' =
    elim (Bool-cases (length (take 20 input) == 20)) [
      | inl e ↦
          let rh = record_header_at (take 20 input) in
          let input' = drop 20 input in
          let input'' = drop rh.payload_len input' in
          rw
            (
              e,
              decode_loop_enough fuel fuel' input''
                  (decode_record rh (take rh.payload_len input') d)
                  (shorter rh.payload_len fuel e h) (shorter rh.payload_len fuel' e h'),
            )
            refl
      | inr e ↦ simp e
    ]
  where
    shorter :
        (n fuel : ℕ)
        → (length (take 20 input) == 20) ≡ true
        → length input < suc fuel
        → length (drop n (drop 20 input)) < fuel
    shorter n fuel e lt = omega (
      arith,
      (==_iff (length (take 20 input)) 20).0 e,
      length-take 20 input,
      length-drop 20 input,
      length-drop n (drop 20 input),
    )
