-- ===== src/Csv/Columns.antt =====
-- A value goes to the column of its name.
use Prim.Native.String.{String, ◌++◌ as ◌<>◌}
use text.Mathlib.Text.{◌==◌ as ◌≐◌}
use text.Mathlib.TextEquality.{eq_iff}
use stm32_board.Base.{
  ℕ, zero, suc, ◌<◌, ◌≡◌, ◌≢◌, refl, sym, ap, ◌∙◌, List, [], ◌∷◌, Bool, Bool-cases, true, false,
  if◌then◌else◌, Option-cases, none, some, inl, inr, set, get_or, length, length-set,
  get_or-set_self, get_or-set_ne, arith,
}
use stm32_board.Core.{Timestamps, States}
use stm32_board.Csv.{
  CsvRow, CsvRecorder, Format, header_index, place, state_header, comma_separated, write_row,
  state_to_row, record_state,
}

-- The value that a row gives a name: the last one, or `d` if there is none.
abbrev pub last_value : CsvRow → String → String → String
last_value [] name d = d
last_value ((key, value) ∷ row) name d = last_value row name (if key ≐ name then value else d)

-- The place of a name holds this name.
header_index-get :
    (header : List String) (key : String) (i : ℕ)
    → header_index header key ≡ some i
    → (i < length header) × (get_or header i "" ≡ key)
unfolding header_index
header_index-get [] key i e = ground (arith, e)
header_index-get (name ∷ names) key i e = elim (Bool-cases (name ≐ key)) [
  | inl b ↦ first i (simp b at e) ((eq_iff name key).0 b)
  | inr b ↦ elim (Option-cases (header_index names key)) [
    | inl n ↦ ground (arith, simp (b, n) at e)
    | inr (j, f) ↦ later i j (simp (b, f) at e) (header_index-get names key j f)
  ]
]
  where
    first :
        (i : ℕ)
        → some 0 ≡ some i
        → name ≡ key
        → (i < suc (length names)) × (get_or (name ∷ names) i "" ≡ key)
    first zero q same = (omega arith, same)
    first (suc i) q same = ground (arith, q)

    moved : (i j : ℕ) → some (suc j) ≡ some (suc i) → i ≡ j
    moved i j q = ground (arith, q)

    later :
        (i j : ℕ)
        → some (suc j) ≡ some i
        → (j < length names) × (get_or names j "" ≡ key)
        → (i < suc (length names)) × (get_or (name ∷ names) i "" ≡ key)
    later zero j q (lt, same) = ground (arith, q)
    later (suc i) j q (lt, same) =
        (omega (arith, moved i j q), ap (λ k. get_or names k "") (moved i j q) ∙ same)

found_nothing : {i : ℕ} → none ≡ some i → ⊥
found_nothing e = ground (arith, e)

some_injective : {i j : ℕ} → some i ≡ some j → i ≡ j
some_injective e = ground (arith, e)

contradicts : true ≡ false → ⊥
contradicts e = ground (arith, e)

-- What one pair does to the column of a name.
one_pair :
    (header : List String) (key value name : String) (i : ℕ) (values : List String)
    → header_index header name ≡ some i
    → length values ≡ length header
    → (get_or (elim (header_index header key) [ none ↦ values | some j ↦ set values j value ]) i ""
        ≡ (if key ≐ name then value else get_or values i ""))
      × (length (elim (header_index header key) [ none ↦ values | some j ↦ set values j value ])
          ≡ length header)
one_pair header key value name i values e size = elim (Option-cases (header_index header key)) [
  | inl n ↦ rw n (sym (absent n), size)
  | inr (j, f) ↦ rw f (found j f, length-set values j value ∙ size)
]
  where
    here : (i < length header) × (get_or header i "" ≡ name)
    here = header_index-get header name i e

    absent :
        header_index header key ≡ none
        → (if key ≐ name then value else get_or values i "") ≡ get_or values i ""
    absent n = elim (Bool-cases (key ≐ name)) [
      | inl b ↦
          absurd (found_nothing (sym n ∙ ap (header_index header) ((eq_iff key name).0 b) ∙ e))
      | inr b ↦ rw b refl
    ]

    same_place : (j : ℕ) → header_index header key ≡ some j → (key ≐ name) ≡ true → j ≡ i
    same_place j f b = some_injective (sym f ∙ ap (header_index header) ((eq_iff key name).0 b) ∙ e)

    other_place : (j : ℕ) → header_index header key ≡ some j → (key ≐ name) ≡ false → j ≢ i
    other_place j f b = λ q. contradicts (
        sym (
          (eq_iff key name).1
            (sym (header_index-get header key j f).1 ∙ ap (λ k. get_or header k "") q ∙ here.1))
        ∙ b)

    found :
        (j : ℕ)
        → header_index header key ≡ some j
        → get_or (set values j value) i "" ≡ (if key ≐ name then value else get_or values i "")
    found j f = elim (Bool-cases (key ≐ name)) [
      | inl b ↦
          rw (b, same_place j f b) (get_or-set_self values i value "" (omega (arith, here.0, size)))
      | inr b ↦ rw b (get_or-set_ne values value "" (other_place j f b))
    ]

-- With as many values as columns, the value in the column of a name is the last one that the row has for this name, whatever the order
-- of the row and whatever other names it has; without one, the column keeps its value.
pub place-column :
    (header : List String) (row : CsvRow) (name : String) (i : ℕ) (values : List String)
    → header_index header name ≡ some i
    → length values ≡ length header
    → get_or (place header row values) i "" ≡ last_value row name (get_or values i "")
unfolding place
place-column header [] name i values e size = refl
place-column header ((key, value) ∷ row) name i values e size =
    let (column, size') = one_pair header key value name i values e size in
    place-column header row name i _ e size' ∙ ap (last_value row name) column

-- An open recorder of states writes one line, with the 18 values in the order of its header, whatever
-- the texts of the numbers.
pub record_state_line :
    (fmt : Format) (good header_written : Bool) (file : String) (ts : Timestamps) (st : States)
    → let r : CsvRecorder = record {
      header = state_header;
      is_open = true;
      header_written = header_written;
      file = file;
    } in
      let values =
        fmt.double ts.epoch_s
        ∷ fmt.double ts.mono_s
        ∷ fmt.float st.imu.acc.x
        ∷ fmt.float st.imu.acc.y
        ∷ fmt.float st.imu.acc.z
        ∷ fmt.float st.imu.gyro.x
        ∷ fmt.float st.imu.gyro.y
        ∷ fmt.float st.imu.gyro.z
        ∷ fmt.float st.imu.mag.x
        ∷ fmt.float st.imu.mag.y
        ∷ fmt.float st.imu.mag.z
        ∷ fmt.float st.ang.roll
        ∷ fmt.float st.ang.pitch
        ∷ fmt.float st.ang.yaw
        ∷ fmt.int st.enc.e1
        ∷ fmt.int st.enc.e2
        ∷ fmt.int st.enc.e3
        ∷ fmt.int st.enc.e4
        ∷ [] in
      record_state fmt good ts st r
      ≡ (good, record r { file = file <> (comma_separated values <> "\n") })
unfolding record_state write_row state_to_row place header_index
record_state_line fmt good header_written file ts st = refl
