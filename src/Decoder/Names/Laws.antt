-- ===== src/Decoder/Names/Laws.antt =====
-- What the names of the output files keep of the name of the input.
use stm32_board.Base.{
  ℕ, suc, ◌≤◌, ◌<◌, ◌≡◌, ◌⊎◌, inl, inr, refl, sym, ap, ◌∙◌, List, [], ◌∷◌, ◌++◌, All, Bool, true,
  false, leb, ◌==◌, Bool-cases, none, some, length, take, drop, take-append, append_assoc,
  length-append, arith,
}
use stm32_board.Decoder.Names.{
  is_separator, back, path_join, find_last_of, basename_no_dirs, strip_extension, stamp_here,
  extract_yyyymmdd_hhmmss,
}

-- No byte of the text passes the test.
abbrev pub Free : (ℕ → Bool) → List ℕ → Type 0
Free p cs = All (λ c. p c ≡ false) cs

find_last_of-Free : (p : ℕ → Bool) (cs : List ℕ) → Free p cs → find_last_of p cs ≡ none
find_last_of-Free p [] h = refl
find_last_of-Free p (c ∷ cs) (h, hs) = rw (find_last_of-Free p cs hs, h) refl

find_last_of-append :
    (p : ℕ → Bool) (xs : List ℕ) (c : ℕ) (ys : List ℕ)
    → p c ≡ true
    → Free p ys
    → find_last_of p (xs ++ c ∷ ys) ≡ some (length xs)
find_last_of-append p [] c ys h free = rw (find_last_of-Free p ys free, h) refl
find_last_of-append p (x ∷ xs) c ys h free = rw (find_last_of-append p xs c ys h free) refl

basename-append :
    (dir : List ℕ) (c : ℕ) (file : List ℕ)
    → is_separator c ≡ true
    → Free is_separator file
    → basename_no_dirs (dir ++ c ∷ file) ≡ file
unfolding basename_no_dirs
basename-append dir c file h free =
    rw (find_last_of-append is_separator dir c file h free, basename_no_dirs) (drop_one dir)
  where
    drop_one : (dir : List ℕ) → drop (suc (length dir)) (dir ++ c ∷ file) ≡ file
    drop_one [] = refl
    drop_one (d ∷ dir) = drop_one dir

-- A text that is not empty: its beginning and its last byte.
ends_back : (c : ℕ) (cs : List ℕ) → (front : List ℕ) × (c ∷ cs ≡ front ++ back (c ∷ cs) ∷ [])
ends_back c [] = ([], refl)
ends_back c (d ∷ cs) = let (front, e) = ends_back d cs in (c ∷ front, ap (◌∷◌ c) e)

-- The base name of a file joined to a directory is the file.
pub basename_no_dirs-path_join :
    (dir file : List ℕ) → Free is_separator file → basename_no_dirs (path_join dir file) ≡ file
unfolding basename_no_dirs path_join
basename_no_dirs-path_join [] file free =
    rw (find_last_of-Free is_separator file free, basename_no_dirs) refl
basename_no_dirs-path_join (c ∷ dir) file free = elim (Bool-cases (is_separator (back (c ∷ dir)))) [
  | inl e ↦
      let (front, split) = ends_back c dir in
      rw e (
        ap (λ d. basename_no_dirs (d ++ file)) split
        ∙ ap basename_no_dirs (append_assoc front (back (c ∷ dir) ∷ []) file)
        ∙ basename-append front (back (c ∷ dir)) file e free)
  | inr e ↦ rw e (
      ap basename_no_dirs (append_assoc (c ∷ dir) (b'/' ∷ []) file)
      ∙ basename-append (c ∷ dir) b'/' file refl free)
]

pub strip_extension-append :
    (name ext : List ℕ) → Free (λ c. c == b'.') ext → strip_extension (name ++ b'.' ∷ ext) ≡ name
unfolding strip_extension
strip_extension-append name ext free =
    rw (find_last_of-append (λ c. c == b'.') name b'.' ext refl free, strip_extension)
      (take-append name (b'.' ∷ ext))

-- What the search for a stamp returns: the first 15 bytes of a suffix that has one, or nothing if no
-- suffix has one.
abbrev pub Extracted : List ℕ → List ℕ → Type 0
Extracted s found =
    ((front : List ℕ) × (tail : List ℕ) × (s ≡ front ++ tail)
      × (15 ≤ length tail)
      × (stamp_here tail ≡ true)
      × (found ≡ take 15 tail))
    ⊎ ((found ≡ [])
        × ((front tail : List ℕ) → s ≡ front ++ tail → 15 ≤ length tail → stamp_here tail ≡ false))

too_short : (s front tail : List ℕ) → s ≡ front ++ tail → length s < 15 → 15 ≤ length tail → ⊥
too_short s front tail e lt le = omega (arith, ap length e, length-append front tail)

one_before :
    (c : ℕ) (cs found : List ℕ)
    → stamp_here (c ∷ cs) ≡ false
    → Extracted cs found
    → Extracted (c ∷ cs) found
one_before c cs found e (inl (front, tail, split, long, here, what)) =
    inl (c ∷ front, tail, ap (◌∷◌ c) split, long, here, what)
one_before c cs found e (inr (what, none_here)) = inr (what, λ front tail. go front tail)
  where
    go : (front tail : List ℕ) → c ∷ cs ≡ front ++ tail → 15 ≤ length tail → stamp_here tail ≡ false
    go [] tail split long = ap stamp_here (sym split) ∙ e
    go (x ∷ front) tail split long = none_here front tail (ap (drop 1) split) long

-- The search finds a stamp exactly if there is one.
pub extract-Extracted : (s : List ℕ) → Extracted s (extract_yyyymmdd_hhmmss s)
unfolding extract_yyyymmdd_hhmmss
extract-Extracted [] =
    inr (refl, λ front tail split long. absurd (too_short [] front tail split (omega arith) long))
extract-Extracted (c ∷ cs) = elim (Bool-cases (leb 15 (length (c ∷ cs)))) [
  | inl e ↦ elim (Bool-cases (stamp_here (c ∷ cs))) [
    | inl f ↦ rw (e, f) (inl ([], c ∷ cs, refl, ground arith, f, refl))
    | inr f ↦ rw (e, f) (one_before c cs _ f (extract-Extracted cs))
  ]
  | inr e ↦ rw e (
      inr (
        refl,
        λ front tail split long. absurd (too_short (c ∷ cs) front tail split (ground arith) long),
      ))
]
