-- ===== src/Decoder/Names.antt =====
-- cpp_gateway/app/decode_gateway_log.cpp: the command line and the names of the output files. A text
-- is a list of its bytes where the program walks it, and a `String` where it compares it whole.
pub mod Laws
use Prim.Native.Char.{code}
use Prim.Native.String.{String}
use text.Mathlib.Text.{◌==◌ as ◌≐◌}
use stm32_board.Base.{
  ℕ, zero, suc, ◌+◌, List, [], ◌∷◌, ◌++◌, Bool, true, false, not, ◌&&◌, ◌||◌, leb, ◌==◌,
  if◌then◌else◌, Option, none, some, length, take, drop, get_or,
}

-- The bytes of an ASCII text.
abbrev pub codes : String → List ℕ
codes String.[] = []
codes (String.◌∷◌ c s) = code c ∷ codes s

abbrev pub is_separator : ℕ → Bool
is_separator c = c == b'/' || c == b'\\'

-- `back()`; of no text, a byte that stands for nothing.
abbrev pub back : List ℕ → ℕ
back [] = 0
back (c ∷ []) = c
back (c ∷ (d ∷ cs)) = back (d ∷ cs)

unfoldable pub path_join : List ℕ → List ℕ → List ℕ
path_join [] file = file
path_join (c ∷ dir) file =
    if not (is_separator (back (c ∷ dir)))
    then ((c ∷ dir) ++ b'/' ∷ []) ++ file
    else (c ∷ dir) ++ file

-- `find_last_of`
abbrev pub find_last_of : (ℕ → Bool) → List ℕ → Option ℕ
find_last_of p [] = none
find_last_of p (c ∷ cs) = elim (find_last_of p cs) [
  | some i ↦ some (suc i)
  | none ↦ if p c then some 0 else none
]

unfoldable pub basename_no_dirs : List ℕ → List ℕ
basename_no_dirs p = elim (find_last_of is_separator p) [ none ↦ p | some pos ↦ drop (suc pos) p ]

unfoldable pub strip_extension : List ℕ → List ℕ
strip_extension filename = elim (find_last_of (λ c. c == b'.') filename) [
  | none ↦ filename
  | some dot ↦ take dot filename
]

abbrev pub isdig : ℕ → Bool
isdig c = leb b'0' c && leb c b'9'

-- `n` digits from the place `i` on.
abbrev pub digits : ℕ → List ℕ → ℕ → Bool
digits zero s i = true
digits (suc n) s i = isdig (get_or s i 0) && digits n s (i + 1)

-- The test of the loop at the beginning of a text.
unfoldable pub stamp_here : List ℕ → Bool
stamp_here s = digits 8 s 0 && get_or s 8 0 == b'_' && digits 6 s 9

-- The loop over the places `i` with 15 bytes from there on.
unfoldable pub extract_yyyymmdd_hhmmss : List ℕ → List ℕ
extract_yyyymmdd_hhmmss [] = []
extract_yyyymmdd_hhmmss (c ∷ cs) =
    let later = extract_yyyymmdd_hhmmss cs in
    if leb 15 (length (c ∷ cs))
    then (if stamp_here (c ∷ cs) then take 15 (c ∷ cs) else later)
    else []

unfoldable pub normalize_prefix : List ℕ → List ℕ
normalize_prefix [] = []
normalize_prefix (c ∷ pfx) =
    let last = back (c ∷ pfx) in
    if not (last == b'_') && not (last == b'-') then (c ∷ pfx) ++ b'_' ∷ [] else c ∷ pfx

-- The names of the three output files: `main` before it opens them.
unfoldable pub stamp : List ℕ → List ℕ
stamp in_path =
    let base = basename_no_dirs in_path in
    elim (extract_yyyymmdd_hhmmss base) [ [] ↦ strip_extension base | ◌∷◌ c cs ↦ c ∷ cs ]

unfoldable pub out_path : List ℕ → List ℕ → List ℕ → List ℕ → List ℕ
out_path out_dir prefix in_path suffix =
    path_join out_dir ((normalize_prefix prefix ++ stamp in_path) ++ suffix)

abbrev pub state_suffix : List ℕ
state_suffix = codes "_state.csv"

abbrev pub cmd_suffix : List ℕ
cmd_suffix = codes "_cmd.csv"

abbrev pub event_suffix : List ℕ
event_suffix = codes "_event.csv"

pub record Args : Type 0 where
  pub in_path : String
  pub out_dir : String
  pub prefix : String

-- `exit(2)` in the middle, `return false`, or the arguments.
pub data Parsed : Type 0 where
  exits : Parsed
  refused : Parsed
  parsed : Args → Parsed

-- The checks behind the loop.
check_args : Args → Parsed
check_args a =
    if a.in_path ≐ ""
    then refused
    else if a.out_dir ≐ ""
    then parsed (record a { out_dir = "." })
    else parsed a

-- An option of one value, by its name.
set_option : String → Option (String → Args → Args)
set_option a =
    if a ≐ "--in"
    then some (λ v args. record args { in_path = v })
    else if a ≐ "--out_dir"
    then some (λ v args. record args { out_dir = v })
    else if a ≐ "--prefix"
    then some (λ v args. record args { prefix = v })
    else none

parse_loop : List String → Args → Parsed
parse_loop [] args = check_args args
parse_loop (a ∷ []) args = elim (set_option a) [ none ↦ refused | some f ↦ exits ]
parse_loop (a ∷ (v ∷ rest)) args = elim (set_option a) [
  | none ↦ refused
  | some f ↦ parse_loop rest (f v args)
]

-- `argv` without the program's name.
unfoldable pub parse_args : List String → Parsed
unfolding parse_loop set_option check_args
parse_args argv = parse_loop argv (record { in_path = ""; out_dir = ""; prefix = "" })
