-- ===== src/Numbers.antt =====
-- Numbers on a command line: what the client and the gateway take from the standard library.
use Prim.Native.Char.{code}
use Prim.Native.String.{String}
use stm32_board.Base.{ℕ, Bool, false, ◌&&◌, ◌||◌, ◌==◌, Option}
use stm32_board.Base.Int.{ℤ}

-- The parsers of the library: `sscanf` with "%x" and "%u", which may find no number, and `stoi`, `stod`
-- and `stof`, which throw if there is none.
pub record Numbers : Type 0 where
  pub scan_hex : String → Option ℕ
  pub scan_dec : String → Option ℕ
  pub stoi : String → Option ℤ
  pub stod : String → Option ℕ
  pub stof : String → Option ℕ

-- `s.size() >= 2 && s[0] == '0' && (s[1] == 'x' || s[1] == 'X')`
unfoldable pub starts_0x : String → Bool
starts_0x String.[] = false
starts_0x (String.◌∷◌ a String.[]) = false
starts_0x (String.◌∷◌ a (String.◌∷◌ b s)) = code a == b'0' && (code b == b'x' || code b == b'X')
