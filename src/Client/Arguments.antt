-- ===== src/Client/Arguments.antt =====
-- cpp_gateway/app/tcp_client.cpp: `parse_u8`, `parse_u16`, `parse_u32` and `parse_config`.
use Prim.Native.String.{String}
use text.Mathlib.Text.{◌==◌ as ◌≐◌}
use stm32_board.Base.{
  ℕ, zero, List, [], ◌∷◌, Bool, true, false, leb, if◌then◌else◌, Option, none, some,
}
use stm32_board.Base.Int.{ℤ, pos, to_unsigned}
use stm32_board.Numbers.{Numbers, starts_0x}
use stm32_board.Client.{ClientConfig, default_client}

-- `v <= limit` behind a scan.
unfoldable pub within : ℕ → Option ℕ → Option ℕ
within limit none = none
within limit (some v) = if leb v limit then some v else none

-- The options that take a value.
pub data Name : Type 0 where
  server_ip_option state_port_option cmd_port_option print_hz_option cmd_hz_option m1_option
        m2_option m3_option m4_option beep_ms_option flags_option setpoint_hz_option sp0_option
        sp1_option sp2_option sp3_option sp_flags_option send_config_option cfg_key_option
        cfg_u8_option cfg_u16_option cfg_u32_option :
      Name

-- `--help` and unknown words are none.
unfoldable pub find_option : String → Option Name
find_option a =
    if a ≐ "--server_ip"
    then some server_ip_option
    else if a ≐ "--state_port"
    then some state_port_option
    else if a ≐ "--cmd_port"
    then some cmd_port_option
    else if a ≐ "--print_hz"
    then some print_hz_option
    else if a ≐ "--cmd_hz"
    then some cmd_hz_option
    else if a ≐ "--m1"
    then some m1_option
    else if a ≐ "--m2"
    then some m2_option
    else if a ≐ "--m3"
    then some m3_option
    else if a ≐ "--m4"
    then some m4_option
    else if a ≐ "--beep_ms"
    then some beep_ms_option
    else if a ≐ "--flags"
    then some flags_option
    else if a ≐ "--setpoint_hz"
    then some setpoint_hz_option
    else if a ≐ "--sp0"
    then some sp0_option
    else if a ≐ "--sp1"
    then some sp1_option
    else if a ≐ "--sp2"
    then some sp2_option
    else if a ≐ "--sp3"
    then some sp3_option
    else if a ≐ "--sp_flags"
    then some sp_flags_option
    else if a ≐ "--send_config"
    then some send_config_option
    else if a ≐ "--cfg_key"
    then some cfg_key_option
    else if a ≐ "--cfg_u8"
    then some cfg_u8_option
    else if a ≐ "--cfg_u16"
    then some cfg_u16_option
    else if a ≐ "--cfg_u32"
    then some cfg_u32_option
    else none

module _ (lib : Numbers) where
  unfoldable pub parse_unsigned : ℕ → String → Option ℕ
  parse_unsigned limit s =
      if starts_0x s then within limit (lib.scan_hex s) else within limit (lib.scan_dec s)

  unfoldable pub parse_u8 : String → Option ℕ
  unfolding parse_unsigned starts_0x within
  parse_u8 s = parse_unsigned 0xff s

  unfoldable pub parse_u16 : String → Option ℕ
  unfolding parse_unsigned starts_0x within
  parse_u16 s = parse_unsigned 0xffff s

  unfoldable pub parse_u32 : String → Option ℕ
  unfolding parse_unsigned starts_0x within
  parse_u32 s = parse_unsigned 0xffff_ffff s

  -- `exit(2)`, `return false`, an exception, or the configuration.
  pub data Parsed : Type 0 where
    exits : Parsed
    refused : Parsed
    throws : Parsed
    parsed : ClientConfig → Parsed

  -- A number that must parse, and what follows.
  unfoldable pub or_throw {ℓ} : {A : Type ℓ} → Option A → (A → ClientConfig) → Parsed
  or_throw none f = throws
  or_throw (some v) f = parsed (f v)

  unfoldable pub or_refuse : Option ℕ → (ℕ → ClientConfig) → Parsed
  or_refuse none f = refused
  or_refuse (some v) f = parsed (f v)

  unfoldable pub is_nonzero : ℤ → Bool
  is_nonzero (pos zero) = false
  is_nonzero n = true

  -- What an option does with its value.
  unfoldable pub set : Name → String → ClientConfig → Parsed
  unfolding or_throw or_refuse is_nonzero
  set server_ip_option v c = parsed (record c { server_ip = v })
  set state_port_option v c =
      or_throw (lib.stoi v) (λ n. record c { state_port = to_unsigned 16 n })
  set cmd_port_option v c = or_throw (lib.stoi v) (λ n. record c { cmd_port = to_unsigned 16 n })
  set print_hz_option v c = or_throw (lib.stod v) (λ x. record c { print_hz = x })
  set cmd_hz_option v c = or_throw (lib.stod v) (λ x. record c { cmd_hz = x })
  set m1_option v c = or_throw (lib.stoi v) (λ n. record c { m1 = n })
  set m2_option v c = or_throw (lib.stoi v) (λ n. record c { m2 = n })
  set m3_option v c = or_throw (lib.stoi v) (λ n. record c { m3 = n })
  set m4_option v c = or_throw (lib.stoi v) (λ n. record c { m4 = n })
  set beep_ms_option v c = or_throw (lib.stoi v) (λ n. record c { beep_ms = n })
  set flags_option v c = or_refuse (parse_u32 v) (λ n. record c { flags = n })
  set setpoint_hz_option v c = or_throw (lib.stod v) (λ x. record c { setpoint_hz = x })
  set sp0_option v c = or_throw (lib.stof v) (λ x. record c { sp0 = x })
  set sp1_option v c = or_throw (lib.stof v) (λ x. record c { sp1 = x })
  set sp2_option v c = or_throw (lib.stof v) (λ x. record c { sp2 = x })
  set sp3_option v c = or_throw (lib.stof v) (λ x. record c { sp3 = x })
  set sp_flags_option v c = or_refuse (parse_u32 v) (λ n. record c { sp_flags = n })
  set send_config_option v c = or_throw (lib.stoi v) (λ n. record c { send_config = is_nonzero n })
  set cfg_key_option v c = or_refuse (parse_u8 v) (λ n. record c { cfg_key = n })
  set cfg_u8_option v c = or_refuse (parse_u8 v) (λ n. record c { cfg_u8 = n })
  set cfg_u16_option v c = or_refuse (parse_u16 v) (λ n. record c { cfg_u16 = n })
  set cfg_u32_option v c = or_refuse (parse_u32 v) (λ n. record c { cfg_u32 = n })

  unfoldable pub parse_loop : List String → ClientConfig → Parsed
  parse_loop [] c = parsed c
  parse_loop (a ∷ []) c = elim (find_option a) [ none ↦ refused | some o ↦ exits ]
  parse_loop (a ∷ (v ∷ rest)) c = elim (find_option a) [
    | none ↦ refused
    | some o ↦ elim (set o v c) [ parsed c' ↦ parse_loop rest c' | stop ↦ stop ]
  ]

  -- `argv` without the program's name.
  unfoldable pub parse_config : List String → Parsed
  unfolding parse_loop find_option set
  parse_config argv = parse_loop argv default_client
