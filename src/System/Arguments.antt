-- ===== src/System/Arguments.antt =====
-- cpp_gateway/app/gateway_main.cpp: the command line of the gateway.
use Prim.Native.String.{String}
use text.Mathlib.Text.{◌==◌ as ◌≐◌}
use stm32_board.Base.{
  ℕ, zero, List, [], ◌∷◌, Bool, true, false, leb, if◌then◌else◌, Option, none, some,
}
use stm32_board.Base.Int.{ℤ, pos, to_unsigned}
use stm32_board.Config.{
  ControlMode, pass_through_cmd, autonomous, autonomous_with_remote_setpoint, UsbTimeoutMode,
  enforce, disable, RuntimeConfig, default_config,
}
use stm32_board.Numbers.{Numbers, starts_0x}

unfoldable pub parse_control_mode : String → ControlMode
parse_control_mode s =
    if s ≐ "pass"
    then pass_through_cmd
    else if s ≐ "auto"
    then autonomous
    else if s ≐ "setpoint"
    then autonomous_with_remote_setpoint
    else pass_through_cmd

unfoldable pub parse_usb_timeout_mode : String → UsbTimeoutMode
parse_usb_timeout_mode s = if s ≐ "disable" then disable else enforce

-- A scan that finds a byte.
unfoldable pub byte_or : Option ℕ → Option ℕ → Option ℕ
byte_or none other = other
byte_or (some v) other = if leb v 0xff then some v else other

-- The options that take a value.
pub data Name : Type 0 where
  serial_option baud_option bind_ip_option state_port_option cmd_port_option usb_hz_option
        tcp_hz_option ctrl_hz_option hz_option cmd_timeout_option usb_timeout_mode_option
        control_mode_option binary_log_option log_path_option flag_event_mask_option
        flag_start_bit_option flag_stop_bit_option flag_reset_bit_option :
      Name

-- `--help` and unknown words are none.
unfoldable pub find_option : String → Option Name
find_option a =
    if a ≐ "--serial"
    then some serial_option
    else if a ≐ "--baud"
    then some baud_option
    else if a ≐ "--bind_ip"
    then some bind_ip_option
    else if a ≐ "--state_port"
    then some state_port_option
    else if a ≐ "--cmd_port"
    then some cmd_port_option
    else if a ≐ "--usb_hz"
    then some usb_hz_option
    else if a ≐ "--tcp_hz"
    then some tcp_hz_option
    else if a ≐ "--ctrl_hz"
    then some ctrl_hz_option
    else if a ≐ "--hz"
    then some hz_option
    else if a ≐ "--cmd_timeout"
    then some cmd_timeout_option
    else if a ≐ "--usb_timeout_mode"
    then some usb_timeout_mode_option
    else if a ≐ "--control_mode"
    then some control_mode_option
    else if a ≐ "--binary_log"
    then some binary_log_option
    else if a ≐ "--log_path"
    then some log_path_option
    else if a ≐ "--flag_event_mask"
    then some flag_event_mask_option
    else if a ≐ "--flag_start_bit"
    then some flag_start_bit_option
    else if a ≐ "--flag_stop_bit"
    then some flag_stop_bit_option
    else if a ≐ "--flag_reset_bit"
    then some flag_reset_bit_option
    else none

module _ (lib : Numbers) where
  -- A hexadecimal number that is no byte is scanned again as a decimal one.
  unfoldable pub parse_hex_u8 : String → Option ℕ
  unfolding byte_or
  parse_hex_u8 s =
      let dec = byte_or (lib.scan_dec s) none in
      if starts_0x s then byte_or (lib.scan_hex s) dec else dec

  -- The exit with 2 for a missing value, the return of 0 or 2, an exception, or the configuration.
  pub data Parsed : Type 0 where
    exits : Parsed
    returns : ℕ → Parsed
    throws : Parsed
    parsed : RuntimeConfig → Parsed

  unfoldable pub or_throw {ℓ} : {A : Type ℓ} → Option A → (A → RuntimeConfig) → Parsed
  or_throw none f = throws
  or_throw (some v) f = parsed (f v)

  unfoldable pub or_refuse : Option ℕ → (ℕ → RuntimeConfig) → Parsed
  or_refuse none f = returns 2
  or_refuse (some v) f = parsed (f v)

  unfoldable pub is_nonzero : ℤ → Bool
  is_nonzero (pos zero) = false
  is_nonzero n = true

  -- What an option does with its value.
  unfoldable pub set : Name → String → RuntimeConfig → Parsed
  unfolding or_throw or_refuse is_nonzero
  set serial_option v c = parsed (record c { serial_dev = v })
  set baud_option v c = or_throw (lib.stoi v) (λ n. record c { serial_baud = n })
  set bind_ip_option v c = parsed (record c { bind_ip = v })
  set state_port_option v c =
      or_throw (lib.stoi v) (λ n. record c { state_port = to_unsigned 16 n })
  set cmd_port_option v c = or_throw (lib.stoi v) (λ n. record c { cmd_port = to_unsigned 16 n })
  set usb_hz_option v c = or_throw (lib.stod v) (λ x. record c { usb_hz = x })
  set tcp_hz_option v c = or_throw (lib.stod v) (λ x. record c { tcp_hz = x })
  set ctrl_hz_option v c = or_throw (lib.stod v) (λ x. record c { ctrl_hz = x })
  set hz_option v c = or_throw (lib.stod v) (λ x. record c { usb_hz = x; tcp_hz = x; ctrl_hz = x })
  set cmd_timeout_option v c = or_throw (lib.stod v) (λ x. record c { cmd_timeout_s = x })
  set usb_timeout_mode_option v c =
      parsed (record c { usb_timeout_mode = parse_usb_timeout_mode v })
  set control_mode_option v c = parsed (record c { control_mode = parse_control_mode v })
  set binary_log_option v c = or_throw (lib.stoi v) (λ n. record c { binary_log = is_nonzero n })
  set log_path_option v c = parsed (record c { log_path = v })
  set flag_event_mask_option v c =
      or_refuse (parse_hex_u8 v) (λ n. record c { flag_event_mask = n })
  set flag_start_bit_option v c = or_throw (lib.stoi v) (λ n. record c { flag_start_bit = n })
  set flag_stop_bit_option v c = or_throw (lib.stoi v) (λ n. record c { flag_stop_bit = n })
  set flag_reset_bit_option v c = or_throw (lib.stoi v) (λ n. record c { flag_reset_bit = n })

  -- A word that is no option.
  unfoldable pub not_option : String → Parsed
  not_option a = returns (if a ≐ "--help" then 0 else 2)

  unfoldable pub parse_loop : List String → RuntimeConfig → Parsed
  unfolding not_option
  parse_loop [] c = parsed c
  parse_loop (a ∷ []) c = elim (find_option a) [ none ↦ not_option a | some o ↦ exits ]
  parse_loop (a ∷ (v ∷ rest)) c = elim (find_option a) [
    | none ↦ not_option a
    | some o ↦ elim (set o v c) [ parsed c' ↦ parse_loop rest c' | stop ↦ stop ]
  ]

  -- The loop of `main` over `argv` without the program's name.
  unfoldable pub parse_args : List String → Parsed
  unfolding parse_loop find_option set
  parse_args argv = parse_loop argv default_config
