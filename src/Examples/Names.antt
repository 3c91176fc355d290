-- ===== src/Examples/Names.antt =====
-- The names of the decoder's outputs and its command line.
use stm32_board.Base.{◌≡◌, refl, [], ◌∷◌}
use stm32_board.Decoder.{Decoded, nothing, decode_loop, decode_log}
use stm32_board.Decoder.Names.{codes, basename_no_dirs, path_join}
use stm32_board.Decoder.Names.{
  extract_yyyymmdd_hhmmss, out_path, state_suffix, parse_args, parsed, Args,
}

-- The names of the help text.
names :
    out_path (codes "./out") (codes "testA") (codes "gateway.bin") state_suffix
    ≡ codes "./out/testA_gateway_state.csv"
unfolding out_path path_join stm32_board.Decoder.Names.normalize_prefix
    stm32_board.Decoder.Names.stamp basename_no_dirs extract_yyyymmdd_hhmmss
    stm32_board.Decoder.Names.strip_extension
names = refl

stamped :
    out_path (codes "./out") [] (codes "./logs/gateway_20260214_185144_0.bin") state_suffix
    ≡ codes "./out/20260214_185144_state.csv"
unfolding out_path path_join stm32_board.Decoder.Names.normalize_prefix
    stm32_board.Decoder.Names.stamp basename_no_dirs extract_yyyymmdd_hhmmss
    stm32_board.Decoder.Names.stamp_here
stamped = refl

words :
    parse_args ("--in" ∷ "g.bin" ∷ [])
    ≡ parsed (record { in_path = "g.bin"; out_dir = "."; prefix = "" })
unfolding parse_args
words = refl
