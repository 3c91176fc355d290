-- ===== src/Examples/Board.antt =====
-- Frames to and from the board.
use stm32_board.Base.{ℕ, ◌≡◌, refl, List, [], ◌∷◌, ◌++◌, none, some, ◌==◌, if◌then◌else◌, arith}
use stm32_board.Base.Int.{pos, negsuc}
use stm32_board.Core.{zero_states}
use stm32_board.Rosmaster.{head, send_var, limit_motor_value, motor_byte, set_motor, checksum}
use stm32_board.Rosmaster.Func
use stm32_board.Rosmaster.Receive.{Report, Robot, queue_port, rx_round, rx_loop}
use stm32_board.Rosmaster.Reports.{
  report_bytes, report_sum, reports_bytes, deliver_all, rx_round-report_bytes,
  rx_loop-reports_bytes, rx_loop-stray_head,
}
use stm32_board.Examples.Data.{unit}

set_motor_bytes :
    set_motor (pos 30) (negsuc 149) (pos 127) (pos 0)
    ≡ 0xff ∷ 0xfc ∷ 0x07 ∷ 0x10 ∷ 30 ∷ 156 ∷ 127 ∷ 0 ∷ 80 ∷ []
unfolding set_motor motor_byte limit_motor_value send_var checksum
set_motor_bytes = refl

abbrev encoders : Report
encoders = record {
  ext_type = Func.report_encoder;
  bytes = 1 ∷ 0 ∷ 0 ∷ 0 ∷ 255 ∷ 255 ∷ 255 ∷ 255 ∷ 0 ∷ 1 ∷ 0 ∷ 0 ∷ 7 ∷ 0 ∷ 0 ∷ 0 ∷ [];
}

abbrev version : Report
version = record { ext_type = Func.version; bytes = 3 ∷ 5 ∷ [] }

rx_round-report_bytes_example :
    rx_round queue_port (report_bytes encoders 9 ++ 0xff ∷ [])
    ≡ ((if report_sum encoders == 9 then some encoders else none), 0xff ∷ [])
rx_round-report_bytes_example = rx_round-report_bytes encoders 9 (0xff ∷ []) (omega arith)

abbrev idle : Robot
idle = record {
  st = zero_states;
  version = record { high = 0; low = 0; version = 0 };
  ev_count = λ t. 0;
}

rx_loop-reports_bytes_example :
    rx_loop unit queue_port 2 (reports_bytes (encoders ∷ version ∷ [])) idle
    ≡ (deliver_all unit (encoders ∷ version ∷ []) idle, [])
rx_loop-reports_bytes_example =
    rx_loop-reports_bytes unit (encoders ∷ version ∷ []) idle (omega arith, (omega arith, tt))

-- A whole version report behind a stray head byte.
abbrev body : List ℕ
body = 0xfb ∷ 5 ∷ Func.version ∷ 3 ∷ 5 ∷ report_sum version ∷ []

rx_loop-stray_head_example : rx_loop unit queue_port 7 (head ∷ head ∷ body) idle ≡ (idle, [])
rx_loop-stray_head_example = rx_loop-stray_head unit body idle (ground arith)
