-- ===== src/Examples/Tcp.antt =====
-- Frames from a client and to a client.
use stm32_board.Base.{ℕ, ◌-◌, ◌≡◌, refl, List, [], ◌∷◌, ◌++◌, true, some, if◌then◌else◌, arith, All}
use stm32_board.Base.Int.{pos, negsuc}
use stm32_board.Wire.Payloads.{decode_stats_payload}
use stm32_board.Wire.Messages.{MotorCmdPayload, ConfigPayload, StatsPayload}
use stm32_board.Framed.{
  Frame, fresh, msg_cmd, msg_stats_req, msg_stats_resp, is_known_type, needs_payload,
}
use stm32_board.Framed.Stream.{scan}
use stm32_board.Framed.RoundTrip.{IsFrame}
use stm32_board.Config.{RuntimeConfig, blank_event, config_applied}
use stm32_board.Ring.Queue
use stm32_board.Ring.Refine.{contents}
use stm32_board.Shared.{fresh_shared, queue_capacity, bump_tcp_frames_bad}
use stm32_board.Tcp.{build_stats, current_config, apply_config_payload}
use stm32_board.Tcp.Worker.{TcpState, handle_frame, stats_frame}
use stm32_board.Tcp.Configure.{IsRate, IsTuned, apply_config_payload-IsTuned}
use stm32_board.Tcp.Frames.{is_command, handle_frame_watchdog, handle_frame_reject}
use stm32_board.Tcp.Outgoing.{stats_frame-decode}
use stm32_board.Examples.Data.{unit, unit-ExactSmall, noon, started, started-sys_event_q}

abbrev pub worker : TcpState
worker = record {
  sh = started;
  cmd_frx = fresh;
  last_sp_seq = 0;
  state_seq = 0;
  stats_seq = 0;
  sent = [];
}

abbrev forward : MotorCmdPayload
forward = record {
  seq = 7;
  motors = record { m1 = pos 30; m2 = negsuc 29; m3 = pos 100; m4 = pos 0 };
}

-- A motor command of the size that the protocol's document has.
abbrev pub oversized : Frame
oversized = record {
  type_ = msg_cmd;
  payload = 0 ∷ 0 ∷ 0 ∷ 0 ∷ 0 ∷ 0 ∷ 0 ∷ 0 ∷ 0 ∷ 0 ∷ 0 ∷ 0 ∷ 0 ∷ 0 ∷ [];
}

handle_frame_watchdog_example :
    (handle_frame unit worker 4 noon oversized).sh.last_cmd_rx_mono_s
    ≡ (if is_command oversized then noon.mono_s else worker.sh.last_cmd_rx_mono_s)
handle_frame_watchdog_example = handle_frame_watchdog unit worker 4 noon oversized

handle_frame_reject_example :
    handle_frame unit worker 4 noon oversized ≡ record worker { sh = bump_tcp_frames_bad started }
handle_frame_reject_example = handle_frame_reject unit worker 4 noon oversized refl

abbrev pub sent : List Frame
sent = record { type_ = msg_stats_req; payload = [] } ∷ oversized ∷ []

pub sent-IsFrame : All IsFrame sent
unfolding is_known_type needs_payload
sent-IsFrame = ground arith

abbrev faster : ConfigPayload
faster = record { seq = 9; key = 1; u8 = 0; u16 = 5000; u32 = 0 }

tuned : IsTuned unit (current_config unit started)
unfolding current_config IsRate
tuned = record {
  usb = (200, omega arith, omega arith, refl);
  tcp = (200, omega arith, omega arith, refl);
  ctrl = (200, omega arith, omega arith, refl);
  timeout_above = refl;
  timeout_below = refl;
  rotate_above = omega arith;
  rotate_below = omega arith;
  keep_above = omega arith;
  keep_below = omega arith;
}

apply_config_payload-IsTuned_example :
    let sh = apply_config_payload unit started noon faster in
    (c : RuntimeConfig) × (sh.cfg ≡ some c)
    × IsTuned unit c
    × (contents queue_capacity blank_event sh.sys_event_q
        ≡ (Queue.push
            (queue_capacity - 1)
            (contents queue_capacity blank_event started.sys_event_q)
            (record blank_event { type_ = config_applied; seq = 9; data0 = 1 })).0)
apply_config_payload-IsTuned_example =
    apply_config_payload-IsTuned unit unit-ExactSmall started noon faster (omega arith) tuned
      started-sys_event_q

abbrev blank_stats : StatsPayload
blank_stats = record {
  seq = 0;
  uptime_ms = 0;
  usb_hz = 0;
  tcp_hz = 0;
  ctrl_hz = 0;
  drops_state = 0;
  drops_cmd = 0;
  drops_event = 0;
  drops_sys_event = 0;
  tcp_frames_bad = 0;
  serial_errors = 0;
  reserved0 = 0;
}

abbrev just_now : ℕ
just_now = 0

stats_frame-decode_example :
    (f : Frame) × (scan (stats_frame unit started just_now 1 ++ 5 ∷ []) ≡ (some f, 5 ∷ []))
    × (f.type_ ≡ msg_stats_resp)
    × (decode_stats_payload f.payload blank_stats ≡ (true, build_stats unit started just_now 1))
unfolding build_stats fresh_shared
stats_frame-decode_example =
    stats_frame-decode unit started just_now 1 (5 ∷ []) blank_stats (ground arith)
