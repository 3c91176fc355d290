-- ===== src/Examples/Wire.antt =====
-- A message of each kind, encoded and decoded.
use stm32_board.Base.Int.{pos, negsuc}
use stm32_board.Core.{States, zero_states}
use stm32_board.Wire.Messages.{MotorCmdPayload, SetpointPayload, ConfigPayload, StatsPayload}

abbrev forward : MotorCmdPayload
forward = record {
  seq = 7;
  motors = record { m1 = pos 30; m2 = negsuc 29; m3 = pos 100; m4 = pos 0 };
}

abbrev turn : SetpointPayload
turn = record {
  seq = 8;
  sp0 = 0x3f80_0000;
  sp1 = 0xbf80_0000;
  sp2 = 0;
  sp3 = 0x7fc0_0001;
  flags = 5;
}

abbrev slower : ConfigPayload
slower = record { seq = 9; key = 1; u8 = 0; u16 = 300; u32 = 70000 }

abbrev report : StatsPayload
report = record {
  seq = 1;
  uptime_ms = 86400000;
  usb_hz = 0x4348_0000;
  tcp_hz = 0x4348_0000;
  ctrl_hz = 0x4348_0000;
  drops_state = 3;
  drops_cmd = 0;
  drops_event = 0;
  drops_sys_event = 0;
  tcp_frames_bad = 4294967295;
  serial_errors = 2;
  reserved0 = 0;
}

abbrev blank_stats : StatsPayload
blank_stats = record {
  seq = 0;
  uptime_ms = 0;
  usb_hz = 0;
  tcp_hz = 0;
  ctrl_hz = 0;
  drops_state = 0;
  drops_cmd = 0;
  drops_event = 0;
  drops_sys_event = 0;
  tcp_frames_bad = 0;
  serial_errors = 0;
  reserved0 = 0;
}

abbrev moving : States
moving = record zero_states {
  enc = record { e1 = pos 1000; e2 = negsuc 999; e3 = pos 7; e4 = negsuc 0 };
  battery_voltage = 0x4146_6666;
}
