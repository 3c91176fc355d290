-- ===== src/BinaryLog/Samples.antt =====
-- cpp_gateway/app/workers/shared_state.hpp: the packed samples as bytes in memory, on a little-endian
-- machine.
use stm32_board.Base.{ℕ, ◌^◌, ◌<◌, List, [], ◌∷◌, ◌++◌, drop}
use stm32_board.Core.{Vec3d}
use stm32_board.Wire.{
  write_u32_le, write_i16_le, write_i32_le, write_f32_le, read_u32_le, read_i16_le, read_i32_le,
  read_f32_le,
}
use stm32_board.Wire.Layouts.{joined}
use stm32_board.Config.{EventType, beep, flag_rise, config_applied}
use stm32_board.Shared.{StateSample, MotorCommandsSample, EventSample}
use stm32_board.BinaryLog.{write_f64, read_f64}

abbrev pub IsU64 : ℕ → Type 0
IsU64 n = n < 2 ^ 64

unfoldable pub event_type_byte : EventType → ℕ
event_type_byte beep = 0
event_type_byte flag_rise = 1
event_type_byte config_applied = 2

abbrev vec3_bytes : Vec3d → List (List ℕ)
vec3_bytes v = write_f32_le v.x ∷ write_f32_le v.y ∷ write_f32_le v.z ∷ []

unfoldable pub state_sample_bytes : StateSample → List ℕ
state_sample_bytes s = joined (
    write_f64 s.ts.epoch_s
    ∷ write_f64 s.ts.mono_s
    ∷ write_u32_le s.seq
    ∷ (vec3_bytes s.st.imu.acc
        ++ (vec3_bytes s.st.imu.gyro
            ++ (vec3_bytes s.st.imu.mag
                ++ (write_f32_le s.st.ang.roll
                    ∷ write_f32_le s.st.ang.pitch
                    ∷ write_f32_le s.st.ang.yaw
                    ∷ write_i32_le s.st.enc.e1
                    ∷ write_i32_le s.st.enc.e2
                    ∷ write_i32_le s.st.enc.e3
                    ∷ write_i32_le s.st.enc.e4
                    ∷ write_f32_le s.st.battery_voltage
                    ∷ [])))))

unfoldable pub motor_sample_bytes : MotorCommandsSample → List ℕ
motor_sample_bytes a = joined (
    write_f64 a.ts.epoch_s
    ∷ write_f64 a.ts.mono_s
    ∷ write_u32_le a.seq
    ∷ write_i16_le a.motors.m1
    ∷ write_i16_le a.motors.m2
    ∷ write_i16_le a.motors.m3
    ∷ write_i16_le a.motors.m4
    ∷ [])

unfoldable pub event_sample_bytes : EventSample → List ℕ
event_sample_bytes e = joined (
    write_f64 e.ts.epoch_s
    ∷ write_f64 e.ts.mono_s
    ∷ (event_type_byte e.ev.type_ ∷ [])
    ∷ write_u32_le e.ev.seq
    ∷ (e.ev.data0 ∷ e.ev.data1 ∷ e.ev.data2 ∷ e.ev.data3 ∷ [])
    ∷ write_u32_le e.ev.aux_u32
    ∷ [])

unfoldable pub vec3_at : List ℕ → Vec3d
vec3_at bytes = record {
  x = read_f32_le bytes;
  y = read_f32_le (drop 4 bytes);
  z = read_f32_le (drop 8 bytes);
}

-- The struct that `memcpy` fills from bytes.
unfoldable pub state_sample_at : List ℕ → StateSample
unfolding vec3_at
state_sample_at bytes = record {
  ts = record { epoch_s = read_f64 bytes; mono_s = read_f64 (drop 8 bytes) };
  seq = read_u32_le (drop 16 bytes);
  st = record {
    imu = record {
      acc = vec3_at (drop 20 bytes);
      gyro = vec3_at (drop 32 bytes);
      mag = vec3_at (drop 44 bytes);
    };
    ang = record {
      roll = read_f32_le (drop 56 bytes);
      pitch = read_f32_le (drop 60 bytes);
      yaw = read_f32_le (drop 64 bytes);
    };
    enc = record {
      e1 = read_i32_le (drop 68 bytes);
      e2 = read_i32_le (drop 72 bytes);
      e3 = read_i32_le (drop 76 bytes);
      e4 = read_i32_le (drop 80 bytes);
    };
    battery_voltage = read_f32_le (drop 84 bytes);
  };
}

unfoldable pub motor_sample_at : List ℕ → MotorCommandsSample
motor_sample_at bytes = record {
  ts = record { epoch_s = read_f64 bytes; mono_s = read_f64 (drop 8 bytes) };
  seq = read_u32_le (drop 16 bytes);
  motors = record {
    m1 = read_i16_le (drop 20 bytes);
    m2 = read_i16_le (drop 22 bytes);
    m3 = read_i16_le (drop 24 bytes);
    m4 = read_i16_le (drop 26 bytes);
  };
}
