-- ===== src/BinaryLog/SampleBytes.antt =====
-- The packed samples that fit their types come back from their bytes.
use stm32_board.Base.{ℕ, ◌+◌, ◌%◌, ◌^◌, ◌≡◌, refl, ap₂, ◌∙◌, List, ◌++◌, length, drop, arith}
use stm32_board.Base.Int.{ℤ, IsInt}
use stm32_board.Core.{Timestamps, IsU32, MotorsInRange}
use stm32_board.Wire.{
  shl, shr, write_u16_le, write_u32_le, write_i16_le, write_i32_le, write_f32_le,
}
use stm32_board.Wire.Words.{
  read_u32_le-write_u32_le, read_i16_le-write_i16_le, read_i32_le-write_i32_le,
  read_f32_le-write_f32_le,
}
use stm32_board.Wire.StatesLayout.{StatesInRange}
use stm32_board.Shared.{StateSample, MotorCommandsSample, EventSample}
use stm32_board.BinaryLog.{write_f64, read_f64}
use stm32_board.BinaryLog.Samples.{
  IsU64, state_sample_bytes, motor_sample_bytes, event_sample_bytes, vec3_at, state_sample_at,
  motor_sample_at,
}

pub record TimestampsInRange (ts : Timestamps) : Type 0 where
  pub epoch_s : IsU64 ts.epoch_s
  pub mono_s : IsU64 ts.mono_s

pub record StateSampleInRange (s : StateSample) : Type 0 where
  pub ts : TimestampsInRange s.ts
  pub seq : IsU32 s.seq
  pub st : StatesInRange s.st

pub record MotorSampleInRange (a : MotorCommandsSample) : Type 0 where
  pub ts : TimestampsInRange a.ts
  pub seq : IsU32 a.seq
  pub motors : MotorsInRange a.motors

pub record EventSampleInRange (e : EventSample) : Type 0 where
  pub ts : TimestampsInRange e.ts
  pub seq : IsU32 e.ev.seq
  pub aux_u32 : IsU32 e.ev.aux_u32

pub read_f64-write_f64 : (v : ℕ) (rest : List ℕ) → IsU64 v → read_f64 (write_f64 v ++ rest) ≡ v
unfolding read_f64 write_f64 write_u32_le
read_f64-write_f64 v rest h =
    ap₂ (λ a b. a + shl b 32)
      (read_u32_le-write_u32_le (v % 2 ^ 32) (write_u32_le (shr v 32) ++ rest) (omega arith))
      (read_u32_le-write_u32_le (shr v 32) rest (omega arith))
    ∙ omega arith

-- The sizes that the headers of the records carry.
pub length-state_sample_bytes : (s : StateSample) → length (state_sample_bytes s) ≡ 88
unfolding state_sample_bytes write_f64 write_u32_le write_f32_le write_i32_le
length-state_sample_bytes s = refl

pub length-motor_sample_bytes : (a : MotorCommandsSample) → length (motor_sample_bytes a) ≡ 28
unfolding motor_sample_bytes write_f64 write_u32_le write_i16_le write_u16_le
length-motor_sample_bytes a = refl

pub length-event_sample_bytes : (e : EventSample) → length (event_sample_bytes e) ≡ 29
unfolding event_sample_bytes write_f64 write_u32_le
length-event_sample_bytes e = refl

-- Copying the bytes back gives the sample.
pub motor_sample_at-bytes :
    (a : MotorCommandsSample) → MotorSampleInRange a → motor_sample_at (motor_sample_bytes a) ≡ a
unfolding motor_sample_at motor_sample_bytes write_f64 write_u32_le write_i16_le write_u16_le
motor_sample_at-bytes a r =
    let bytes = motor_sample_bytes a in
    (λ i. record {
      ts = record {
        epoch_s = read_f64-write_f64 a.ts.epoch_s (drop 8 bytes) r.ts.epoch_s i;
        mono_s = read_f64-write_f64 a.ts.mono_s (drop 16 bytes) r.ts.mono_s i;
      };
      seq = read_u32_le-write_u32_le a.seq (drop 20 bytes) r.seq i;
      motors = record {
        m1 = read_i16_le-write_i16_le a.motors.m1 (drop 22 bytes) r.motors.m1 i;
        m2 = read_i16_le-write_i16_le a.motors.m2 (drop 24 bytes) r.motors.m2 i;
        m3 = read_i16_le-write_i16_le a.motors.m3 (drop 26 bytes) r.motors.m3 i;
        m4 = read_i16_le-write_i16_le a.motors.m4 (drop 28 bytes) r.motors.m4 i;
      };
    })

pub state_sample_at-bytes :
    (s : StateSample) → StateSampleInRange s → state_sample_at (state_sample_bytes s) ≡ s
unfolding state_sample_at vec3_at state_sample_bytes write_f64 write_u32_le write_f32_le
    write_i32_le
state_sample_at-bytes s r =
    let bytes = state_sample_bytes s in
    let f32 = λ (v n : ℕ) (h : IsU32 v). read_f32_le-write_f32_le v (drop n bytes) h in
    let i32 = λ (v : ℤ) (n : ℕ) (h : IsInt 32 v). read_i32_le-write_i32_le v (drop n bytes) h in
    (λ i. record {
      ts = record {
        epoch_s = read_f64-write_f64 s.ts.epoch_s (drop 8 bytes) r.ts.epoch_s i;
        mono_s = read_f64-write_f64 s.ts.mono_s (drop 16 bytes) r.ts.mono_s i;
      };
      seq = read_u32_le-write_u32_le s.seq (drop 20 bytes) r.seq i;
      st = record {
        imu = record {
          acc = record {
            x = f32 s.st.imu.acc.x 24 r.st.acc.x i;
            y = f32 s.st.imu.acc.y 28 r.st.acc.y i;
            z = f32 s.st.imu.acc.z 32 r.st.acc.z i;
          };
          gyro = record {
            x = f32 s.st.imu.gyro.x 36 r.st.gyro.x i;
            y = f32 s.st.imu.gyro.y 40 r.st.gyro.y i;
            z = f32 s.st.imu.gyro.z 44 r.st.gyro.z i;
          };
          mag = record {
            x = f32 s.st.imu.mag.x 48 r.st.mag.x i;
            y = f32 s.st.imu.mag.y 52 r.st.mag.y i;
            z = f32 s.st.imu.mag.z 56 r.st.mag.z i;
          };
        };
        ang = record {
          roll = f32 s.st.ang.roll 60 r.st.roll i;
          pitch = f32 s.st.ang.pitch 64 r.st.pitch i;
          yaw = f32 s.st.ang.yaw 68 r.st.yaw i;
        };
        enc = record {
          e1 = i32 s.st.enc.e1 72 r.st.e1 i;
          e2 = i32 s.st.enc.e2 76 r.st.e2 i;
          e3 = i32 s.st.enc.e3 80 r.st.e3 i;
          e4 = i32 s.st.enc.e4 84 r.st.e4 i;
        };
        battery_voltage = f32 s.st.battery_voltage 88 r.st.battery_voltage i;
      };
    })
