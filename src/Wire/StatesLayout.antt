-- ===== src/Wire/StatesLayout.antt =====
-- The layout of a MSG_STATE payload, as the table of cpp_gateway/docs/protocol.md lists it, against
-- `encode_states_payload`.
use stm32_board.Base.{ℕ, ◌≡◌, refl, List, true, drop, length}
use stm32_board.Base.Int.{IsInt}
use stm32_board.Core.{States, Vec3d, IsU32}
use stm32_board.Wire.{
  read_u32_le, read_i32_le, read_f32_le, write_u32_le, write_f32_le, write_i32_le,
}
use stm32_board.Wire.Words.{
  read_u32_le-write_u32_le, read_f32_le-write_f32_le, read_i32_le-write_i32_le,
}
use stm32_board.Wire.Payloads.{states_fields, encode_states_payload}
use stm32_board.Wire.Messages.{states_payload_size}
use stm32_board.Wire.Layouts.{joined, encode_states_payload_layout}

-- A vector of floats at three consecutive offsets.
pub record Vec3At (bytes : List ℕ) (v : Vec3d) : Type 0 where
  pub x : read_f32_le bytes ≡ v.x
  pub y : read_f32_le (drop 4 bytes) ≡ v.y
  pub z : read_f32_le (drop 8 bytes) ≡ v.z

-- Every row of the table: the value read at that offset is the field.
pub record StatesAt (bytes : List ℕ) (seq t_mono_s : ℕ) (st : States) : Type 0 where
  pub size : length bytes ≡ states_payload_size
  pub seq_at : read_u32_le bytes ≡ seq
  pub t_mono_s_at : read_f32_le (drop 4 bytes) ≡ t_mono_s
  pub acc_at : Vec3At (drop 8 bytes) st.imu.acc
  pub gyro_at : Vec3At (drop 20 bytes) st.imu.gyro
  pub mag_at : Vec3At (drop 32 bytes) st.imu.mag
  pub roll_at : read_f32_le (drop 44 bytes) ≡ st.ang.roll
  pub pitch_at : read_f32_le (drop 48 bytes) ≡ st.ang.pitch
  pub yaw_at : read_f32_le (drop 52 bytes) ≡ st.ang.yaw
  pub enc1_at : read_i32_le (drop 56 bytes) ≡ st.enc.e1
  pub enc2_at : read_i32_le (drop 60 bytes) ≡ st.enc.e2
  pub enc3_at : read_i32_le (drop 64 bytes) ≡ st.enc.e3
  pub enc4_at : read_i32_le (drop 68 bytes) ≡ st.enc.e4
  pub battery_voltage_at : read_f32_le (drop 72 bytes) ≡ st.battery_voltage

pub record Vec3InRange (v : Vec3d) : Type 0 where
  pub x : IsU32 v.x
  pub y : IsU32 v.y
  pub z : IsU32 v.z

pub record StatesInRange (st : States) : Type 0 where
  pub acc : Vec3InRange st.imu.acc
  pub gyro : Vec3InRange st.imu.gyro
  pub mag : Vec3InRange st.imu.mag
  pub roll : IsU32 st.ang.roll
  pub pitch : IsU32 st.ang.pitch
  pub yaw : IsU32 st.ang.yaw
  pub e1 : IsInt 32 st.enc.e1
  pub e2 : IsInt 32 st.enc.e2
  pub e3 : IsInt 32 st.enc.e3
  pub e4 : IsInt 32 st.enc.e4
  pub battery_voltage : IsU32 st.battery_voltage

-- The encoder accepts a span of 76 bytes, and stores each field where the protocol's table has it.
pub encode_states_payload-StatesAt :
    (out : List ℕ) (seq t_mono_s : ℕ) (st : States)
    → length out ≡ states_payload_size
    → IsU32 seq
    → IsU32 t_mono_s
    → StatesInRange st
    → ((encode_states_payload out seq t_mono_s st).0 ≡ true)
      × StatesAt (encode_states_payload out seq t_mono_s st).1 seq t_mono_s st
unfolding states_fields write_u32_le write_f32_le write_i32_le
encode_states_payload-StatesAt out seq t_mono_s st h hs ht r =
    let bytes = joined (states_fields seq t_mono_s st) in
    rw (encode_states_payload_layout out seq t_mono_s st h) (
      refl,
      record {
        size = refl;
        seq_at = read_u32_le-write_u32_le seq (drop 4 bytes) hs;
        t_mono_s_at = read_f32_le-write_f32_le t_mono_s (drop 8 bytes) ht;
        acc_at = record {
          x = read_f32_le-write_f32_le st.imu.acc.x (drop 12 bytes) r.acc.x;
          y = read_f32_le-write_f32_le st.imu.acc.y (drop 16 bytes) r.acc.y;
          z = read_f32_le-write_f32_le st.imu.acc.z (drop 20 bytes) r.acc.z;
        };
        gyro_at = record {
          x = read_f32_le-write_f32_le st.imu.gyro.x (drop 24 bytes) r.gyro.x;
          y = read_f32_le-write_f32_le st.imu.gyro.y (drop 28 bytes) r.gyro.y;
          z = read_f32_le-write_f32_le st.imu.gyro.z (drop 32 bytes) r.gyro.z;
        };
        mag_at = record {
          x = read_f32_le-write_f32_le st.imu.mag.x (drop 36 bytes) r.mag.x;
          y = read_f32_le-write_f32_le st.imu.mag.y (drop 40 bytes) r.mag.y;
          z = read_f32_le-write_f32_le st.imu.mag.z (drop 44 bytes) r.mag.z;
        };
        roll_at = read_f32_le-write_f32_le st.ang.roll (drop 48 bytes) r.roll;
        pitch_at = read_f32_le-write_f32_le st.ang.pitch (drop 52 bytes) r.pitch;
        yaw_at = read_f32_le-write_f32_le st.ang.yaw (drop 56 bytes) r.yaw;
        enc1_at = read_i32_le-write_i32_le st.enc.e1 (drop 60 bytes) r.e1;
        enc2_at = read_i32_le-write_i32_le st.enc.e2 (drop 64 bytes) r.e2;
        enc3_at = read_i32_le-write_i32_le st.enc.e3 (drop 68 bytes) r.e3;
        enc4_at = read_i32_le-write_i32_le st.enc.e4 (drop 72 bytes) r.e4;
        battery_voltage_at =
            read_f32_le-write_f32_le st.battery_voltage (drop 76 bytes) r.battery_voltage;
      },
    )
