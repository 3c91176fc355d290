-- ===== src/Core.antt =====
-- cpp_gateway/include/core/basic.hpp: the data that the workers exchange.
-- A `float` is its IEEE-754 binary32 pattern and a `double` its binary64 pattern: a natural number.
use stm32_board.Base.{ℕ, ◌<◌, ◌^◌}
use stm32_board.Base.Int.{ℤ, pos, IsInt}

pub record Vec3d : Type 0 where
  pub x : ℕ
  pub y : ℕ
  pub z : ℕ

pub record ImuData : Type 0 where
  pub acc : Vec3d
  pub gyro : Vec3d
  pub mag : Vec3d

pub record Angles : Type 0 where
  pub roll : ℕ
  pub pitch : ℕ
  pub yaw : ℕ

pub record Encoders : Type 0 where
  pub e1 : ℤ
  pub e2 : ℤ
  pub e3 : ℤ
  pub e4 : ℤ

pub record States : Type 0 where
  pub imu : ImuData
  pub ang : Angles
  pub enc : Encoders
  pub battery_voltage : ℕ

pub record MotorCommands : Type 0 where
  pub m1 : ℤ
  pub m2 : ℤ
  pub m3 : ℤ
  pub m4 : ℤ

pub record Timestamps : Type 0 where
  pub epoch_s : ℕ
  pub mono_s : ℕ

pub record Version : Type 0 where
  pub high : ℕ
  pub low : ℕ
  pub version : ℕ

-- Values of each type with all fields initialised to zero; the pattern of 0.0 is 0.
abbrev pub zero_vec3d : Vec3d
zero_vec3d = record { x = 0; y = 0; z = 0 }

abbrev pub zero_imu_data : ImuData
zero_imu_data = record { acc = zero_vec3d; gyro = zero_vec3d; mag = zero_vec3d }

abbrev pub zero_angles : Angles
zero_angles = record { roll = 0; pitch = 0; yaw = 0 }

abbrev pub zero_encoders : Encoders
zero_encoders = record { e1 = pos 0; e2 = pos 0; e3 = pos 0; e4 = pos 0 }

abbrev pub zero_states : States
zero_states = record {
  imu = zero_imu_data;
  ang = zero_angles;
  enc = zero_encoders;
  battery_voltage = 0;
}

abbrev pub zero_motor_commands : MotorCommands
zero_motor_commands = record { m1 = pos 0; m2 = pos 0; m3 = pos 0; m4 = pos 0 }

abbrev pub IsU8 : ℕ → Type 0
IsU8 n = n < 2 ^ 8

abbrev pub IsU16 : ℕ → Type 0
IsU16 n = n < 2 ^ 16

abbrev pub IsU32 : ℕ → Type 0
IsU32 n = n < 2 ^ 32

-- The fields of a struct hold values of their C++ types.
pub record MotorsInRange (m : MotorCommands) : Type 0 where
  pub m1 : IsInt 16 m.m1
  pub m2 : IsInt 16 m.m2
  pub m3 : IsInt 16 m.m3
  pub m4 : IsInt 16 m.m4
