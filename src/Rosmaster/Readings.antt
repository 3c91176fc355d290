-- ===== src/Rosmaster/Readings.antt =====
-- The getters of the board's driver that ask nothing of the board, and `clear_auto_report_data`.
use stm32_board.Base.{ℕ}
use stm32_board.Core.{States, Vec3d, zero_imu_data, zero_angles, zero_encoders, Encoders, Angles}
use stm32_board.Rosmaster.Receive.{Robot}

-- `clear_auto_report_data`
unfoldable pub clear_auto_report_data : Robot → Robot
clear_auto_report_data r = record r {
  st = record { imu = zero_imu_data; ang = zero_angles; enc = zero_encoders; battery_voltage = 0 };
}

-- The getters that ask nothing of the board.
unfoldable pub get_state : Robot → States
get_state r = r.st

unfoldable pub get_accelerometer_data : Robot → Vec3d
get_accelerometer_data r = r.st.imu.acc

unfoldable pub get_gyroscope_data : Robot → Vec3d
get_gyroscope_data r = r.st.imu.gyro

unfoldable pub get_magnetometer_data : Robot → Vec3d
get_magnetometer_data r = r.st.imu.mag

unfoldable pub get_battery_voltage : Robot → ℕ
get_battery_voltage r = r.st.battery_voltage

unfoldable pub get_motor_encoder : Robot → Encoders
get_motor_encoder r = record {
  e1 = r.st.enc.e1;
  e2 = r.st.enc.e2;
  e3 = r.st.enc.e3;
  e4 = r.st.enc.e4;
}

unfoldable pub get_imu_attitude_data : Robot → Angles
get_imu_attitude_data r = r.st.ang
