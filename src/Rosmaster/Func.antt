-- ===== src/Rosmaster/Func.antt =====
-- cpp_gateway/include/rosmaster/protocol.hpp: the function words of the board's frames.
use stm32_board.Base.{ℕ}

abbrev pub auto_report : ℕ
auto_report = 0x01

abbrev pub beep : ℕ
beep = 0x02

abbrev pub pwm_servo : ℕ
pwm_servo = 0x03

abbrev pub pwm_servo_all : ℕ
pwm_servo_all = 0x04

abbrev pub rgb : ℕ
rgb = 0x05

abbrev pub rgb_effect : ℕ
rgb_effect = 0x06

abbrev pub report_speed : ℕ
report_speed = 0x0a

abbrev pub report_mpu_raw : ℕ
report_mpu_raw = 0x0b

abbrev pub report_imu_att : ℕ
report_imu_att = 0x0c

abbrev pub report_encoder : ℕ
report_encoder = 0x0d

abbrev pub report_icm_raw : ℕ
report_icm_raw = 0x0e

abbrev pub reset_state : ℕ
reset_state = 0x0f

abbrev pub motor : ℕ
motor = 0x10

abbrev pub car_run : ℕ
car_run = 0x11

abbrev pub motion : ℕ
motion = 0x12

abbrev pub set_motor_pid : ℕ
set_motor_pid = 0x13

abbrev pub set_yaw_pid : ℕ
set_yaw_pid = 0x14

abbrev pub set_car_type : ℕ
set_car_type = 0x15

abbrev pub uart_servo : ℕ
uart_servo = 0x20

abbrev pub uart_servo_id : ℕ
uart_servo_id = 0x21

abbrev pub uart_servo_torque : ℕ
uart_servo_torque = 0x22

abbrev pub arm_ctrl : ℕ
arm_ctrl = 0x23

abbrev pub arm_offset : ℕ
arm_offset = 0x24

abbrev pub akm_def_angle : ℕ
akm_def_angle = 0x30

abbrev pub akm_steer_angle : ℕ
akm_steer_angle = 0x31

abbrev pub request_data : ℕ
request_data = 0x50

abbrev pub version : ℕ
version = 0x51

abbrev pub reset_flash : ℕ
reset_flash = 0xa0
