-- ===== src/Rosmaster/Receive.antt =====
-- `Rosmaster::rx_loop` and `parse_payload`. The serial port is an interface, as `ISerialPort` is.
use stm32_board.Base.{
  ℕ, zero, suc, ◌+◌, ◌-◌, ◌*◌, ◌%◌, ◌^◌, List, [], ◌∷◌, Bool, not, ◌||◌, ◌&&◌, Option, none, some,
  ltb, leb, ◌==◌, if◌then◌else◌, length, take, drop, get_or, bit_or,
}
use stm32_board.Base.Int.{ℤ, pos, to_signed}
use stm32_board.Core.{States, Vec3d, Version}
use stm32_board.Float.{Fpu}
use stm32_board.Rosmaster.{head, device_id}
use stm32_board.Rosmaster.Func

-- `utils::le_i16` and `utils::le_i32` of cpp_gateway/include/utils/cast.hpp.
unfoldable pub le_i16 : List ℕ → ℤ
le_i16 p = to_signed 16 (bit_or (get_or p 0 0) (get_or p 1 0 * 2 ^ 8) % 2 ^ 16)

unfoldable pub le_i32 : List ℕ → ℤ
le_i32 p = to_signed 32 (
    bit_or (bit_or (bit_or (get_or p 0 0) (get_or p 1 0 * 2 ^ 8)) (get_or p 2 0 * 2 ^ 16))
      (get_or p 3 0 * 2 ^ 24)
    % 2 ^ 32)

-- What the receive thread reads from: `read_exact(dst, n)`, with `none` for false.
pub record Port (S : Type 0) : Type 0 where
  pub read_exact : S → ℕ → Option (List ℕ) × S

-- The queue of cpp_gateway/tests/fake_serial.hpp: a read of more bytes than are there takes none.
unfoldable pub queue_read : List ℕ → ℕ → Option (List ℕ) × List ℕ
queue_read rx n = if ltb (length rx) n then (none, rx) else (some (take n rx), drop n rx)

abbrev pub queue_port : Port (List ℕ)
queue_port = record { read_exact = queue_read }

-- A report: its type byte, and the bytes between that and the checksum.
pub record Report : Type 0 where
  pub ext_type : ℕ
  pub bytes : List ℕ

-- `buf.back()` and the bytes before it; the buffer is not empty.
unfoldable pub sum_init : ℕ → List ℕ → ℕ
sum_init sum [] = sum
sum_init sum (b ∷ []) = sum
sum_init sum (b ∷ c ∷ rest) = sum_init (sum + b) (c ∷ rest)

unfoldable pub check_report : ℕ → ℕ → List ℕ → Option Report
check_report ext_len ext_type buf =
    let n = length buf - 1 in
    if sum_init (ext_len + ext_type) buf % 2 ^ 32 % 256 == get_or buf n 0
    then some (record { ext_type = ext_type; bytes = take n buf })
    else none

-- A chain of reads and checks; one that fails is a `continue`, with the port as it is by then.
abbrev pub Rx : Type 0 → Type 0 → Type 0
Rx S A = S → Option A × S

abbrev pub and_then : {S A B : Type 0} → (A → Rx S B) → Option A × S → Option B × S
and_then f (none, s) = (none, s)
and_then f (some a, s) = f a s

infixl 5 ◌>>=◌ ◌>>◌
abbrev pub ◌>>=◌ : {S A B : Type 0} → Rx S A → (A → Rx S B) → Rx S B
◌>>=◌ m f s = and_then f (m s)

abbrev pub ◌>>◌ : {S B : Type 0} → Rx S (Unit {0}) → Rx S B → Rx S B
m >> k = m >>= λ _. k

abbrev pub require : {S : Type 0} → Bool → Rx S (Unit {0})
require ok s = (if ok then some tt else none, s)

abbrev result : {S A : Type 0} → Option A → Rx S A
result r s = (r, s)

module _ {S : Type 0} (port : Port S) where
  abbrev read : ℕ → Rx S (List ℕ)
  read n s = port.read_exact s n

  abbrev first : List ℕ → ℕ
  first bytes = get_or bytes 0 0

  -- One round of the loop, up to the call of `parse_payload`: the report that it is given, if any.
  unfoldable pub rx_round : Rx S Report
  rx_round = do
    h1 ← read 1
    require (first h1 == head)
    h2 ← read 1
    require (first h2 == device_id - 1)
    ext_len ← read 1
    ext_type ← read 1
    require (not (leb (first ext_len) 2 || ltb 200 (first ext_len - 2)))
    buf ← read (first ext_len - 2)
    result (check_report (first ext_len) (first ext_type) buf)

-- The state that the receive thread keeps for the getters. `ev_count` has an entry for each type.
pub record Robot : Type 0 where
  pub st : States
  pub version : Version
  pub ev_count : ℕ → ℕ

module _ (fpu : Fpu) where
  open fpu use {f32_of_int, f32_mul, f32_add, f32_div, f32_neg}

  -- The patterns of 1.0f, 3754.9f, 1671.84f, 1000.0f, 10000.0f and 10.0f.
  abbrev f32_one : ℕ
  f32_one = 0x3f80_0000

  unfoldable pub gyro_ratio : ℕ
  gyro_ratio = f32_div f32_one 0x456a_ae66

  unfoldable pub accel_ratio : ℕ
  accel_ratio = f32_div f32_one 0x44d0_fae1

  unfoldable pub mag_ratio : ℕ
  mag_ratio = f32_one

  unfoldable pub milli_ratio : ℕ
  milli_ratio = f32_div f32_one 0x447a_0000

  unfoldable pub parse_vec3d : List ℕ → Vec3d
  parse_vec3d d = record {
    x = f32_of_int (le_i16 d);
    y = f32_of_int (le_i16 (drop 2 d));
    z = f32_of_int (le_i16 (drop 4 d));
  }

  unfoldable pub rearrange_gyro : Vec3d → Vec3d
  rearrange_gyro v = record { x = v.x; y = f32_neg v.y; z = f32_neg v.z }

  unfoldable pub scale_vec3d : Vec3d → ℕ → Vec3d
  scale_vec3d v scale = record {
    x = f32_mul v.x scale;
    y = f32_mul v.y scale;
    z = f32_mul v.z scale;
  }

  -- `le_i16(p) / 10000.0f`
  unfoldable pub angle_at : List ℕ → ℕ
  angle_at p = f32_div (f32_of_int (le_i16 p)) 0x461c_4000

  unfoldable pub parse_payload : Robot → Report → Robot
  parse_payload r rep =
      let d = rep.bytes in
      let n = length d in
      if rep.ext_type == Func.report_speed && leb 7 n
      then record r {
        st = record r.st {
          battery_voltage = f32_div (f32_of_int (pos (get_or d 6 0))) 0x4120_0000;
        };
      }
      else if rep.ext_type == Func.report_mpu_raw && leb 18 n
      then record r {
        st = record r.st {
          imu = record {
            gyro = scale_vec3d (rearrange_gyro (parse_vec3d d)) gyro_ratio;
            acc = scale_vec3d (parse_vec3d (drop 6 d)) accel_ratio;
            mag = scale_vec3d (parse_vec3d (drop 12 d)) mag_ratio;
          };
        };
      }
      else if rep.ext_type == Func.report_icm_raw && leb 18 n
      then record r {
        st = record r.st {
          imu = record {
            gyro = scale_vec3d (parse_vec3d d) milli_ratio;
            acc = scale_vec3d (parse_vec3d (drop 6 d)) milli_ratio;
            mag = scale_vec3d (parse_vec3d (drop 12 d)) milli_ratio;
          };
        };
      }
      else if rep.ext_type == Func.report_imu_att && leb 6 n
      then record r {
        st = record r.st {
          ang = record {
            roll = angle_at d;
            pitch = angle_at (drop 2 d);
            yaw = angle_at (drop 4 d);
          };
        };
      }
      else if rep.ext_type == Func.report_encoder && leb 16 n
      then record r {
        st = record r.st {
          enc = record {
            e1 = le_i32 d;
            e2 = le_i32 (drop 4 d);
            e3 = le_i32 (drop 8 d);
            e4 = le_i32 (drop 12 d);
          };
        };
      }
      else if rep.ext_type == Func.version && leb 2 n
      then record r {
        version = record {
          high = get_or d 0 0;
          low = get_or d 1 0;
          version =
              f32_add (f32_of_int (pos (get_or d 0 0)))
                (f32_div (f32_of_int (pos (get_or d 1 0))) 0x4120_0000);
        };
      }
      else r

  -- `parse_payload` and the count of the waiters' events.
  unfoldable pub deliver_report : Robot → Report → Robot
  deliver_report r rep =
      let r' = parse_payload r rep in
      record r' {
        ev_count = λ t. if t == rep.ext_type then (r'.ev_count t + 1) % 2 ^ 32 else r'.ev_count t;
      }

  -- `while (running_.load())`, for as many rounds as the thread makes.
  unfoldable pub rx_loop : {S : Type 0} → Port S → ℕ → S → Robot → Robot × S
  rx_loop port zero s r = (r, s)
  rx_loop port (suc rounds) s r =
      let (rep, s') = rx_round port s in
      rx_loop port rounds s' (elim rep [ none ↦ r | some p ↦ deliver_report r p ])
