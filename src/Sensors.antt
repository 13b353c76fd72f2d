-- ===== src/Sensors.antt =====
-- src/Robot/Features/Sensors: the service that hands out what the two sensors last published. The
-- bytes of a `float` are a parameter, as are the three bytes of padding behind the last field.

pub mod Layout
mod Tests
use polar_uv_robot.Prelude.{ℕ, true, if◌then◌else◌, List, [], ◌∷◌, ◌++◌, Bytes, get_or}
use polar_uv_robot.Real.{Real, Convert, whole}
use polar_uv_robot.Network.Exec.{Exec, pure}
use polar_uv_robot.Network.Service.{IService, base_service}
use polar_uv_robot.Peripheral.Bno055 as Bno055
use polar_uv_robot.Peripheral.Ms5837 as Ms5837
use polar_uv_robot.Commands.Struct.{SensorsStruct}

-- The two sensors that `Sensors` holds.
pub record SensorsState {ℓ} (D : Type ℓ) : Type ℓ where
  pub bno055 : Bno055.Bno D
  pub ms5837 : Ms5837.Ms D

module _ {ℓ κ} {F : Type ℓ} {D : Type κ} ⦃f : Real F⦄ ⦃conv : Convert F D⦄ where
  -- What no sensor sets keeps the value it is declared with.
  unfoldable pub get_sensors_struct : SensorsState D → SensorsStruct F
  get_sensors_struct s =
      let bno = s.bno055.stored in
      let ms = s.ms5837.stored in
      record {
        rotation = record {
          e0 = conv.narrow bno.euler_angle.x;
          e1 = conv.narrow bno.euler_angle.y;
          e2 = conv.narrow bno.euler_angle.z;
          e3 = whole 0;
        };
        acceleration =
            conv.narrow bno.linear_acceleration.x
            ∷ conv.narrow bno.linear_acceleration.y
            ∷ conv.narrow bno.linear_acceleration.z
            ∷ [];
        depth = conv.narrow ms.depth;
        pressure = whole 0;
        battery_voltage = whole 0;
        motion_calibration =
            get_or bno.calibration 0 0
            ∷ get_or bno.calibration 1 0
            ∷ get_or bno.calibration 2 0
            ∷ get_or bno.calibration 3 0
            ∷ [];
        euler = true;
      }

module _ {ℓ} {F : Type ℓ} (bytes_of : F → Bytes) where
  unfoldable pub floats_bytes : List F → Bytes
  floats_bytes [] = []
  floats_bytes (x ∷ xs) = bytes_of x ++ floats_bytes xs

  -- The struct in memory.
  unfoldable pub sensors_bytes : Bytes → SensorsStruct F → Bytes
  unfolding floats_bytes
  sensors_bytes pad s =
      let q = s.rotation in
      floats_bytes (q.e0 ∷ q.e1 ∷ q.e2 ∷ q.e3 ∷ [])
      ++ (floats_bytes s.acceleration
          ++ (floats_bytes (s.depth ∷ s.pressure ∷ s.battery_voltage ∷ [])
              ++ (s.motion_calibration ++ ((if s.euler then 1 else 0) ∷ pad))))

module _ {ℓ κ} {F : Type ℓ} (D : Type κ) ⦃f : Real F⦄ ⦃conv : Convert F D⦄ (bytes_of : F → Bytes)
    (pad : Bytes) where
  -- `Sensors::Read`
  unfoldable pub read : Exec (SensorsState D) Bytes
  unfolding get_sensors_struct sensors_bytes
  read s = pure (sensors_bytes bytes_of pad (get_sensors_struct s)) s

  unfoldable pub sensors_service : ℕ → IService (SensorsState D)
  unfolding read base_service
  sensors_service id = record {
    service_id = id;
    read_validate = (base_service id).read_validate;
    write_validate = (base_service id).write_validate;
    write_read_validate = (base_service id).write_read_validate;
    read = read;
    write = (base_service id).write;
    write_read = (base_service id).write_read;
    connection_lost = (base_service id).connection_lost;
  }
