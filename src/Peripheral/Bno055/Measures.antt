-- ===== src/Peripheral/Bno055/Measures.antt =====
-- What `BNO055_I2C::ReadData` of src/Lib/Peripheral/BNO055_I2C.cpp makes of the registers that
-- src/Lib/Peripheral/BNO055/BNO055.hpp names.
use polar_uv_robot.Prelude.{ℕ, zero, suc, ◌+◌, ◌≡◌, refl, Bool, true, [], ◌∷◌, Bytes, replicate}
use polar_uv_robot.Real.{Real, ◌⊘◌, whole}
use polar_uv_robot.Peripheral.I2c.{
  Ioctl, message, byte, register_read, i2c_m_rd, i2c_m_nostart, read_byte_from_register,
  read_from_register,
}
use polar_uv_robot.Peripheral.Task.{Suspended, sleep_for_us}
use polar_uv_robot.Peripheral.Bno055.{
  World, Axes, Data, triple, int16_of, int8_of, calibration_of, acceleration_of, euler_of,
  empty_data, smooth,
}
use polar_uv_robot.Peripheral.Bno055.ReadData.{
  Point, calibrating, accelerating, turning, warming, read_data, publish,
}
use polar_uv_robot.Peripheral.Bno055.Enumerations.{
  Register, address_of, euler_h_lsb_reg, euler_h_msb_reg, euler_r_lsb_reg, euler_r_msb_reg,
  euler_p_lsb_reg, euler_p_msb_reg, linear_accel_data_x_lsb_reg, linear_accel_data_x_msb_reg,
  linear_accel_data_y_lsb_reg, linear_accel_data_y_msb_reg, linear_accel_data_z_lsb_reg,
  linear_accel_data_z_msb_reg, temp_reg, calib_stat_reg,
}

-- The registers from `reg` on, as many as there is room for.
unfoldable pub block : (ℕ → ℕ) → ℕ → Bytes → Bytes
block registers reg [] = []
block registers reg (_ ∷ room) = registers reg ∷ block registers (reg + 1) room

module _ {ℓ} {B : Type ℓ} (registers : B → ℕ → ℕ) where
  -- The sensor answers a read with its registers, and time passes, in which they may change.
  pub record Answers (ioctl : Ioctl B) (sensor_address : ℕ) (later : B → B) : Type ℓ where
    pub answers :
        (reg : ℕ) (room : Bytes) (b : B)
        → ioctl (register_read sensor_address reg room) b ≡ (
          true,
          message sensor_address 0 (byte reg ∷ [])
              ∷ message sensor_address
                  (i2c_m_rd + i2c_m_nostart)
                  (block (registers b) (byte reg) room)
              ∷ [],
          later b,
        )

  abbrev value : B → Register → ℕ
  unfolding address_of
  value b r = registers b (address_of r)

module _ {ℓ} {B R : Type ℓ} ⦃f : Real R⦄ (registers : B → ℕ → ℕ) (later : B → B) where
  -- A register of 16 bits with a sign, and `n` of its units.
  abbrev in_units : ℕ → B → Register → Register → R
  unfolding int16_of
  in_units n b lsb msb =
      f.of_int (int16_of (value registers b lsb) (value registers b msb)) ⊘ whole n

  -- The acceleration, in hundredths.
  measured_acceleration : B → Axes R
  unfolding address_of int16_of
  measured_acceleration b =
      triple (in_units 100 b linear_accel_data_x_lsb_reg linear_accel_data_x_msb_reg)
        (in_units 100 b linear_accel_data_y_lsb_reg linear_accel_data_y_msb_reg)
        (in_units 100 b linear_accel_data_z_lsb_reg linear_accel_data_z_msb_reg)

  -- The pitch is the angle about X, the roll with its sign turned the one about Y, and the heading the
  -- one about Z, in sixteenths.
  measured_angles : B → Axes R
  unfolding address_of int16_of
  measured_angles b =
      triple (in_units 16 b euler_p_lsb_reg euler_p_msb_reg)
        (f.neg (
            f.of_int
              (int16_of (value registers b euler_r_lsb_reg) (value registers b euler_r_msb_reg)))
          ⊘ whole 16)
        (in_units 16 b euler_h_lsb_reg euler_h_msb_reg)

  -- What there is to measure from `b` on, one reading after the other.
  pub measured : B → Data R
  unfolding calibration_of int8_of address_of measured_acceleration measured_angles
  measured b = record {
    calibration = calibration_of (value registers b calib_stat_reg);
    linear_acceleration = measured_acceleration (later b);
    euler_angle = measured_angles (later (later b));
    temperature = int8_of (value registers (later (later (later b))) temp_reg);
  }

  module _ (ioctl : Ioctl B) (sensor_address : ℕ) (pi : R) where
    -- `n` resumptions of `ReadData`.
    pub resumed : ℕ → Suspended (Point R) (World B R) → Suspended (Point R) (World B R)
    resumed zero s = s
    resumed (suc n) s = resumed n (read_data ioctl sensor_address pi s.point s.is_active s.world)

    module _ (sensor : Answers registers ioctl sensor_address later) (a : Bool)
        (w : World B R) where
      abbrev on : B → World B R
      on b = record w { bus = b }

      abbrev asleep : Point R → World B R → Suspended (Point R) (World B R)
      asleep p w' = record { point = p; timespec = 2500000; is_active = a; world = w' }

      calibrated : Data R
      unfolding empty_data
      calibrated = record empty_data {
        calibration = calibration_of (value registers w.bus calib_stat_reg);
      }

      read_calibration :
          read_data ioctl sensor_address pi calibrating a w
          ≡ asleep (accelerating calibrated) (on (later w.bus))
      unfolding read_data read_byte_from_register sleep_for_us calibrated block address_of
      read_calibration = rw (sensor.answers 0x35 (0 ∷ []) w.bus) refl

      -- What the second read leaves in the buffer.
      abbrev six : B → Bytes
      unfolding block
      six b = block (registers b) 0x28 (replicate 6 0)

      read_acceleration :
          (d : Data R) (b : B)
          → read_data ioctl sensor_address pi (accelerating d) a (on b)
            ≡ asleep
                (turning (record d { linear_acceleration = measured_acceleration b }) (six b))
                (on (later b))
      unfolding read_data read_from_register sleep_for_us block address_of measured_acceleration
          acceleration_of
      read_acceleration d b = rw (sensor.answers 0x28 (replicate 6 0) b) refl

      read_angles :
          (d : Data R) (b b' : B)
          → read_data ioctl sensor_address pi (turning d (six b')) a (on b)
            ≡ asleep (warming (record d { euler_angle = measured_angles b })) (on (later b))
      unfolding read_data read_from_register sleep_for_us block address_of measured_angles euler_of
      read_angles d b b' = rw (sensor.answers 0x1A (six b') b) refl

      read_temperature :
          (d : Data R) (b : B)
          → read_data ioctl sensor_address pi (warming d) a (on b)
            ≡ asleep calibrating (
                publish ioctl sensor_address pi
                  (record d { temperature = int8_of (value registers b temp_reg) })
                  (on (later b)))
      unfolding read_data read_byte_from_register sleep_for_us block address_of
      read_temperature d b = rw (sensor.answers 0x34 (0 ∷ []) b) refl

      -- A sensor answers every read with its registers, which may change from one read to the next.
      -- Then four resumptions of `ReadData`, from where it waits for the calibration, bring it there
      -- again, and have published what was measured, through the filters: the calibration,
      -- the acceleration, the angles and the temperature, each of the registers with its name.
      pub resumed-measured :
          (t : ℕ)
          → (let s =
                resumed 4
                  (record { point = calibrating; timespec = t; is_active = a; world = w }) in
              let (shown, filters) = smooth pi (measured w.bus) w.bno.filters in
              (s.point ≡ calibrating)
              × (s.is_active ≡ a)
              × (s.timespec ≡ sleep_for_us 2500)
              × (s.world ≡ record {
                bus = later (later (later (later w.bus)));
                bno = record { stored = shown; filters = filters };
              }))
      unfolding resumed measured publish sleep_for_us calibrated empty_data
      resumed-measured t =
          rw
            (
              resumed,
              read_calibration,
              read_acceleration calibrated (later w.bus),
              read_angles _ (later (later w.bus)) (later w.bus),
              read_temperature _ (later (later (later w.bus))),
            )
            (refl, refl, refl, refl)
