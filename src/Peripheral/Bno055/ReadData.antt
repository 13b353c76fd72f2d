-- ===== src/Peripheral/Bno055/ReadData.antt =====
-- `BNO055_I2C::ReadData` of src/Lib/Peripheral/BNO055_I2C.cpp.
use polar_uv_robot.Prelude.{ℕ, Bool, false, Bytes, if◌then◌else◌, replicate}
use polar_uv_robot.Real.{Real}
use polar_uv_robot.Peripheral.I2c.{Ioctl, read_byte_from_register, read_from_register}
use polar_uv_robot.Peripheral.Task.{sleep_for_us, Suspended, Body}
use polar_uv_robot.Peripheral.Bno055.{
  World, Data, empty_data, calibration_of, acceleration_of, euler_of, int8_of, smooth,
}
use polar_uv_robot.Peripheral.Bno055.Registers.{
  linear_accel_data_x_lsb_reg, euler_h_lsb_reg, temp_reg, calib_stat_reg,
}

-- Where `ReadData` is suspended, with what it has read so far.
pub data Point {ℓ} (R : Type ℓ) : Type ℓ where
  fresh : Point R
  calibrating : Point R
  accelerating : Data R → Point R
  turning : Data R → Bytes → Point R
  warming : Data R → Point R

module _ {ℓ} {B R : Type ℓ} ⦃f : Real R⦄ (ioctl : Ioctl B) (sensor_address : ℕ) (pi : R) where
  abbrev pub sleep : Point R → Bool → World B R → Suspended (Point R) (World B R)
  sleep p a w = record { point = p; timespec = sleep_for_us 2500; is_active = a; world = w }

  -- `break`, and `co_yield false` behind the inner loop.
  abbrev pub lost : World B R → Suspended (Point R) (World B R)
  lost w = sleep calibrating false w

  -- `SetData`, with the filters as they are then.
  unfoldable pub publish : Data R → World B R → World B R
  unfolding smooth
  publish d w =
      let (d', group) = smooth pi d w.bno.filters in
      record w { bno = record { stored = d'; filters = group } }

  unfoldable pub read_data : Body (Point R) (World B R)
  unfolding read_byte_from_register read_from_register sleep_for_us publish calibration_of
      acceleration_of euler_of int8_of empty_data
  read_data fresh a w = sleep calibrating a w
  read_data calibrating a w =
      let ((x, is_active), bus) =
        read_byte_from_register ioctl sensor_address calib_stat_reg w.bus in
      let w' = record w { bus = bus } in
      if is_active
      then sleep (accelerating (record empty_data { calibration = calibration_of x })) a w'
      else lost w'
  read_data (accelerating d) a w =
      let ((done, buffer), bus) =
        read_from_register ioctl sensor_address linear_accel_data_x_lsb_reg (replicate 6 0) w.bus in
      let w' = record w { bus = bus } in
      if done
      then sleep (turning (record d { linear_acceleration = acceleration_of buffer }) buffer) a w'
      else lost w'
  read_data (turning d buffer) a w =
      let ((done, buffer'), bus) =
        read_from_register ioctl sensor_address euler_h_lsb_reg buffer w.bus in
      let w' = record w { bus = bus } in
      if done then sleep (warming (record d { euler_angle = euler_of buffer' })) a w' else lost w'
  read_data (warming d) a w =
      let ((x, is_active), bus) = read_byte_from_register ioctl sensor_address temp_reg w.bus in
      let w' = record w { bus = bus } in
      if is_active
      then sleep calibrating a (publish (record d { temperature = int8_of x }) w')
      else lost w'
