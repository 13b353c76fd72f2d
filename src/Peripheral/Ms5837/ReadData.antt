-- ===== src/Peripheral/Ms5837/ReadData.antt =====
-- `MS5837_I2C::ReadData` of src/Lib/Peripheral/MS5837_I2C.cpp.
use polar_uv_robot.Prelude.{ℕ, ◌+◌, ◌*◌, Bool, false, Bytes, if◌then◌else◌, get_or, replicate}
use polar_uv_robot.Real.{Real}
use polar_uv_robot.Peripheral.I2c.{Ioctl, read, write_byte}
use polar_uv_robot.Peripheral.Task.{sleep_for_ms, Suspended, Body}
use polar_uv_robot.Peripheral.Ms5837.{World, Measure, calculate, smooth}

-- Before the first run, and after each of the three sleeps; the last one knows the pressure.
pub data Point : Type 0 where
  fresh : Point
  starting : Point
  converting : Point
  warming : ℕ → Point

-- Three bytes, the highest first.
unfoldable pub word_of : Bytes → ℕ
word_of b = (get_or b 0 0 * 256 + get_or b 1 0) * 256 + get_or b 2 0

module _ {ℓ} {B R : Type ℓ} ⦃f : Real R⦄ (ioctl : Ioctl B) (sensor_address : ℕ) (pi : R) where
  abbrev pub suspend : Point → ℕ → Bool → World B R → Suspended Point (World B R)
  suspend p ms a w = record { point = p; timespec = sleep_for_ms ms; is_active = a; world = w }

  -- `break`, and `co_yield false` behind the inner loop.
  abbrev pub lost : World B R → Suspended Point (World B R)
  lost w = suspend starting 10 false w

  abbrev pub on_bus : B → World B R → World B R
  on_bus b w = record w { bus = b }

  -- `SetData`, with the filters as they are then.
  unfoldable pub publish : ℕ → ℕ → World B R → World B R
  unfolding calculate smooth
  publish d1 d2 w =
      let measure : Measure R = record {
        fluid_density = w.ms.fluid_density;
        d1_pressure = d1;
        d2_temperature = d2;
      } in
      let (data_, group) = smooth pi (calculate measure w.ms.calibration) w.ms.filters in
      record w { ms = record w.ms { stored = data_; filters = group } }

  unfoldable pub read_data : Body Point (World B R)
  unfolding read write_byte sleep_for_ms word_of publish
  read_data fresh a w = suspend starting 10 a w
  read_data starting a w =
      let (done, bus) = write_byte ioctl sensor_address 0x4A w.bus in
      if done then suspend converting 20 a (on_bus bus w) else lost (on_bus bus w)
  read_data converting a w =
      let (asked, bus) = write_byte ioctl sensor_address 0x00 w.bus in
      let ((done, bytes), bus1) = read ioctl sensor_address (replicate 3 0) bus in
      let (started, bus2) = write_byte ioctl sensor_address 0x5A bus1 in
      if asked
      then if done
        then if started
          then suspend (warming (word_of bytes)) 20 a (on_bus bus2 w)
          else lost (on_bus bus2 w)
        else lost (on_bus bus1 w)
      else lost (on_bus bus w)
  read_data (warming d1) a w =
      let (asked, bus) = write_byte ioctl sensor_address 0x00 w.bus in
      let ((done, bytes), bus1) = read ioctl sensor_address (replicate 3 0) bus in
      if asked
      then if done
        then suspend starting 10 a (publish d1 (word_of bytes) (on_bus bus1 w))
        else lost (on_bus bus1 w)
      else lost (on_bus bus w)
