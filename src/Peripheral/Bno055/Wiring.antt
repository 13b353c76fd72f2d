-- ===== src/Peripheral/Bno055/Wiring.antt =====
-- The orientation sensor under the handler: src/Lib/Peripheral/SensorHandler.cpp resuming the two
-- coroutines of src/Lib/Peripheral/BNO055_I2C.cpp.
use polar_uv_robot.Prelude.{
  ℕ, ◌^◌, ◌<◌, ◌≡◌, refl, ap, Bool, true, false, if◌then◌else◌, List, [], ◌∷◌, Option, none, some,
  arith, replicate,
}
use polar_uv_robot.Real.{Real}
use polar_uv_robot.Peripheral.I2c.{Ioctl, Message, register_read}
use polar_uv_robot.Peripheral.Task.{Body}
use polar_uv_robot.Peripheral.Handler.{SensorContext, online, offline, tick}
use polar_uv_robot.Peripheral.Bno055.{World}
use polar_uv_robot.Peripheral.Bno055.Registers.{
  linear_accel_data_x_lsb_reg, euler_h_lsb_reg, temp_reg, calib_stat_reg,
}
use polar_uv_robot.Peripheral.Bno055.Init as Init
use polar_uv_robot.Peripheral.Bno055.ReadData as ReadData

-- A point of either coroutine.
pub data Point {ℓ} (R : Type ℓ) : Type ℓ where
  initialising : Init.Point → Point R
  reading : ReadData.Point R → Point R

module _ {ℓ} {B R : Type ℓ} ⦃f : Real R⦄ (ioctl : Ioctl B) (sensor_address mode : ℕ) (pi : R) where
  unfoldable pub resume : Body (Point R) (World B R)
  resume (initialising p) a w =
      let s = Init.init ioctl sensor_address mode p a w in
      record {
        point = initialising s.point;
        timespec = s.timespec;
        is_active = s.is_active;
        world = s.world;
      }
  resume (reading p) a w =
      let s = ReadData.read_data ioctl sensor_address pi p a w in
      record {
        point = reading s.point;
        timespec = s.timespec;
        is_active = s.is_active;
        world = s.world;
      }

  init-armed :
      (p : Init.Point) (a : Bool) (w : World B R)
      → (0 < (Init.init ioctl sensor_address mode p a w).timespec)
        × ((Init.init ioctl sensor_address mode p a w).timespec < 10 ^ 9)
  unfolding Init.init
  init-armed Init.fresh a w = omega arith
  init-armed p a w = ground arith

  read_data-armed :
      (p : ReadData.Point R) (a : Bool) (w : World B R)
      → (0 < (ReadData.read_data ioctl sensor_address pi p a w).timespec)
        × ((ReadData.read_data ioctl sensor_address pi p a w).timespec < 10 ^ 9)
  unfolding ReadData.read_data
  read_data-armed ReadData.fresh a w = omega arith
  read_data-armed p a w = ground arith

  resume-armed :
      (p : Point R) (a : Bool) (w : World B R)
      → (0 < (resume p a w).timespec) × ((resume p a w).timespec < 10 ^ 9)
  unfolding resume
  resume-armed (initialising p) a w = init-armed p a w
  resume-armed (reading p) a w = read_data-armed p a w

  -- Whatever the bus does, every event sets the timer of the sensor to a time that the kernel accepts
  -- and that does not disarm it: above zero, and below a second in nanoseconds.
  pub tick-armed :
      (c : SensorContext (Point R)) (w : World B R)
      → (0 < (tick resume c w).0.armed) × ((tick resume c w).0.armed < 10 ^ 9)
  unfolding tick
  tick-armed c w = ground (
    arith,
    resume-armed c.read_data.point c.read_data.is_active w,
    resume-armed c.init.point c.init.is_active w,
  )

  -- What `ReadData` asks of the bus when it is resumed; nothing before its first sleep.
  unfoldable pub request : ReadData.Point R → Option (List Message)
  request ReadData.fresh = none
  request ReadData.calibrating = some (register_read sensor_address calib_stat_reg (0 ∷ []))
  request (ReadData.accelerating d) =
      some (register_read sensor_address linear_accel_data_x_lsb_reg (replicate 6 0))
  request (ReadData.turning d buffer) = some (register_read sensor_address euler_h_lsb_reg buffer)
  request (ReadData.warming d) = some (register_read sensor_address temp_reg (0 ∷ []))

  -- A sensor that is online and about to ask the bus for `ms`.
  pub record IsAsking (c : SensorContext (Point R)) (ms : List Message) : Type ℓ where
    pub at : ReadData.Point R
    pub point : c.read_data.point ≡ reading at
    pub asks : request at ≡ some ms
    pub flag : c.read_data.is_active ≡ true
    pub state : c.state ≡ online

  asked :
      (p : ReadData.Point R) (ms : List Message) (w : World B R)
      → request p ≡ some ms
      → let s = ReadData.read_data ioctl sensor_address pi p true w in
        let (done, _, bus) = ioctl ms w.bus in
        (s.is_active ≡ done)
        × (done ≡ false → (s.point ≡ ReadData.calibrating) × (s.world ≡ record w { bus = bus }))
  unfolding request ReadData.read_data
  asked ReadData.fresh ms w e = cc
  asked p ms w e = ground arith

  -- An online sensor stays online exactly if the bus answers it. If it does not, the data that was
  -- published stays as it was, and the sensor starts over with the calibration when it is back.
  pub tick_asking :
      (c : SensorContext (Point R)) (ms : List Message) (w : World B R)
      → IsAsking c ms
      → let (c', w') = tick resume c w in
        let (done, _, bus) = ioctl ms w.bus in
        (c'.state ≡ (if done then online else offline))
        × (c'.read_data.is_active ≡ true)
        × (done ≡ false
            → (c'.read_data.point ≡ reading ReadData.calibrating) × (w' ≡ record w { bus = bus }))
  unfolding tick resume
  tick_asking c ms w h =
      let s = asked h.at ms w h.asks in
      rw (h.state, tick, h.point, h.flag)
        (rw (s.0, h.state) refl, refl, λ e. (ap reading (s.1 e).0, (s.1 e).1))
