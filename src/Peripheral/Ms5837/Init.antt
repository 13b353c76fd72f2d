-- ===== src/Peripheral/Ms5837/Init.antt =====
-- `MS5837_I2C::Init` of src/Lib/Peripheral/MS5837_I2C.cpp.
use polar_uv_robot.Prelude.{
  ℕ, zero, suc, ◌+◌, ◌*◌, ◌/◌, ◌^◌, Bool, true, false, ◌&&◌, [], ◌∷◌, ◌==◌, if◌then◌else◌, get_or,
  set,
}
use polar_uv_robot.Peripheral.I2c.{Ioctl, read, write_byte}
use polar_uv_robot.Peripheral.Task.{sleep_for_ms, Suspended, Body}
use polar_uv_robot.Peripheral.Ms5837.{World, crc4}

-- Before the first run, and after each of the two sleeps.
pub data Point : Type 0 where
  fresh : Point
  attempt : Point
  resetting : Point

module _ {ℓ} {B R : Type ℓ} (ioctl : Ioctl B) (sensor_address : ℕ) where
  abbrev pub suspend : Point → Bool → World B R → Suspended Point (World B R)
  suspend p a w = record { point = p; timespec = sleep_for_ms 10; is_active = a; world = w }

  -- The loop over the calibration words, `n` of them from number `i` on: whether it broke off, and what
  -- it left. The result of a transfer is not looked at, only the two bytes.
  unfoldable pub read_prom : ℕ → ℕ → World B R → Bool × World B R
  unfolding read write_byte
  read_prom zero i w = (false, w)
  read_prom (suc n) i w =
      let (sent, bus) = write_byte ioctl sensor_address (0xA0 + i * 2) w.bus in
      let ((done, bytes), bus') = read ioctl sensor_address (0 ∷ 0 ∷ []) bus in
      let hi = get_or bytes 0 0 in
      let lo = get_or bytes 1 0 in
      let words = set w.ms.calibration i (hi * 256 + lo) in
      let rest =
        read_prom n (i + 1) (record { bus = bus'; ms = record w.ms { calibration = words } }) in
      if (hi == 0) && (lo == 0) then (true, record w { bus = bus' }) else rest

  unfoldable pub init : Body Point (World B R)
  unfolding read_prom write_byte crc4 sleep_for_ms
  init fresh a w = suspend attempt a w
  init attempt a w =
      let (done, bus) = write_byte ioctl sensor_address 0x1E w.bus in
      suspend (if done then resetting else attempt) a (record w { bus = bus })
  init resetting a w =
      let (broken, w') = read_prom 7 0 w in
      let (crc, words) = crc4 w'.ms.calibration in
      let checked : World B R = record w' { ms = record w'.ms { calibration = words } } in
      if broken
      then suspend attempt a w'
      else suspend attempt (if crc == get_or w'.ms.calibration 0 0 / 2 ^ 12 then true else a)
          checked
