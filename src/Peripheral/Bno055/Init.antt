-- ===== src/Peripheral/Bno055/Init.antt =====
-- `BNO055_I2C::Init` of src/Lib/Peripheral/BNO055_I2C.cpp.
use polar_uv_robot.Prelude.{ℕ, ◌+◌, Bool, true, not, ◌||◌, ◌==◌, if◌then◌else◌}
use polar_uv_robot.Peripheral.I2c.{Ioctl, read_byte_from_register, write_byte_to_register}
use polar_uv_robot.Peripheral.Task.{Nanoseconds, sleep_for_ms, Suspended, Body}
use polar_uv_robot.Peripheral.Bno055.{World}
use polar_uv_robot.Peripheral.Bno055.Registers.{
  chip_id, page_id_reg, chip_id_reg, opr_mode_reg, pwr_mode_reg, sys_trigger_reg, power_mode_normal,
  operation_mode_config,
}

-- Where `Init` is suspended: before its first run, and at each `co_await` in the order of the text.
-- `probing i` is the wait for the chip to come up again, with `i` tries made.
pub data Point : Type 0 where
  fresh : Point
  attempt : Point
  probing : ℕ → Point
  powering : Point
  triggering : Point
  choosing : Point
  settled : Point

module _ {ℓ} {B R : Type ℓ} (ioctl : Ioctl B) (sensor_address mode : ℕ) where
  abbrev pub suspend : Point → Nanoseconds → Bool → World B R → Suspended Point (World B R)
  suspend p t a w = record { point = p; timespec = t; is_active = a; world = w }

  -- The head of `for (;;)`.
  unfoldable pub again : Bool → World B R → Suspended Point (World B R)
  unfolding sleep_for_ms
  again a w = suspend attempt (sleep_for_ms 10) a w

  -- A write to a register; if it fails, `continue`.
  abbrev pub write_or_again :
      ℕ
      → ℕ
      → Bool
      → World B R
      → (World B R → Suspended Point (World B R))
      → Suspended Point (World B R)
  write_or_again reg x a w next =
      let (done, bus) = write_byte_to_register ioctl sensor_address reg x w.bus in
      let w' = record w { bus = bus } in if done then next w' else again a w'

  unfoldable pub init : Body Point (World B R)
  unfolding again sleep_for_ms
  init fresh a w = again a w
  init attempt a w =
      let ((id, is_active), bus) = read_byte_from_register ioctl sensor_address chip_id_reg w.bus in
      let w' = record w { bus = bus } in
      if not (id == chip_id) || not is_active
      then again a w'
      else write_or_again opr_mode_reg operation_mode_config a w'
          λ w''. write_or_again sys_trigger_reg 0x20 a w'' (suspend (probing 0) (sleep_for_ms 50) a)
  init (probing i) a w =
      let ((id, is_active), bus) = read_byte_from_register ioctl sensor_address chip_id_reg w.bus in
      let w' = record w { bus = bus } in
      if id == chip_id
      then suspend powering (sleep_for_ms 50) a w'
      else if i == 100
      then again a w'
      else suspend (probing (i + 1)) (sleep_for_ms 30) a w'
  init powering a w =
      write_or_again pwr_mode_reg power_mode_normal a w (suspend triggering (sleep_for_ms 10) a)
  init triggering a w =
      write_or_again page_id_reg 0 a w
        λ w'. write_or_again sys_trigger_reg 0x0 a w' (suspend choosing (sleep_for_ms 30) a)
  init choosing a w = write_or_again opr_mode_reg mode a w (suspend settled (sleep_for_ms 100) a)
  init settled a w = again true w
