-- ===== src/Peripheral/Ads1115/Waits.antt =====
-- src/Lib/Peripheral/ADS1115_I2C.cpp: what is waited for.
use polar_uv_robot.Prelude.{
  ℕ, zero, suc, ◌*◌, ◌<◌, ◌≡◌, refl, false, none, some, ltb, if◌then◌else◌, arith,
}
use polar_uv_robot.Prelude.Int.{pos}
use polar_uv_robot.Peripheral.I2c.{Ioctl, read_byte_from_register}
use polar_uv_robot.Peripheral.Task.{sleep_for_ms}
use polar_uv_robot.Peripheral.Handler.{SensorContext, offline, tick}
use polar_uv_robot.Peripheral.Ads1115.{
  Point, idle, Converter, config, read_config, write_register, conversion_complete, wait_conversion,
  read_adc_single_ended,
}

module _ {ℓ} {B : Type ℓ} (ioctl : Ioctl B)
    (is_byte : (a reg : ℕ) (b : B) → (read_byte_from_register ioctl a reg b).0.0 < 256)
    (c : Converter) where
  conversion_complete-false : (b : B) → (conversion_complete ioctl c b).0 ≡ false
  unfolding conversion_complete
  conversion_complete-false b = let h = is_byte c.address config b in grind arith

  wait_conversion-none : (fuel : ℕ) (b : B) → wait_conversion ioctl c fuel b ≡ none
  unfolding wait_conversion
  wait_conversion-none zero b = refl
  wait_conversion-none (suc fuel) b =
      let (complete, b') = conversion_complete ioctl c b in
      rw (conversion_complete-false b, wait_conversion-none fuel b')

  -- The wait for a conversion tests a bit that a byte does not have. On every bus, whose registers are
  -- read as bytes, a read of the channels 0 to 3 does not end with any number of rounds; a read of any
  -- other channel returns 0 at once and leaves the bus alone.
  pub read_adc_single_ended_lem :
      (fuel channel : ℕ) (b : B)
      → read_adc_single_ended ioctl c fuel channel b
        ≡ (if ltb channel 4 then none else some (pos 0, b))
  unfolding read_adc_single_ended
  read_adc_single_ended_lem fuel channel b =
      ground
        (arith, wait_conversion-none fuel (write_register ioctl c config (read_config c channel) b))

-- A sensor whose coroutines wait for ever is offline after each of its events, with a timer of 100
-- milliseconds, and asks nothing of the bus.
pub tick-idle {ℓ} :
    {W : Type ℓ} (c : SensorContext Point) (w : W)
    → let (c', w') = tick idle c w in
      (c'.state ≡ offline) × (c'.armed ≡ 100 * 1000 * 1000) × (w' ≡ w)
unfolding tick idle sleep_for_ms
tick-idle c w = ground arith
