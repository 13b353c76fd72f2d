-- ===== src/Peripheral/Ads1115.antt =====
-- src/Lib/Peripheral/ADS1115_I2C.cpp and src/Lib/Peripheral/ADS1115: the analog converter, and the
-- coroutines that wait for ever, which BMP280_I2C.cpp has too.
pub mod Waits
pub mod Words
use polar_uv_robot.Prelude.{
  ℕ, zero, suc, ◌+◌, ◌*◌, ◌/◌, ◌%◌, ◌^◌, Bool, true, false, Option, none, some, ltb, ◌==◌, not,
  if◌then◌else◌,
}
use polar_uv_robot.Prelude.Int.{ℤ, pos, negsuc}
use polar_uv_robot.Real.{Real, ◌⊗◌, ◌⊘◌, whole}
use polar_uv_robot.Peripheral.I2c.{Ioctl, read_byte_from_register, write_byte_to_register}
use polar_uv_robot.Peripheral.Task.{sleep_for_ms, Suspended, Body}
use polar_uv_robot.Peripheral.Bno055.{int16_of}
use Prim.Native.Nat.{bit_or}

-- `PointerRegisters`
abbrev pub convert : ℕ
convert = 0x00

abbrev pub config : ℕ
config = 0x01

abbrev pub hithresh : ℕ
hithresh = 0x03

-- The fields of `ConfigRegisters` that the driver sets.
abbrev pub os_single : ℕ
os_single = 0x8000

abbrev pub mux_single : ℕ → ℕ
mux_single channel = 0x4000 + channel * 0x1000

abbrev pub mode_contin : ℕ
mode_contin = 0x0000

abbrev pub mode_single : ℕ
mode_single = 0x0100

abbrev pub cmode_trad : ℕ
cmode_trad = 0x0000

abbrev pub cpol_actvlow : ℕ
cpol_actvlow = 0x0000

abbrev pub clat_nonlat : ℕ
clat_nonlat = 0x0000

abbrev pub clat_latch : ℕ
clat_latch = 0x0004

abbrev pub cque_1conv : ℕ
cque_1conv = 0x0000

abbrev pub cque_none : ℕ
cque_none = 0x0003

pub data Gain : Type 0 where
  twothirds one two four eight sixteen : Gain

unfoldable pub gain_word : Gain → ℕ
gain_word twothirds = 0x0000
gain_word one = 0x0200
gain_word two = 0x0400
gain_word four = 0x0600
gain_word eight = 0x0800
gain_word sixteen = 0x0A00

pub data DataRate : Type 0 where
  sps8 sps16 sps32 sps64 sps128 sps250 sps475 sps860 : DataRate

unfoldable pub rate_word : DataRate → ℕ
rate_word sps8 = 0x0000
rate_word sps16 = 0x0020
rate_word sps32 = 0x0040
rate_word sps64 = 0x0060
rate_word sps128 = 0x0080
rate_word sps250 = 0x00A0
rate_word sps475 = 0x00C0
rate_word sps860 = 0x00E0

-- The fields of the class.
pub record Converter : Type 0 where
  pub gain : Gain
  pub data_rate : DataRate
  pub address : ℕ

-- The `switch` over the channel: another channel sets no bit.
unfoldable pub or_channel : ℕ → ℕ → ℕ
or_channel channel word = if ltb channel 4 then bit_or word (mux_single channel) else word

unfoldable pub read_config : Converter → ℕ → ℕ
unfolding gain_word rate_word or_channel
read_config c channel =
    let start =
      bit_or cque_none (bit_or clat_nonlat (bit_or cpol_actvlow (bit_or cmode_trad mode_single))) in
    let word = bit_or start (bit_or (gain_word c.gain) (rate_word c.data_rate)) in
    bit_or (or_channel channel word) os_single

unfoldable pub comparator_config : Converter → ℕ → ℕ
unfolding gain_word rate_word or_channel
comparator_config c channel =
    let start =
      bit_or cque_1conv (bit_or clat_latch (bit_or cpol_actvlow (bit_or cmode_trad mode_contin))) in
    or_channel channel (bit_or start (bit_or (gain_word c.gain) (rate_word c.data_rate)))

module _ {ℓ} {B : Type ℓ} (ioctl : Ioctl B) (c : Converter) where
  -- `WriteRegister`, which hands a word to a function that takes a byte.
  unfoldable pub write_register : ℕ → ℕ → B → B
  unfolding write_byte_to_register
  write_register reg value b = (write_byte_to_register ioctl c.address reg value b).1

  -- The bit that is tested is the highest one of a word.
  unfoldable pub conversion_complete : B → Bool × B
  unfolding read_byte_from_register
  conversion_complete b =
      let ((x, done), b') = read_byte_from_register ioctl c.address config b in
      (not (x / 0x8000 % 2 == 0), b')

  -- `while (!ConversionComplete())`; none means that the fuel ran out.
  unfoldable pub wait_conversion : ℕ → B → Option B
  unfolding conversion_complete
  wait_conversion zero b = none
  wait_conversion (suc fuel) b =
      let (complete, b') = conversion_complete b in
      let rest = wait_conversion fuel b' in if complete then some b' else rest

  unfoldable pub get_last_conversion_results : B → ℤ × B
  unfolding read_byte_from_register int16_of
  get_last_conversion_results b =
      let ((x, done), b') = read_byte_from_register ioctl c.address convert b in
      (int16_of (x % 256) (x / 256), b')

  -- `ReadADC_SingleEnded`
  unfoldable pub read_adc_single_ended : ℕ → ℕ → B → Option (ℤ × B)
  unfolding read_config write_register wait_conversion get_last_conversion_results
  read_adc_single_ended fuel channel b =
      if ltb 3 channel
      then some (pos 0, b)
      else (elim (wait_conversion fuel (write_register config (read_config c channel) b)) [
        | none ↦ none
        | some b' ↦ some (get_last_conversion_results b')
      ])

  -- `StartComparator_SingleEnded`, with the threshold by its 16 bits.
  unfoldable pub start_comparator_single_ended : ℕ → ℕ → B → B
  unfolding comparator_config write_register
  start_comparator_single_ended channel threshold b =
      write_register config (comparator_config c channel) (write_register hithresh threshold b)

module _ {ℓ} {R : Type ℓ} ⦃f : Real R⦄ where
  -- The range of a gain, in volts.
  unfoldable pub fs_range : Gain → R
  fs_range twothirds = f.lit 6144 1000
  fs_range one = f.lit 4096 1000
  fs_range two = f.lit 2048 1000
  fs_range four = f.lit 1024 1000
  fs_range eight = f.lit 512 1000
  fs_range sixteen = f.lit 256 1000

  unfoldable pub compute_volts : Converter → ℤ → R
  unfolding fs_range
  compute_volts c counts = f.of_int counts ⊗ (fs_range c.gain ⊘ whole 0x8000)

-- The coroutines `Init` and `ReadData` of the converter, and of BMP280.
pub data Point : Type 0 where
  fresh waiting : Point

module _ {ℓ} {W : Type ℓ} where
  unfoldable pub idle : Body Point W
  unfolding sleep_for_ms
  idle p a w = record { point = waiting; timespec = sleep_for_ms 100; is_active = false; world = w }
