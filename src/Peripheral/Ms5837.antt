-- ===== src/Peripheral/Ms5837.antt =====
-- src/Lib/Peripheral/MS5837_I2C.cpp: the pressure sensor, its checksum and its compensation. A signed
-- product of 32 bits that overflows is taken to wrap around.
pub mod Init
pub mod ReadData
pub mod Xor
pub mod Crc
pub mod Words
pub mod Checksum
pub mod Ranges
use polar_uv_robot.Prelude.{
  ℕ, zero, suc, ◌+◌, ◌-◌, ◌*◌, ◌/◌, ◌%◌, ◌^◌, Bool, List, [], ◌∷◌, leb, ltb, ◌==◌, if◌then◌else◌,
  get_or, set,
}
use polar_uv_robot.Prelude.Int.{ℤ, pos, negsuc, pos_part, ◌+ℤ◌, ◌-ℤ◌, ◌*ℤ◌, ltb_ℤ}
use polar_uv_robot.Real.{Real, ◌⊕◌, ◌⊖◌, ◌⊗◌, ◌⊘◌, whole}
use polar_uv_robot.Filters.{Filter, new_moving, filter_at}
use Prim.Native.Nat.{bit_xor}

pub record Data {ℓ} (R : Type ℓ) : Type ℓ where
  pub pressure : R
  pub depth : R
  pub temperature : R

pub record Measure {ℓ} (R : Type ℓ) : Type ℓ where
  pub fluid_density : R
  pub d1_pressure : ℕ
  pub d2_temperature : ℕ

-- The fields of the class; the calibration has eight words.
pub record Ms {ℓ} (R : Type ℓ) : Type ℓ where
  pub stored : Data R
  pub fluid_density : R
  pub calibration : List ℕ
  pub filters : List (Filter R)

pub record World {ℓ} (B R : Type ℓ) : Type ℓ where
  pub bus : B
  pub ms : Ms R

-- The conversion to `int32_t`.
unfoldable pub int32 : ℤ → ℤ
unfolding ◌+ℤ◌ ◌-ℤ◌
int32 (pos n) = let x = n % 2 ^ 32 in if ltb x (2 ^ 31) then pos x else pos x -ℤ pos (2 ^ 32)
int32 (negsuc n) = let x = n % 2 ^ 32 in if ltb x (2 ^ 31) then negsuc x else pos (2 ^ 32 - 1 - x)

-- Division by a positive number, towards zero.
unfoldable pub div_trunc : ℤ → ℕ → ℤ
unfolding ◌-ℤ◌
div_trunc (pos a) n = pos (a / n)
div_trunc (negsuc a) n = pos 0 -ℤ pos (suc a / n)

-- One bit of the checksum.
unfoldable pub crc_bit : ℕ → ℕ
crc_bit r = if leb (2 ^ 15) r then bit_xor (r * 2 % 2 ^ 16) 0x3000 else r * 2

unfoldable pub crc_bits : ℕ → ℕ → ℕ
unfolding crc_bit
crc_bits zero r = r
crc_bits (suc n) r = crc_bits n (crc_bit r)

-- The bytes of the words from number `i` on, `n` of them, the upper byte of each word first.
unfoldable pub crc_bytes : ℕ → ℕ → List ℕ → ℕ → ℕ
unfolding crc_bits
crc_bytes zero i prom r = r
crc_bytes (suc n) i prom r =
    let word = get_or prom (i / 2) 0 in
    let byte = if i % 2 == 1 then word % 256 else word / 256 in
    crc_bytes n (i + 1) prom (crc_bits 8 (bit_xor r byte))

-- `CRC4`: the checksum, and the words as it leaves them.
unfoldable pub crc4 : List ℕ → ℕ × List ℕ
unfolding crc_bytes
crc4 prom =
    let words = set (set prom 0 (get_or prom 0 0 % 2 ^ 12)) 7 0 in
    (crc_bytes 16 0 words 0 / 2 ^ 12 % 16, words)

-- `dT`, and the temperature before its second correction, in hundredths of a degree.
unfoldable pub temperature_difference : ℕ → List ℕ → ℤ
unfolding int32 ◌-ℤ◌ ◌*ℤ◌
temperature_difference d2 c = int32 (pos d2 -ℤ pos (get_or c 5 0) *ℤ pos 256)

unfoldable pub first_temperature : ℤ → List ℕ → ℤ
unfolding int32 div_trunc ◌+ℤ◌ ◌*ℤ◌
first_temperature dt c = int32 (pos 2000 +ℤ div_trunc (dt *ℤ pos (get_or c 6 0)) 8388608)

-- `Ti` of the two branches.
unfoldable pub cold_ti : ℤ → ℤ
unfolding int32 div_trunc ◌*ℤ◌
cold_ti dt = int32 (div_trunc (pos 3 *ℤ dt *ℤ dt) 8589934592)

unfoldable pub warm_ti : ℤ → ℤ
unfolding int32 div_trunc ◌*ℤ◌
warm_ti dt = int32 (div_trunc (int32 (pos 2 *ℤ int32 (dt *ℤ dt))) 137438953472)

-- The integers of `Calculate`: the pressure, and the compensated temperature.
unfoldable pub compensate : ℕ → ℕ → List ℕ → ℤ × ℤ
unfolding temperature_difference first_temperature cold_ti warm_ti int32 div_trunc ◌+ℤ◌ ◌-ℤ◌ ◌*ℤ◌
compensate d1 d2 c =
    let word = λ (i : ℕ). pos (get_or c i 0) in
    let dt = temperature_difference d2 c in
    let sens = word 1 *ℤ pos 32768 +ℤ div_trunc (word 3 *ℤ dt) 256 in
    let off = word 2 *ℤ pos 65536 +ℤ div_trunc (word 4 *ℤ dt) 128 in
    let temperature = first_temperature dt c in
    let t = int32 (temperature -ℤ pos 2000) in
    let u = temperature +ℤ pos 1500 in
    let cold = ltb_ℤ (div_trunc temperature 100) (pos 20) in
    let freezing = ltb_ℤ (div_trunc temperature 100) (negsuc 14) in
    let ti = if cold then cold_ti dt else warm_ti dt in
    let off_cold = div_trunc (int32 (int32 (pos 3 *ℤ t) *ℤ t)) 2 in
    let sens_cold = div_trunc (int32 (int32 (pos 5 *ℤ t) *ℤ t)) 8 in
    let off_i =
      if cold
      then if freezing then int32 (off_cold +ℤ pos 7 *ℤ u *ℤ u) else off_cold
      else div_trunc (int32 (t *ℤ t)) 16 in
    let sens_i =
      if cold
      then if freezing then int32 (sens_cold +ℤ pos 4 *ℤ u *ℤ u) else sens_cold
      else pos 0 in
    let scaled = div_trunc (pos d1 *ℤ (sens -ℤ sens_i)) 2097152 in
    (int32 (div_trunc (scaled -ℤ (off -ℤ off_i)) 8192), int32 (temperature -ℤ ti))

-- `SetFluidDensity`
unfoldable pub set_fluid_density {ℓ} : {R : Type ℓ} → R → Ms R → Ms R
set_fluid_density density ms = record ms { fluid_density = density }

module _ {ℓ} {R : Type ℓ} ⦃f : Real R⦄ where
  -- `Calculate`
  unfoldable pub calculate : Measure R → List ℕ → Data R
  unfolding compensate
  calculate m c =
      let (pressure, temperature) = compensate m.d1_pressure m.d2_temperature c in
      let p = f.of_int pressure in
      record {
        pressure = p ⊗ f.lit 1 1000 ⊘ whole 10;
        depth = (p ⊗ whole 10 ⊖ whole 101300) ⊘ (m.fluid_density ⊗ f.lit 980665 100000);
        temperature = f.of_int temperature ⊘ whole 100;
      }

  unfoldable pub ms_filters : List (Filter R)
  unfolding new_moving
  ms_filters = new_moving 2 ∷ new_moving 2 ∷ new_moving 2 ∷ []

  -- The three calls of the filters, in their order: depth, pressure, temperature.
  unfoldable pub smooth : R → Data R → List (Filter R) → Data R × List (Filter R)
  unfolding filter_at
  smooth pi d g =
      let (depth, g1) = filter_at pi 0 d.depth g in
      let (pressure, g2) = filter_at pi 1 d.pressure g1 in
      let (temperature, g3) = filter_at pi 2 d.temperature g2 in
      (record { pressure = pressure; depth = depth; temperature = temperature }, g3)
