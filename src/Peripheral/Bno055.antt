-- ===== src/Peripheral/Bno055.antt =====
-- src/Lib/Peripheral/BNO055_I2C.cpp and BNO055/BNO055.hpp: the orientation sensor. Each coroutine is a
-- machine whose points are its `co_await`s.
pub mod Registers
pub mod Enumerations
pub mod Measures
pub mod Init
pub mod ReadData
pub mod Wiring
pub mod BringUp
use polar_uv_robot.Prelude.{
  ℕ, ◌+◌, ◌-◌, ◌*◌, ◌/◌, ◌%◌, ◌^◌, Bool, List, [], ◌∷◌, Bytes, ltb, if◌then◌else◌, get_or,
}
use polar_uv_robot.Prelude.Int.{ℤ, pos, negsuc}
use polar_uv_robot.Real.{Real, ◌⊕◌, ◌⊗◌, ◌⊘◌, whole}
use polar_uv_robot.Filters.{Filter, new_moving, new_circle, filter_at}

pub record Axes {ℓ} (R : Type ℓ) : Type ℓ where
  pub x : R
  pub y : R
  pub z : R

-- `BNO055::Data`, without the quaternion and the magnetic field, which nothing sets.
pub record Data {ℓ} (R : Type ℓ) : Type ℓ where
  pub euler_angle : Axes R
  pub linear_acceleration : Axes R
  pub calibration : List ℕ
  pub temperature : ℤ

-- `data_` and `filters_`.
pub record Bno {ℓ} (R : Type ℓ) : Type ℓ where
  pub stored : Data R
  pub filters : List (Filter R)

-- The bus and the sensor.
pub record World {ℓ} (B R : Type ℓ) : Type ℓ where
  pub bus : B
  pub bno : Bno R

-- `(int16_t) (lo | (hi << 8))` of two bytes.
unfoldable pub int16_of : ℕ → ℕ → ℤ
int16_of lo hi = let w = lo + hi * 256 in if ltb w (2 ^ 15) then pos w else negsuc (2 ^ 16 - w - 1)

-- `int8_t` of a byte
unfoldable pub int8_of : ℕ → ℤ
int8_of b = if ltb b 128 then pos b else negsuc (256 - b - 1)

-- The four two-bit fields of the calibration register: system, gyroscope, accelerometer, magnetometer.
unfoldable pub calibration_of : ℕ → List ℕ
calibration_of c = c / 2 ^ 6 % 4 ∷ c / 2 ^ 4 % 4 ∷ c / 2 ^ 2 % 4 ∷ c % 4 ∷ []

abbrev pub triple {ℓ} : {R : Type ℓ} → R → R → R → Axes R
triple a b c = record { x = a; y = b; z = c }

module _ {ℓ} {R : Type ℓ} ⦃f : Real R⦄ where
  abbrev pub zero_axes : Axes R
  zero_axes = triple (whole 0) (whole 0) (whole 0)

  unfoldable pub empty_data : Data R
  empty_data = record {
    euler_angle = zero_axes;
    linear_acceleration = zero_axes;
    calibration = 0 ∷ 0 ∷ 0 ∷ 0 ∷ [];
    temperature = pos 0;
  }

  -- The filters of the constructor, in the order of `FilterAxis`.
  unfoldable pub bno_filters : List (Filter R)
  unfolding new_moving new_circle
  bno_filters =
      new_circle 10
      ∷ new_circle 10
      ∷ new_circle 20
      ∷ new_moving 10
      ∷ new_moving 10
      ∷ new_moving 10
      ∷ new_moving 10
      ∷ new_moving 10
      ∷ new_moving 10
      ∷ new_moving 10
      ∷ new_moving 10
      ∷ new_moving 10
      ∷ new_moving 10
      ∷ new_moving 10
      ∷ []

  -- The acceleration of six bytes, in hundredths.
  unfoldable pub acceleration_of : Bytes → Axes R
  unfolding int16_of
  acceleration_of b =
      triple (f.of_int (int16_of (get_or b 0 0) (get_or b 1 0)) ⊘ whole 100)
        (f.of_int (int16_of (get_or b 2 0) (get_or b 3 0)) ⊘ whole 100)
        (f.of_int (int16_of (get_or b 4 0) (get_or b 5 0)) ⊘ whole 100)

  -- The angles of six bytes, in sixteenths: the sensor reports them as Z, Y and X, and Y turned round.
  unfoldable pub euler_of : Bytes → Axes R
  unfolding int16_of
  euler_of b =
      triple (f.of_int (int16_of (get_or b 4 0) (get_or b 5 0)) ⊘ whole 16)
        (f.neg (f.of_int (int16_of (get_or b 2 0) (get_or b 3 0))) ⊘ whole 16)
        (f.of_int (int16_of (get_or b 0 0) (get_or b 1 0)) ⊘ whole 16)

  -- An angle goes through its filter in radians.
  unfoldable pub smooth_angle : R → ℕ → R → List (Filter R) → R × List (Filter R)
  unfolding filter_at
  smooth_angle pi i a group =
      let (out, group') = filter_at pi i (a ⊗ (pi ⊘ whole 180)) group in
      (out ⊗ (whole 180 ⊘ pi), group')

  -- The six calls of the filters, in their order.
  unfoldable pub smooth : R → Data R → List (Filter R) → Data R × List (Filter R)
  unfolding smooth_angle filter_at
  smooth pi d g₀ =
      let (ax, g₁) = smooth_angle pi 0 d.euler_angle.x g₀ in
      let (ay, g₂) = smooth_angle pi 1 d.euler_angle.y g₁ in
      let (az, g₃) = smooth_angle pi 2 d.euler_angle.z g₂ in
      let (lx, g₄) = filter_at pi 7 d.linear_acceleration.x g₃ in
      let (ly, g₅) = filter_at pi 8 d.linear_acceleration.y g₄ in
      let (lz, g₆) = filter_at pi 9 d.linear_acceleration.z g₅ in
      (record d { euler_angle = triple ax ay az; linear_acceleration = triple lx ly lz }, g₆)
