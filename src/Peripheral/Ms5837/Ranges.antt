-- ===== src/Peripheral/Ms5837/Ranges.antt =====
-- The ranges of the integers in `MS5837_I2C::Calculate` of src/Lib/Peripheral/MS5837_I2C.cpp.
use native.Mathlib.Nat.{mul_comm, mul-le-mul_left}
use polar_uv_robot.Prelude.{
  ℕ, zero, suc, Bool-cases, inl, inr, leb, ◌+◌, ◌-◌, ◌*◌, ◌/◌, ◌^◌, ◌≤◌, ◌<◌, ◌≡◌, refl, List,
  get_or, arith,
}
use polar_uv_robot.Prelude.Int.{ℤ, pos, negsuc, pos_part, neg_part, ◌+ℤ◌, ◌-ℤ◌, ◌*ℤ◌}
use polar_uv_robot.Peripheral.Ms5837.{
  int32, div_trunc, temperature_difference, first_temperature, warm_ti,
}

-- The numbers of 32 bits with a sign, by their two parts.
abbrev pub In32 : ℤ → Type 0
In32 x = (pos_part x < 2 ^ 31) × (neg_part x ≤ 2 ^ 31)

int32-In32 : (x : ℤ) → In32 (int32 x)
unfolding int32 ◌-ℤ◌
int32-In32 (pos n) = ground arith
int32-In32 (negsuc n) = ground arith

int32_exact : (x : ℤ) → In32 x → int32 x ≡ x
unfolding int32
int32_exact (pos n) h = ground arith
int32_exact (negsuc n) h = ground arith

div_trunc_small : (x : ℤ) → In32 x → div_trunc x 137438953472 ≡ pos 0
unfolding div_trunc ◌-ℤ◌
div_trunc_small (pos n) h = let e : n / 137438953472 ≡ 0 = omega arith in rw e refl
div_trunc_small (negsuc n) h = let e : suc n / 137438953472 ≡ 0 = omega arith in rw e refl

-- A number of 32 bits is divided by 2 ^ 37.
warm_ti-zero : (dt : ℤ) → warm_ti dt ≡ pos 0
unfolding warm_ti
warm_ti-zero dt =
    let x = pos 2 *ℤ int32 (dt *ℤ dt) in
    rw (div_trunc_small (int32 x) (int32-In32 x)) (int32_exact (pos 0) (omega arith))

-- The absolute value.
abbrev pub magnitude : ℤ → ℕ
magnitude x = pos_part x + neg_part x

formula_small : (m : ℕ) → leb 1 (2 * (m * m) / 137438953472) ≡ leb (2 ^ 18) m
formula_small m = elim (Bool-cases (leb (2 ^ 18) m)) [
  | inl large ↦
      let h : 2 ^ 18 ≤ m = grind arith in
      let e : m * 2 ^ 18 ≤ m * m = mul-le-mul_left m h in
      let one : 1 ≤ 2 * (m * m) / 137438953472 = omega arith in rw large (grind arith)
  | inr small ↦
      let h : m ≤ 2 ^ 18 - 1 = grind arith in
      let e : m * m ≤ m * (2 ^ 18 - 1) = mul-le-mul_left m h in
      let none : 2 * (m * m) / 137438953472 ≡ 0 = omega arith in rw (small, none) refl
]

-- The second correction of a temperature of 20 degrees and more, if a product of 32 bits that overflows
-- wraps around, which the language leaves undefined: for every `dT` it is zero, while its formula gives
-- at least one exactly for those of a magnitude of 2 ^ 18 and more.
pub warm_ti_lem :
    (dt : ℤ)
    → (let m = magnitude dt in
        (warm_ti dt ≡ pos 0) × (leb 1 (2 * (m * m) / 137438953472) ≡ leb (2 ^ 18) m))
warm_ti_lem dt = (warm_ti-zero dt, formula_small (magnitude dt))

-- The correction of the temperature by `dT`, before it is added.
unfoldable pub correction : ℤ → ℕ → ℤ
unfolding div_trunc ◌*ℤ◌
correction dt c6 = div_trunc (dt *ℤ pos c6) 8388608

mul_pos : (n c : ℕ) → pos n *ℤ pos c ≡ pos (n * c)
unfolding ◌*ℤ◌
mul_pos n c = ground arith

mul_negsuc-zero : (n : ℕ) → negsuc n *ℤ pos 0 ≡ pos 0
unfolding ◌*ℤ◌
mul_negsuc-zero n = ground arith

mul_negsuc : (n c : ℕ) → negsuc n *ℤ pos (suc c) ≡ negsuc (suc n * suc c - 1)
unfolding ◌*ℤ◌
mul_negsuc n c =
    let e : suc c * 1 ≤ suc c * suc n = mul-le-mul_left (suc c) (omega arith) in
    ground (arith, e, mul_comm (suc c) (suc n))

negative_small :
    (m : ℕ)
    → m < 2 ^ 17
    → (pos_part (pos 0 -ℤ pos m) < 2 ^ 17) × (neg_part (pos 0 -ℤ pos m) < 2 ^ 17)
unfolding ◌-ℤ◌
negative_small m h = ground arith

difference_small :
    (a b : ℕ)
    → a < 2 ^ 24
    → b < 2 ^ 24
    → (pos_part (pos a -ℤ pos b) < 2 ^ 24) × (neg_part (pos a -ℤ pos b) < 2 ^ 24)
unfolding ◌-ℤ◌
difference_small a b h k = ground arith

sum_small : (x : ℤ) → pos_part x < 2 ^ 17 → neg_part x < 2 ^ 17 → In32 (pos 2000 +ℤ x)
unfolding ◌+ℤ◌
sum_small x h k = ground arith

correction_small :
    (dt : ℤ) (c6 : ℕ)
    → pos_part dt < 2 ^ 24
    → neg_part dt < 2 ^ 24
    → c6 < 2 ^ 16
    → (pos_part (correction dt c6) < 2 ^ 17) × (neg_part (correction dt c6) < 2 ^ 17)
unfolding correction div_trunc ◌-ℤ◌
correction_small (pos n) c6 h k l =
    let e : c6 * n ≤ c6 * 2 ^ 24 = mul-le-mul_left c6 (omega arith) in
    rw (mul_pos n c6) (omega (arith, e, mul_comm n c6))
correction_small (negsuc n) zero h k l = rw (mul_negsuc-zero n) (omega arith)
correction_small (negsuc n) (suc c) h k l =
    let e : suc c * suc n ≤ suc c * 2 ^ 24 = mul-le-mul_left (suc c) (omega arith) in
    let m = mul_comm (suc c) (suc n) in rw (mul_negsuc n c) (negative_small _ (omega (arith, e, m)))

temperature_difference_lem :
    (d2 : ℕ) (c : List ℕ)
    → d2 < 2 ^ 24
    → get_or c 5 0 < 2 ^ 16
    → (let dt = temperature_difference d2 c in
        (dt ≡ pos d2 -ℤ pos (get_or c 5 0) *ℤ pos 256)
        × (pos_part dt < 2 ^ 24)
        × (neg_part dt < 2 ^ 24))
unfolding temperature_difference
temperature_difference_lem d2 c h k =
    let w = get_or c 5 0 in
    let small = difference_small d2 (w * 256) h (omega arith) in
    let exact : temperature_difference d2 c ≡ pos d2 -ℤ pos w *ℤ pos 256 =
      rw (temperature_difference, mul_pos w 256)
        (int32_exact (pos d2 -ℤ pos (w * 256)) (omega arith, omega arith)) in
    (exact, rw (exact, mul_pos w 256) small.0, rw (exact, mul_pos w 256) small.1)

-- With words of 16 bits and a reading of 24 bits, as the sensor gives them, neither `dT` nor the first
-- temperature overflows: each is the number that its formula says.
pub first_temperature_lem :
    (d2 : ℕ) (c : List ℕ)
    → d2 < 2 ^ 24
    → get_or c 5 0 < 2 ^ 16
    → get_or c 6 0 < 2 ^ 16
    → (let dt = temperature_difference d2 c in
        (dt ≡ pos d2 -ℤ pos (get_or c 5 0) *ℤ pos 256)
        × (first_temperature dt c ≡ pos 2000 +ℤ correction dt (get_or c 6 0)))
unfolding first_temperature correction
first_temperature_lem d2 c h k l =
    let (exact, below, above) = temperature_difference_lem d2 c h k in
    let dt = temperature_difference d2 c in
    let c6 = get_or c 6 0 in
    let (small, large) = correction_small dt c6 below above l in
    (exact, int32_exact (pos 2000 +ℤ correction dt c6) (sum_small (correction dt c6) small large))
