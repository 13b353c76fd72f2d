-- ===== src/Peripheral/Ms5837/Xor.antt =====
-- The exclusive or of numbers, as `CRC4` of src/Lib/Peripheral/MS5837_I2C.cpp uses it.
use Prim.Native.Nat.{digits, bit_xor, bit_xor-bitwise, differ}
use polar_uv_robot.Prelude.{
  ℕ, zero, sym, ◌-◌, suc, ◌+◌, ◌*◌, ◌/◌, ◌%◌, ◌≤◌, ◌<◌, ◌≡◌, refl, ap, ◌∙◌, arith,
}

-- Digit by digit, with a bound on the number of digits that does not matter if it is large enough.
abbrev by_digits : ℕ → ℕ → ℕ → ℕ
by_digits = digits (λ y. y) differ

by_digits_nought : (n y : ℕ) → by_digits n 0 y ≡ y
by_digits_nought zero y = refl
by_digits_nought (suc n) y = refl

more_digits : (x n k y : ℕ) → x ≤ n → by_digits (n + k) x y ≡ by_digits n x y
more_digits zero n k y h = by_digits_nought (n + k) y ∙ sym (by_digits_nought n y)
more_digits (suc x) zero k y h = absurd (omega arith)
more_digits (suc x) (suc n) k y h =
    let onward : suc n + k ≡ suc (n + k) = omega arith in
    ap (λ m. by_digits m (suc x) y) onward
    ∙ ap (λ r. r * 2 + differ (suc x % 2) (y % 2))
        (more_digits (suc x / 2) n k (y / 2) (omega arith))

nought_xor : (y : ℕ) → bit_xor 0 y ≡ y
nought_xor = bit_xor-bitwise 0

differ_zero : (a : ℕ) → differ a 0 ≡ a
differ_zero zero = refl
differ_zero (suc a) = refl

bit_xor-suc :
    (x y : ℕ) → bit_xor (suc x) y ≡ bit_xor (suc x / 2) (y / 2) * 2 + differ (suc x % 2) (y % 2)
bit_xor-suc x y =
    let half = suc x / 2 in
    let bound : half + (x - half) ≡ x = omega arith in
    let fewer : by_digits x half (y / 2) ≡ bit_xor half (y / 2) =
      ap (λ n. by_digits n half (y / 2)) (sym bound)
      ∙ more_digits half half (x - half) (y / 2) (omega arith)
      ∙ sym (bit_xor-bitwise half (y / 2)) in
    bit_xor-bitwise (suc x) y ∙ ap (λ r. r * 2 + differ (suc x % 2) (y % 2)) fewer

-- Where one of the numbers is even.
bit_xor_even : (a b : ℕ) → b % 2 ≡ 0 → bit_xor a b ≡ bit_xor (a / 2) (b / 2) * 2 + a % 2
bit_xor_even zero b h = omega (arith, nought_xor b, nought_xor (b / 2))
bit_xor_even (suc a) b h =
    let e : differ (suc a % 2) (b % 2) ≡ suc a % 2 =
      ap (differ (suc a % 2)) h ∙ differ_zero (suc a % 2) in
    bit_xor-suc a b ∙ ap (λ d. bit_xor (suc a / 2) (b / 2) * 2 + d) e

even_bit_xor : (a b : ℕ) → a % 2 ≡ 0 → bit_xor a b ≡ bit_xor (a / 2) (b / 2) * 2 + b % 2
even_bit_xor zero b h = omega (arith, nought_xor b, nought_xor (b / 2))
even_bit_xor (suc a) b h =
    bit_xor-suc a b ∙ ap (λ d. bit_xor (suc a / 2) (b / 2) * 2 + differ d (b % 2)) h

bit_xor_two : (a b : ℕ) → bit_xor a (b * 2) ≡ bit_xor (a / 2) b * 2 + a % 2
bit_xor_two a b =
    let half : b * 2 / 2 ≡ b = omega arith in
    bit_xor_even a (b * 2) (omega arith) ∙ ap (λ c. bit_xor (a / 2) c * 2 + a % 2) half

bit_xor_eight : (a b : ℕ) → bit_xor a (b * 8) ≡ bit_xor (a / 8) b * 8 + a % 8
bit_xor_eight a b =
    let e1 : b * 8 ≡ b * 2 * 2 * 2 = omega arith in
    let e2 : a / 2 / 2 / 2 ≡ a / 8 = omega arith in
    ap (bit_xor a) e1
    ∙ omega (
      arith,
      bit_xor_two a (b * 2 * 2),
      bit_xor_two (a / 2) (b * 2),
      bit_xor_two (a / 2 / 2) b,
      ap (λ c. bit_xor c b) e2,
    )

pub bit_xor-poly : (a : ℕ) → bit_xor a 0x3000 ≡ bit_xor (a / 4096) 3 * 4096 + a % 4096
bit_xor-poly a =
    let e : a / 8 / 8 / 8 / 8 ≡ a / 4096 = omega arith in
    omega (
      arith,
      bit_xor_eight a 0x600,
      bit_xor_eight (a / 8) 0xC0,
      bit_xor_eight (a / 8 / 8) 24,
      bit_xor_eight (a / 8 / 8 / 8) 3,
      ap (λ c. bit_xor c 3) e,
    )

two_bit_xor : (a b : ℕ) → bit_xor (a * 2) b ≡ bit_xor a (b / 2) * 2 + b % 2
two_bit_xor a b =
    let half : a * 2 / 2 ≡ a = omega arith in
    even_bit_xor (a * 2) b (omega arith) ∙ ap (λ c. bit_xor c (b / 2) * 2 + b % 2) half

sixteen_bit_xor : (a b : ℕ) → bit_xor (a * 16) b ≡ bit_xor a (b / 16) * 16 + b % 16
sixteen_bit_xor a b =
    let e1 : a * 16 ≡ a * 2 * 2 * 2 * 2 = omega arith in
    let e2 : b / 2 / 2 / 2 / 2 ≡ b / 16 = omega arith in
    ap (λ c. bit_xor c b) e1
    ∙ omega (
      arith,
      two_bit_xor (a * 2 * 2 * 2) b,
      two_bit_xor (a * 2 * 2) (b / 2),
      two_bit_xor (a * 2) (b / 2 / 2),
      two_bit_xor a (b / 2 / 2 / 2),
      ap (bit_xor a) e2,
    )

by_digits_alone : (x n : ℕ) → x ≤ n → by_digits n x 0 ≡ x
by_digits_alone zero n h = by_digits_nought n 0
by_digits_alone (suc x) zero h = absurd (omega arith)
by_digits_alone (suc x) (suc n) h =
    ap (λ r. r * 2 + differ (suc x % 2) 0) (by_digits_alone (suc x / 2) n (omega arith))
    ∙ ap (λ d. suc x / 2 * 2 + d) (differ_zero (suc x % 2))
    ∙ omega arith

xor_nought : (x : ℕ) → bit_xor x 0 ≡ x
xor_nought x = bit_xor-bitwise x 0 ∙ by_digits_alone x x (omega arith)

differ_one : (d : ℕ) → d < 2 → differ d 1 ≡ 1 - d
differ_one zero h = refl
differ_one (suc zero) h = refl
differ_one (suc (suc d)) h = absurd (omega arith)

-- Where one of the numbers is odd.
bit_xor_odd : (x y : ℕ) → bit_xor x (2 * y + 1) ≡ bit_xor (x / 2) y * 2 + (1 - x % 2)
bit_xor_odd zero y = omega (arith, nought_xor (2 * y + 1), nought_xor y)
bit_xor_odd (suc x) y =
    let high : (2 * y + 1) / 2 ≡ y = omega arith in
    let low : (2 * y + 1) % 2 ≡ 1 = omega arith in
    bit_xor-suc x (2 * y + 1)
    ∙ (λ i. bit_xor (suc x / 2) (high i) * 2 + differ (suc x % 2) (low i))
    ∙ ap (λ d. bit_xor (suc x / 2) y * 2 + d) (differ_one (suc x % 2) (omega arith))

pub bit_xor-three : (x : ℕ) → bit_xor x 3 ≡ x / 4 * 4 + (3 - x % 4)
bit_xor-three x = omega (arith, bit_xor_odd x 1, bit_xor_odd (x / 2) 0, xor_nought (x / 2 / 2))

pub bit_xor-byte : (a b : ℕ) → b < 256 → bit_xor (a * 256) b ≡ a * 256 + b
bit_xor-byte a b h =
    let e1 : a * 256 ≡ a * 16 * 16 = omega arith in
    let e2 : b / 16 / 16 ≡ 0 = omega arith in
    ap (λ c. bit_xor c b) e1
    ∙ omega (
      arith,
      sixteen_bit_xor (a * 16) b,
      sixteen_bit_xor a (b / 16),
      ap (bit_xor a) e2,
      xor_nought a,
    )
