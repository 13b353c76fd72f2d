-- ===== src/Peripheral/Ms5837/Crc.antt =====
-- `MS5837_I2C::CRC4` of src/Lib/Peripheral/MS5837_I2C.cpp against the remainder of a division of
-- polynomials over bits by x^4 + x + 1.
use Prim.Native.Nat.{bit_xor}
use polar_uv_robot.Prelude.{
  ℕ, suc, ◌+◌, ◌-◌, ◌*◌, ◌/◌, ◌%◌, ◌^◌, ◌≤◌, ◌<◌, ◌≡◌, ap, ◌∙◌, List, [], ◌∷◌, ltb, leb, Bool-cases,
  inl, inr, if◌then◌else◌, get_or, arith, true, false, ◌==◌,
}
use polar_uv_robot.Peripheral.Ms5837.Xor.{bit_xor-three, bit_xor-poly, bit_xor-byte}
use polar_uv_robot.Peripheral.Ms5837.{crc_bit, crc_bits, crc_bytes}

-- The remainder after one more bit: four bits, times x plus the bit, with x^4 replaced by x + 1.
unfoldable pub next_bit : ℕ → ℕ → ℕ
next_bit h b = let x = 2 * h + b in if ltb x 16 then x else (x - 16) / 4 * 4 + (3 - x % 4)

unfoldable pub next_four : ℕ → ℕ → ℕ
unfolding next_bit
next_four h q =
    next_bit (next_bit (next_bit (next_bit h (q / 8 % 2)) (q / 4 % 2)) (q / 2 % 2)) (q % 2)

-- The remainder of a number that is given four bits at a time.
unfoldable pub remainder : ℕ → List ℕ → ℕ
unfolding next_four
remainder h [] = h
remainder h (q ∷ qs) = remainder (next_four h q) qs

-- The words of 16 bits, four bits at a time.
unfoldable pub fours : List ℕ → List ℕ
fours [] = []
fours (w ∷ ws) = w / 4096 ∷ w / 256 % 16 ∷ w / 16 % 16 ∷ w % 16 ∷ fours ws

next_bit-small : (h b : ℕ) → h < 16 → b < 2 → next_bit h b < 16
unfolding next_bit
next_bit-small h b k l = ground arith

crc_bit_lem :
    (h l : ℕ)
    → h < 16
    → l < 4096
    → crc_bit (h * 4096 + l) ≡ next_bit h (l / 2048) * 4096 + 2 * l % 4096
unfolding crc_bit next_bit
crc_bit_lem h l k m = elim (Bool-cases (leb (2 ^ 15) (h * 4096 + l))) [
  | inl e ↦
      let x = 2 * h + l / 2048 in
      let top : 8 ≤ h = grind arith in
      let large : ltb x 16 ≡ false = grind arith in
      let r = (h * 4096 + l) * 2 % 2 ^ 16 in
      let hi : r / 4096 ≡ x - 16 = omega arith in
      let lo : r % 4096 ≡ 2 * l % 4096 = omega arith in
      let y : (x - 16) % 4 ≡ x % 4 = omega arith in
      let three = bit_xor-three (x - 16) in
      let poly = bit_xor-poly r in
      let split : bit_xor (r / 4096) 3 ≡ bit_xor (x - 16) 3 = ap (λ c. bit_xor c 3) hi in
      rw (e, large) (omega (arith, poly, split, three))
  | inr e ↦
      let low : h ≤ 7 = grind arith in
      let small : ltb (2 * h + l / 2048) 16 ≡ true = grind arith in rw (e, small) (omega arith)
]

next_four-small : (h q : ℕ) → h < 16 → next_four h q < 16
unfolding next_four
next_four-small h q k =
    next_bit-small _ (q % 2)
      (next_bit-small _ (q / 2 % 2)
        (next_bit-small _ (q / 4 % 2) (next_bit-small h (q / 8 % 2) k (omega arith)) (omega arith))
        (omega arith))
      (omega arith)

-- Four rounds of the inner loop.
crc_bits-four :
    (n h l : ℕ)
    → h < 16
    → l < 4096
    → crc_bits (suc (suc (suc (suc n)))) (h * 4096 + l)
      ≡ crc_bits n (next_four h (l / 256) * 4096 + l * 16 % 4096)
unfolding crc_bits next_four
crc_bits-four n h l k m =
    let l1 = 2 * l % 4096 in
    let l2 = 2 * l1 % 4096 in
    let l3 = 2 * l2 % 4096 in
    let h1 = next_bit h (l / 2048) in
    let h2 = next_bit h1 (l1 / 2048) in
    let h3 = next_bit h2 (l2 / 2048) in
    let s1 : h1 < 16 = next_bit-small h (l / 2048) k (omega arith) in
    let s2 : h2 < 16 = next_bit-small h1 (l1 / 2048) s1 (omega arith) in
    let s3 : h3 < 16 = next_bit-small h2 (l2 / 2048) s2 (omega arith) in
    let b0 : l / 2048 ≡ l / 256 / 8 % 2 = omega arith in
    let b1 : l1 / 2048 ≡ l / 256 / 4 % 2 = omega arith in
    let b2 : l2 / 2048 ≡ l / 256 / 2 % 2 = omega arith in
    let b3 : l3 / 2048 ≡ l / 256 % 2 = omega arith in
    let l4 : 2 * l3 % 4096 ≡ l * 16 % 4096 = omega arith in
    ap (λ r. crc_bits n (crc_bit (crc_bit (crc_bit r)))) (crc_bit_lem h l k m)
    ∙ ap (λ r. crc_bits n (crc_bit (crc_bit r))) (crc_bit_lem h1 l1 s1 (omega arith))
    ∙ ap (λ r. crc_bits n (crc_bit r)) (crc_bit_lem h2 l2 s2 (omega arith))
    ∙ ap (λ r. crc_bits n r) (crc_bit_lem h3 l3 s3 (omega arith))
    ∙ (λ i.
        crc_bits n
          (next_bit (next_bit (next_bit (next_bit h (b0 i)) (b1 i)) (b2 i)) (b3 i) * 4096 + l4 i))

-- One byte: the four bits that wait, and the upper four of the byte; the lower four wait next.
byte_lem :
    (h q b : ℕ)
    → h < 16
    → q < 16
    → b < 256
    → crc_bits 8 (bit_xor (h * 4096 + q * 256) b)
      ≡ next_four (next_four h q) (b / 16) * 4096 + b % 16 * 256
unfolding crc_bits
byte_lem h q b k m s =
    let e0 : h * 4096 + q * 256 ≡ (h * 16 + q) * 256 = omega arith in
    let e1 : (h * 16 + q) * 256 + b ≡ h * 4096 + (q * 256 + b) = omega arith in
    let f : (q * 256 + b) / 256 ≡ q = omega arith in
    let l = (q * 256 + b) * 16 % 4096 in
    let g : l / 256 ≡ b / 16 = omega arith in
    let last : l * 16 % 4096 ≡ b % 16 * 256 = omega arith in
    let h1 = next_four h ((q * 256 + b) / 256) in
    ap (λ c. crc_bits 8 (bit_xor c b)) e0
    ∙ ap (crc_bits 8) (bit_xor-byte (h * 16 + q) b s ∙ e1)
    ∙ crc_bits-four 4 h (q * 256 + b) k (omega arith)
    ∙ crc_bits-four 0 h1 l (next_four-small h _ k) (omega arith)
    ∙ (λ i. next_four (next_four h (f i)) (g i) * 4096 + last i)

-- One word: its upper byte, then its lower one.
pub word_lem :
    (n i j h q : ℕ) (prom : List ℕ)
    → i ≡ 2 * j
    → h < 16
    → q < 16
    → get_or prom j 0 < 2 ^ 16
    → (let w = get_or prom j 0 in
        crc_bytes (suc (suc n)) i prom (h * 4096 + q * 256)
        ≡ crc_bytes n
            (i + 1 + 1)
            prom
            (remainder h (q ∷ w / 4096 ∷ w / 256 % 16 ∷ w / 16 % 16 ∷ []) * 4096 + w % 16 * 256))
unfolding crc_bytes remainder
word_lem n i j h q prom e k m s =
    let w = get_or prom j 0 in
    let even : (i % 2 == 1) ≡ false = grind arith in
    let odd : ((i + 1) % 2 == 1) ≡ true = grind arith in
    let j0 : i / 2 ≡ j = omega arith in
    let j1 : (i + 1) / 2 ≡ j = omega arith in
    let up : w / 256 / 16 ≡ w / 4096 = omega arith in
    let down : w % 256 / 16 ≡ w / 16 % 16 = omega arith in
    let low : w % 256 % 16 ≡ w % 16 = omega arith in
    let h1 = next_four (next_four h q) (w / 256 / 16) in
    let s1 = next_four-small (next_four h q) (w / 256 / 16) (next_four-small h q k) in
    rw (even, odd, j0, j1)
      (ap (λ r. crc_bytes n (i + 1 + 1) prom (crc_bits 8 (bit_xor r (w % 256))))
          (byte_lem h q (w / 256) k m (omega arith))
        ∙ ap (λ r. crc_bytes n (i + 1 + 1) prom r)
            (byte_lem h1 (w / 256 % 16) (w % 256) s1 (omega arith) (omega arith))
        ∙ (λ t. crc_bytes n (i + 1 + 1) prom (
            next_four (next_four (next_four (next_four h q) (up t)) (w / 256 % 16)) (down t) * 4096
            + low t * 256)))

pub remainder-small : (h : ℕ) (qs : List ℕ) → h < 16 → remainder h qs < 16
unfolding remainder
remainder-small h [] k = k
remainder-small h (q ∷ qs) k = remainder-small (next_four h q) qs (next_four-small h q k)
