-- ===== src/Peripheral/Ms5837/Words.antt =====
-- The whole of `MS5837_I2C::CRC4` of src/Lib/Peripheral/MS5837_I2C.cpp, over its eight words.
use polar_uv_robot.Prelude.{
  ℕ, zero, suc, ◌+◌, ◌*◌, ◌/◌, ◌%◌, ◌^◌, ◌<◌, ◌≡◌, refl, ap, ◌∙◌, List, [], ◌∷◌, ◌++◌, All, get_or,
  arith,
}
use polar_uv_robot.Peripheral.Ms5837.{crc_bytes, crc4}
use polar_uv_robot.Peripheral.Ms5837.Crc.{remainder, next_four, fours, word_lem, remainder-small}

-- The remainder of the words, of which the upper four bits of the first count as zero, with twelve zero
-- bits behind them.
unfoldable pub checksum : ℕ → List ℕ → ℕ
unfolding remainder fours
checksum w ws = remainder 0 (fours (w % 4096 ∷ ws) ++ 0 ∷ 0 ∷ 0 ∷ [])

unfoldable twice : ℕ → ℕ
twice zero = zero
twice (suc m) = suc (suc (twice m))

-- The remainder after `m` words from number `j` on, and the four bits that wait.
unfoldable waiting : List ℕ → ℕ → ℕ → ℕ → ℕ → ℕ × ℕ
unfolding remainder
waiting prom zero j h q = (h, q)
waiting prom (suc m) j h q =
    let w = get_or prom j 0 in
    waiting prom m (j + 1) (remainder h (q ∷ w / 4096 ∷ w / 256 % 16 ∷ w / 16 % 16 ∷ [])) (w % 16)

crc_bytes-waiting :
    (prom : List ℕ) (m i j h q : ℕ)
    → ((k : ℕ) → get_or prom k 0 < 2 ^ 16)
    → i ≡ 2 * j
    → h < 16
    → q < 16
    → (let (h', q') = waiting prom m j h q in
        crc_bytes (twice m) i prom (h * 4096 + q * 256) ≡ h' * 4096 + q' * 256)
unfolding crc_bytes twice waiting
crc_bytes-waiting prom zero i j h q all e k s = refl
crc_bytes-waiting prom (suc m) i j h q all e k s =
    let w = get_or prom j 0 in
    word_lem (twice m) i j h q prom e k s (all j)
    ∙ crc_bytes-waiting prom m (i + 1 + 1) (j + 1) _ (w % 16) all (omega arith)
        (remainder-small h (q ∷ w / 4096 ∷ w / 256 % 16 ∷ w / 16 % 16 ∷ []) k) (omega arith)

get_or-small : (prom : List ℕ) → All (λ w. w < 2 ^ 16) prom → (k : ℕ) → get_or prom k 0 < 2 ^ 16
get_or-small [] h k = omega arith
get_or-small (w ∷ ws) (h, hs) zero = h
get_or-small (w ∷ ws) (h, hs) (suc k) = get_or-small ws hs k

next_four_zero : next_four 0 0 ≡ 0
unfolding next_four
next_four_zero = refl

remainder_zero : (qs : List ℕ) → remainder 0 (0 ∷ qs) ≡ remainder 0 qs
unfolding remainder
remainder_zero qs = ap (λ h. remainder h qs) next_four_zero

module _ (a0 a1 a2 a3 a4 a5 a6 : ℕ) where
  abbrev rest : List ℕ
  rest = a1 ∷ a2 ∷ a3 ∷ a4 ∷ a5 ∷ a6 ∷ []

  abbrev pub kept : List ℕ
  kept = a0 % 4096 ∷ a1 ∷ a2 ∷ a3 ∷ a4 ∷ a5 ∷ a6 ∷ 0 ∷ []

  waiting_lem :
      waiting kept 8 0 0 0 ≡ (remainder 0 (0 ∷ (fours (a0 % 4096 ∷ rest) ++ 0 ∷ 0 ∷ 0 ∷ [])), 0)
  unfolding waiting remainder fours
  waiting_lem = refl

  -- `CRC4` finds the remainder, and clears the upper bits of the first word and the last word.
  pub crc4_lem :
      (a7 : ℕ)
      → All (λ w. w < 2 ^ 16) rest
      → crc4 (a0 ∷ a1 ∷ a2 ∷ a3 ∷ a4 ∷ a5 ∷ a6 ∷ a7 ∷ []) ≡ (checksum a0 rest, kept)
  unfolding crc4 checksum twice
  crc4_lem a7 (s1, (s2, (s3, (s4, (s5, (s6, s)))))) =
      let small =
        get_or-small kept (omega arith, (s1, (s2, (s3, (s4, (s5, (s6, (omega arith, tt)))))))) in
      let k : checksum a0 rest < 16 =
        remainder-small 0 (fours (a0 % 4096 ∷ rest) ++ 0 ∷ 0 ∷ 0 ∷ []) (omega arith) in
      let bytes : crc_bytes 16 0 kept 0 ≡ checksum a0 rest * 4096 + 0 * 256 =
        crc_bytes-waiting kept 8 0 0 0 0 small refl (omega arith) (omega arith)
        ∙ ap (λ (x : ℕ × ℕ). x.0 * 4096 + x.1 * 256) waiting_lem
        ∙ ap (λ h. h * 4096 + 0 * 256)
            (remainder_zero (fours (a0 % 4096 ∷ rest) ++ 0 ∷ 0 ∷ 0 ∷ [])) in
      let e : crc_bytes 16 0 kept 0 / 2 ^ 12 % 16 ≡ checksum a0 rest =
        ap (λ r. r / 2 ^ 12 % 16) bytes ∙ omega arith in
      ap (λ c. (c, kept)) e
