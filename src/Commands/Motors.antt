-- ===== src/Commands/Motors.antt =====
-- src/Robot/Features/MotorsSender: the values of the motors, and the message with them that goes over
-- SPI. The bus itself is not part of the model: the message is what it is asked to write.
pub mod Spi
pub mod Received
use polar_uv_robot.Prelude.{
  ℕ, zero, suc, ◌+◌, ◌*◌, ◌≡◌, refl, ap, ◌∙◌, List, [], ◌∷◌, ◌++◌, append_assoc, Bytes, length,
  take, drop, set, replicate, length-append, arith,
}
use polar_uv_robot.Network.Packet.{to_le}
use polar_uv_robot.Network.Buffer.{write_at}

-- `MotorsStruct`: twelve and four words of 16 bits, and the prescaler; two is `DShot300`.
pub record MotorsStruct : Type 0 where
  pub hi_pwm : List ℕ
  pub low_pwm : List ℕ
  pub timer_prescaler : ℕ

unfoldable pub words_bytes : List ℕ → Bytes
unfolding to_le
words_bytes [] = []
words_bytes (v ∷ vs) = to_le 2 v ++ words_bytes vs

-- The struct in memory, with the value of its one byte of padding.
unfoldable pub motors_bytes : ℕ → MotorsStruct → Bytes
unfolding words_bytes
motors_bytes pad m =
    words_bytes m.hi_pwm ++ (words_bytes m.low_pwm ++ (m.timer_prescaler ∷ pad ∷ []))

abbrev pub motors_struct_len : ℕ
motors_struct_len = 34

abbrev pub motors_struct_len_message : ℕ
motors_struct_len_message = motors_struct_len + 4

-- The code of 's'.
abbrev pub letter_s : ℕ
letter_s = 115

-- `SendMotorsStruct` on the bytes of the struct: the message given to `ReadWrite`.
unfoldable pub motors_message : Bytes → Bytes
unfolding write_at
motors_message bs =
    let m = write_at 2 bs (replicate (2 * motors_struct_len_message) 0) in
    let m2 = write_at (motors_struct_len_message + 2) bs m in
    let m3 = set (set m2 0 letter_s) 1 letter_s in
    let m4 = set (set m3 36 letter_s) 37 letter_s in
    let m5 = set (set m4 38 letter_s) 39 letter_s in set (set m5 74 letter_s) 75 letter_s

unfoldable pub send_motors_struct : ℕ → MotorsStruct → Bytes
unfolding motors_message motors_bytes
send_motors_struct pad m = motors_message (motors_bytes pad m)

-- A sum that computes by its first number.
abbrev shift : ℕ → ℕ → ℕ
shift zero k = k
shift (suc n) k = suc (shift n k)

take-over :
    (n k : ℕ) (bs zs : Bytes) → length bs ≡ n → take (shift n k) (bs ++ zs) ≡ bs ++ take k zs
take-over zero k [] zs h = refl
take-over (suc n) k (b ∷ bs) zs h = ap (λ ys. b ∷ ys) (take-over n k bs zs (omega arith))
take-over zero k (b ∷ bs) zs h = absurd (omega arith)
take-over (suc n) k [] zs h = absurd (omega arith)

drop-over : (n k : ℕ) (bs zs : Bytes) → length bs ≡ n → drop (shift n k) (bs ++ zs) ≡ drop k zs
drop-over zero k [] zs h = refl
drop-over (suc n) k (b ∷ bs) zs h = drop-over n k bs zs (omega arith)
drop-over zero k (b ∷ bs) zs h = absurd (omega arith)
drop-over (suc n) k [] zs h = absurd (omega arith)

set-over :
    (n k v : ℕ) (bs zs : Bytes) → length bs ≡ n → set (bs ++ zs) (shift n k) v ≡ bs ++ set zs k v
set-over zero k v [] zs h = refl
set-over (suc n) k v (b ∷ bs) zs h = ap (λ ys. b ∷ ys) (set-over n k v bs zs (omega arith))
set-over zero k v (b ∷ bs) zs h = absurd (omega arith)
set-over (suc n) k v [] zs h = absurd (omega arith)

length-words_bytes : (vs : List ℕ) → length (words_bytes vs) ≡ 2 * length vs
unfolding words_bytes to_le
length-words_bytes [] = refl
length-words_bytes (v ∷ vs) = omega (arith, length-words_bytes vs)

pub length-motors_bytes :
    (pad : ℕ) (m : MotorsStruct)
    → length m.hi_pwm ≡ 12
    → length m.low_pwm ≡ 4
    → length (motors_bytes pad m) ≡ motors_struct_len
unfolding motors_bytes
length-motors_bytes pad m hi low =
    let rest = m.timer_prescaler ∷ pad ∷ [] in
    omega (
      arith,
      length-append (words_bytes m.hi_pwm) (words_bytes m.low_pwm ++ rest),
      length-append (words_bytes m.low_pwm) rest,
      length-words_bytes m.hi_pwm,
      length-words_bytes m.low_pwm,
    )

abbrev zeros : ℕ → Bytes
zeros n = replicate n 0

abbrev pub mark : Bytes
mark = letter_s ∷ letter_s ∷ []

pub motors_message_lem :
    (bs : Bytes)
    → length bs ≡ motors_struct_len
    → motors_message bs ≡ mark ++ (bs ++ (mark ++ (mark ++ (bs ++ mark))))
unfolding motors_message write_at
motors_message_lem bs h =
    let z : Bytes = 0 ∷ 0 ∷ [] in
    let t : Bytes = bs ++ z in
    let e1 : drop (2 + length bs) (zeros 76) ≡ zeros 40 = ap (λ n. drop (2 + n) (zeros 76)) h in
    let e2 : take 38 (bs ++ zeros 40) ≡ bs ++ zeros 4 = take-over 34 4 bs (zeros 40) h in
    let m : Bytes = 0 ∷ 0 ∷ (bs ++ zeros 40) in
    let e3 : drop (motors_struct_len_message + 2 + length bs) m ≡ z =
      ap (λ n. drop (motors_struct_len_message + 2 + n) m) h ∙ drop-over 34 38 bs (zeros 40) h in
    let e4 : (bs ++ zeros 4) ++ t ≡ bs ++ (zeros 4 ++ t) = append_assoc bs (zeros 4) t in
    let at : (k : ℕ) (zs : Bytes) → set (bs ++ zs) (shift 34 k) letter_s ≡ bs ++ set zs k letter_s =
      λ k zs. set-over 34 k letter_s bs zs h in
    let s = letter_s in
    rw (
      e1,
      e2,
      e3,
      e4,
      at 0 (zeros 4 ++ t),
      at 1 (s ∷ 0 ∷ 0 ∷ 0 ∷ t),
      at 2 (s ∷ s ∷ 0 ∷ 0 ∷ t),
      at 3 (s ∷ s ∷ s ∷ 0 ∷ t),
      at 38 (s ∷ s ∷ s ∷ s ∷ t),
      at 0 z,
      at 39 (s ∷ s ∷ s ∷ s ∷ (bs ++ (s ∷ 0 ∷ []))),
      at 1 (s ∷ 0 ∷ []),
    )

-- For every content of the struct, with its twelve and four words, the message is twice the struct,
-- each time between two marks of two letters.
pub send_motors_struct_lem :
    (pad : ℕ) (m : MotorsStruct)
    → length m.hi_pwm ≡ 12
    → length m.low_pwm ≡ 4
    → send_motors_struct pad m
      ≡ mark ++ (motors_bytes pad m ++ (mark ++ (mark ++ (motors_bytes pad m ++ mark))))
unfolding send_motors_struct
send_motors_struct_lem pad m hi low =
    motors_message_lem (motors_bytes pad m) (length-motors_bytes pad m hi low)
