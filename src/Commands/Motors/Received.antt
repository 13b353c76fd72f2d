-- ===== src/Commands/Motors/Received.antt =====
-- What the other end of the bus makes of a message of src/Robot/Features/MotorsSender/SPI.hpp: a
-- receiver that looks for the marks, and takes the words between them with their low byte first.
use polar_uv_robot.Prelude.{
  ℕ, zero, suc, ◌+◌, ◌*◌, ◌/◌, ◌%◌, ◌^◌, ◌<◌, ◌≡◌, refl, ap, sym, ◌∙◌, true, Option, none, some,
  List, [], ◌∷◌, ◌++◌, append_assoc, Bytes, ◌==◌, ◌&&◌, if◌then◌else◌, length, length-append, All,
  arith,
}
use polar_uv_robot.Prelude.Options.{◌>>=◌}
use polar_uv_robot.Network.Packet.{to_le}
use polar_uv_robot.Commands.Motors.{
  MotorsStruct, words_bytes, motors_bytes, length-motors_bytes, letter_s, mark,
  send_motors_struct_lem, motors_struct_len_message,
}
use polar_uv_robot.Commands.Motors.Spi.{Device, send}

words_from : ℕ → Bytes → Option (List ℕ × Bytes)
words_from zero bs = some ([], bs)
words_from (suc n) (lo ∷ hi ∷ bs) = do
  rest ← words_from n bs
  some ((lo + 256 * hi) ∷ rest.0, rest.1)
words_from (suc n) _ = none

marked : Bytes → Option Bytes
marked (a ∷ b ∷ bs) = if a == letter_s && b == letter_s then some bs else none
marked _ = none

prescaler : Bytes → Option (ℕ × Bytes)
prescaler (p ∷ pad ∷ bs) = some (p, bs)
prescaler _ = none

-- One struct between its marks, and what is behind it.
unfoldable pub receive : Bytes → Option (MotorsStruct × Bytes)
unfolding words_from marked prescaler
receive bs = do
  inner ← marked bs
  hi ← words_from 12 inner
  low ← words_from 4 hi.1
  p ← prescaler low.1
  rest ← marked p.1
  some (record { hi_pwm = hi.0; low_pwm = low.0; timer_prescaler = p.0 }, rest)

-- A word of 16 bits.
abbrev pub IsWord : ℕ → Type 0
IsWord v = v < 2 ^ 16

words_from-words_bytes :
    (vs : List ℕ) (rest : Bytes)
    → All IsWord vs
    → words_from (length vs) (words_bytes vs ++ rest) ≡ some (vs, rest)
unfolding words_from words_bytes to_le
words_from-words_bytes [] rest h = refl
words_from-words_bytes (v ∷ vs) rest (h, hs) =
    let e : v % 256 + 256 * (v / 256 % 256) ≡ v = omega arith in
    rw (words_from-words_bytes vs rest hs, e) refl

words_from_all :
    (n : ℕ) (vs : List ℕ) (rest : Bytes)
    → length vs ≡ n
    → All IsWord vs
    → words_from n (words_bytes vs ++ rest) ≡ some (vs, rest)
words_from_all n vs rest e h =
    ap (λ k. words_from k (words_bytes vs ++ rest)) (sym e) ∙ words_from-words_bytes vs rest h

module _ (pad : ℕ) (m : MotorsStruct) (hi : length m.hi_pwm ≡ 12) (low : length m.low_pwm ≡ 4)
    (hi_words : All IsWord m.hi_pwm) (low_words : All IsWord m.low_pwm) where
  receive-motors_bytes :
      (rest : Bytes) → receive (mark ++ (motors_bytes pad m ++ (mark ++ rest))) ≡ some (m, rest)
  unfolding receive motors_bytes
  receive-motors_bytes rest =
      let after = mark ++ rest in
      let tail = m.timer_prescaler ∷ pad ∷ [] in
      let low_bytes = words_bytes m.low_pwm in
      rw
        (
          append_assoc (words_bytes m.hi_pwm) (low_bytes ++ tail) after,
          words_from_all 12 m.hi_pwm ((low_bytes ++ tail) ++ after) hi hi_words,
          append_assoc low_bytes tail after,
          words_from_all 4 m.low_pwm (tail ++ after) low low_words,
        )
        refl

  -- The words of the struct go over the bus at the speed of the device, as one transfer of 76 bytes, and
  -- the receiver gets them out of it twice, with nothing left over.
  pub receive-send :
      (spi : Device)
      → (let (done, t) = send spi pad m in
          (done ≡ true)
          × (t.speed_hz ≡ spi.speed)
          × (t.len ≡ 2 * motors_struct_len_message)
          × ((rest : Bytes) × (receive t.tx_buf ≡ some (m, rest)) × (receive rest ≡ some (m, []))))
  unfolding send
  receive-send spi =
      let e = send_motors_struct_lem pad m hi low in
      let bs = motors_bytes pad m in
      let size = length-motors_bytes pad m hi low in
      let once = length-append bs mark in
      let all = length-append bs (mark ++ (mark ++ (bs ++ mark))) in
      let rest = mark ++ (bs ++ mark) in
      (
        refl,
        refl,
        ap length e ∙ omega (arith, size, once, all),
        (rest, ap receive e ∙ receive-motors_bytes rest, receive-motors_bytes []),
      )
