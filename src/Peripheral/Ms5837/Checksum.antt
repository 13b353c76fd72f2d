-- ===== src/Peripheral/Ms5837/Checksum.antt =====
-- When `MS5837_I2C::Init` of src/Lib/Peripheral/MS5837_I2C.cpp takes the sensor online.
use polar_uv_robot.Prelude.{
  ℕ, zero, suc, ◌+◌, ◌*◌, ◌/◌, ◌%◌, ◌^◌, ◌<◌, ◌≡◌, refl, ap, ◌∙◌, Bool, true, false, Bool-cases,
  inl, inr, ◌&&◌, not, if◌then◌else◌, List, [], ◌∷◌, ◌++◌, All, length, drop, ◌==◌, get_or, set,
  arith,
}
use polar_uv_robot.Peripheral.I2c.{Ioctl, read, write_byte}
use polar_uv_robot.Peripheral.Ms5837.{World, crc4}
use polar_uv_robot.Peripheral.Ms5837.Init.{
  Point, fresh, attempt, resetting, suspend, read_prom, init,
}
use polar_uv_robot.Peripheral.Ms5837.Words.{checksum, crc4_lem}

-- Whether a word is zero.
abbrev pub has_zero : List ℕ → Bool
has_zero [] = false
has_zero (w ∷ ws) = if w == 0 then true else has_zero ws

-- Seven words of which none is zero, and whose checksum stands in the upper four bits of the first.
abbrev pub accepted : List ℕ → Bool
accepted ws = not (has_zero ws) && (checksum (get_or ws 0 0) (drop 1 ws) == get_or ws 0 0 / 2 ^ 12)

-- The words without the checksum, and a zero behind them.
abbrev pub cleared : List ℕ → List ℕ
cleared ws = get_or ws 0 0 % 2 ^ 12 ∷ (drop 1 ws ++ 0 ∷ [])

abbrev pub Keeps : Bool → List ℕ → List ℕ → Type 0
Keeps true ws calibration = calibration ≡ cleared ws
Keeps false ws calibration = Unit

abbrev pub behind_reset : Point → Bool
behind_reset fresh = false
behind_reset attempt = false
behind_reset resetting = true

-- The words put into a list from number `i` on.
put_words : ℕ → List ℕ → List ℕ → List ℕ
put_words i [] cs = cs
put_words i (w ∷ ws) cs = put_words (i + 1) ws (set cs i w)

crc4-put_words :
    (ws cs : List ℕ)
    → length ws ≡ 7
    → length cs ≡ 8
    → All (λ w. w < 2 ^ 16) ws
    → (crc4 (put_words 0 ws cs) ≡ (checksum (get_or ws 0 0) (drop 1 ws), cleared ws))
      × (get_or (put_words 0 ws cs) 0 0 ≡ get_or ws 0 0)
unfolding put_words
crc4-put_words (a0 ∷ a1 ∷ a2 ∷ a3 ∷ a4 ∷ a5 ∷ a6 ∷ []) (c0 ∷ c1 ∷ c2 ∷ c3 ∷ c4 ∷ c5 ∷ c6 ∷ c7 ∷ [])
      h k (s, small) =
    (crc4_lem a0 a1 a2 a3 a4 a5 a6 c7 small, refl)
crc4-put_words [] cs h k s = absurd (omega arith)
crc4-put_words (a0 ∷ []) cs h k s = absurd (omega arith)
crc4-put_words (a0 ∷ a1 ∷ []) cs h k s = absurd (omega arith)
crc4-put_words (a0 ∷ a1 ∷ a2 ∷ []) cs h k s = absurd (omega arith)
crc4-put_words (a0 ∷ a1 ∷ a2 ∷ a3 ∷ []) cs h k s = absurd (omega arith)
crc4-put_words (a0 ∷ a1 ∷ a2 ∷ a3 ∷ a4 ∷ []) cs h k s = absurd (omega arith)
crc4-put_words (a0 ∷ a1 ∷ a2 ∷ a3 ∷ a4 ∷ a5 ∷ []) cs h k s = absurd (omega arith)
crc4-put_words (a0 ∷ a1 ∷ a2 ∷ a3 ∷ a4 ∷ a5 ∷ a6 ∷ []) [] h k s = absurd (omega arith)
crc4-put_words (a0 ∷ a1 ∷ a2 ∷ a3 ∷ a4 ∷ a5 ∷ a6 ∷ []) (c0 ∷ []) h k s = absurd (omega arith)
crc4-put_words (a0 ∷ a1 ∷ a2 ∷ a3 ∷ a4 ∷ a5 ∷ a6 ∷ []) (c0 ∷ c1 ∷ []) h k s = absurd (omega arith)
crc4-put_words (a0 ∷ a1 ∷ a2 ∷ a3 ∷ a4 ∷ a5 ∷ a6 ∷ []) (c0 ∷ c1 ∷ c2 ∷ []) h k s =
    absurd (omega arith)
crc4-put_words (a0 ∷ a1 ∷ a2 ∷ a3 ∷ a4 ∷ a5 ∷ a6 ∷ []) (c0 ∷ c1 ∷ c2 ∷ c3 ∷ []) h k s =
    absurd (omega arith)
crc4-put_words (a0 ∷ a1 ∷ a2 ∷ a3 ∷ a4 ∷ a5 ∷ a6 ∷ []) (c0 ∷ c1 ∷ c2 ∷ c3 ∷ c4 ∷ []) h k s =
    absurd (omega arith)
crc4-put_words (a0 ∷ a1 ∷ a2 ∷ a3 ∷ a4 ∷ a5 ∷ a6 ∷ []) (c0 ∷ c1 ∷ c2 ∷ c3 ∷ c4 ∷ c5 ∷ []) h k s =
    absurd (omega arith)
crc4-put_words (a0 ∷ a1 ∷ a2 ∷ a3 ∷ a4 ∷ a5 ∷ a6 ∷ []) (c0 ∷ c1 ∷ c2 ∷ c3 ∷ c4 ∷ c5 ∷ c6 ∷ []) h k
      s =
    absurd (omega arith)
crc4-put_words (a0 ∷ a1 ∷ a2 ∷ a3 ∷ a4 ∷ a5 ∷ a6 ∷ [])
      (c0 ∷ c1 ∷ c2 ∷ c3 ∷ c4 ∷ c5 ∷ c6 ∷ c7 ∷ c8 ∷ cs) h k s =
    absurd (omega arith)
crc4-put_words (a0 ∷ a1 ∷ a2 ∷ a3 ∷ a4 ∷ a5 ∷ a6 ∷ a7 ∷ ws) cs h k s = absurd (omega arith)

module _ {ℓ} {B : Type ℓ} (ioctl : Ioctl B) (sensor_address : ℕ) where
  -- The words that the sensor sends, as long as it is asked for: `n` of them, from number `i` on, each
  -- after its command, the upper byte first.
  unfoldable pub sent_words : ℕ → ℕ → B → List ℕ
  sent_words zero i bus = []
  sent_words (suc n) i bus =
      let (_, asked) = write_byte ioctl sensor_address (0xA0 + i * 2) bus in
      let ((_, bytes), answered) = read ioctl sensor_address (0 ∷ 0 ∷ []) asked in
      (get_or bytes 0 0 * 256 + get_or bytes 1 0) ∷ sent_words n (i + 1) answered

  length-sent_words : (n i : ℕ) (bus : B) → length (sent_words n i bus) ≡ n
  unfolding sent_words
  length-sent_words zero i bus = refl
  length-sent_words (suc n) i bus = ap suc (length-sent_words n (i + 1) _)

  module _
      (bytes : (b : B)
        → (let bs = (read ioctl sensor_address (0 ∷ 0 ∷ []) b).0.1 in
            (get_or bs 0 0 < 256) × (get_or bs 1 0 < 256))) where
    sent_words-small : (n i : ℕ) (bus : B) → All (λ w. w < 2 ^ 16) (sent_words n i bus)
    unfolding sent_words
    sent_words-small zero i bus = tt
    sent_words-small (suc n) i bus =
        let (asked, next) = write_byte ioctl sensor_address (0xA0 + i * 2) bus in
        let (hi, lo) = bytes next in (omega arith, sent_words-small n (i + 1) _)

  module _ {R : Type ℓ} where
    read_prom_lem :
        (n i : ℕ) (w : World B R)
        → (let (broken, w') = read_prom ioctl sensor_address n i w in
            let ws = sent_words n i w.bus in
            (broken ≡ has_zero ws)
            × (has_zero ws ≡ false → w'.ms.calibration ≡ put_words i ws w.ms.calibration))
    unfolding read_prom sent_words put_words
    read_prom_lem zero i w = (refl, λ h. refl)
    read_prom_lem (suc n) i w =
        let asked = (write_byte ioctl sensor_address (0xA0 + i * 2) w.bus).1 in
        let got = read ioctl sensor_address (0 ∷ 0 ∷ []) asked in
        let hi = get_or got.0.1 0 0 in
        let lo = get_or got.0.1 1 0 in
        let next : World B R = record {
          bus = got.1;
          ms = record w.ms { calibration = set w.ms.calibration i (hi * 256 + lo) };
        } in
        let (b, c) = read_prom_lem n (i + 1) next in
        elim (Bool-cases ((hi == 0) && (lo == 0))) [
          | inl e ↦ let z : (hi * 256 + lo == 0) ≡ true = grind arith in rw (e, z) (refl, λ h. cc)
          | inr e ↦ let z : (hi * 256 + lo == 0) ≡ false = ground arith in rw (e, z) (b, c)
        ]

    -- What `Init` reports and keeps, from its two tests.
    concluded :
        (broken z test right : Bool) (ws words : List ℕ) (w' : World B R)
        → broken ≡ z
        → (z ≡ false → test ≡ right)
        → (z ≡ false → words ≡ cleared ws)
        → (let checked : World B R = record w' { ms = record w'.ms { calibration = words } } in
            let s =
              if broken
              then suspend ioctl sensor_address attempt false w'
              else suspend ioctl sensor_address attempt (if test then true else false) checked in
            (s.is_active ≡ (not z && right)) × Keeps (not z && right) ws s.world.ms.calibration)
    concluded true true test right ws words w' b t k = (refl, tt)
    concluded true false test right ws words w' b t k = absurd cc
    concluded false true test right ws words w' b t k = absurd cc
    concluded false false true true ws words w' b t k = (refl, k refl)
    concluded false false false false ws words w' b t k = (refl, tt)
    concluded false false true false ws words w' b t k = let x = t refl in absurd cc
    concluded false false false true ws words w' b t k = let x = t refl in absurd cc

    module _
        (bytes : (b : B)
          → (let bs = (read ioctl sensor_address (0 ∷ 0 ∷ []) b).0.1 in
              (get_or bs 0 0 < 256) × (get_or bs 1 0 < 256))) where
      -- On every bus whose reads give two bytes, with eight calibration words kept: a run of `Init` that
      -- was not active before reports success exactly if it was resumed behind the reset, none of the
      -- seven words that the sensor sends, each after the command 0xA0 + 2 i and with the upper byte
      -- first, is zero, and the upper four bits of the first are the checksum. The checksum is the
      -- remainder of the seven words, without these four bits and with twelve zero bits behind them, in
      -- the division of polynomials over bits by x^4 + x + 1. After a success `Init` keeps the words
      -- without these four bits, and a zero behind them.
      pub init_checked :
          (p : Point) (w : World B R)
          → length w.ms.calibration ≡ 8
          → (let ws = sent_words 7 0 w.bus in
              let s = init ioctl sensor_address p false w in
              let success = behind_reset p && accepted ws in
              (s.is_active ≡ success) × Keeps success ws s.world.ms.calibration)
      unfolding init
      init_checked fresh w h = (refl, tt)
      init_checked attempt w h = (refl, tt)
      init_checked resetting w h =
          let ws = sent_words 7 0 w.bus in
          let (b, c) = read_prom_lem 7 0 w in
          let (crc, first) =
            crc4-put_words ws w.ms.calibration (length-sent_words 7 0 w.bus) h
              (sent_words-small bytes 7 0 w.bus) in
          let w' = (read_prom ioctl sensor_address 7 0 w).1 in
          let found = λ (e : has_zero ws ≡ false). ap crc4 (c e) ∙ crc in
          let word = λ (e : has_zero ws ≡ false). ap (λ x. get_or x 0 0) (c e) ∙ first in
          concluded (read_prom ioctl sensor_address 7 0 w).0 (has_zero ws)
            ((crc4 w'.ms.calibration).0 == get_or w'.ms.calibration 0 0 / 2 ^ 12)
            (checksum (get_or ws 0 0) (drop 1 ws) == get_or ws 0 0 / 2 ^ 12) ws
            (crc4 w'.ms.calibration).1 w' b
            (λ e.
              ap (λ x. x.0 == get_or w'.ms.calibration 0 0 / 2 ^ 12) (found e)
              ∙ ap (λ x. checksum (get_or ws 0 0) (drop 1 ws) == x / 2 ^ 12) (word e))
            (λ e. ap (λ x. x.1) (found e))
