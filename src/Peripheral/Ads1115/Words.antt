-- ===== src/Peripheral/Ads1115/Words.antt =====
-- The word that src/Lib/Peripheral/ADS1115_I2C.cpp writes to the configuration register, by its fields.
use polar_uv_robot.Prelude.{ℕ, ◌+◌, ◌*◌, ◌<◌, ◌≡◌, List, [], ◌∷◌, All, arith, zero, suc}
use polar_uv_robot.Peripheral.Ads1115.{
  Gain, twothirds, one, two, four, eight, sixteen, DataRate, sps8, sps16, sps32, sps64, sps128,
  sps250, sps475, sps860, gain_word, rate_word, or_channel, Converter, read_config,
}

unfoldable pub gain_number : Gain → ℕ
gain_number twothirds = 0
gain_number one = 1
gain_number two = 2
gain_number four = 3
gain_number eight = 4
gain_number sixteen = 5

unfoldable pub rate_number : DataRate → ℕ
rate_number sps8 = 0
rate_number sps16 = 1
rate_number sps32 = 2
rate_number sps64 = 3
rate_number sps128 = 4
rate_number sps250 = 5
rate_number sps475 = 6
rate_number sps860 = 7

-- The fields, the highest first, with their sizes in bits: start a conversion (1), a single input
-- (3), the gain (3), one conversion (1), the rate (3), and a comparator that is off (5).
unfoldable pub fields : ℕ → ℕ → ℕ → ℕ
fields channel gain rate = ((((8 + (4 + channel)) * 8 + gain) * 2 + 1) * 8 + rate) * 32 + 3

abbrev converter : Gain → DataRate → Converter
converter g r = record { gain = g; data_rate = r; address = 0x48 }

abbrev Fits : Gain → DataRate → ℕ → Type 0
Fits g r k = read_config (converter g r) k ≡ fields k (gain_number g) (rate_number r)

abbrev gains : List Gain
gains = twothirds ∷ one ∷ two ∷ four ∷ eight ∷ sixteen ∷ []

abbrev rates : List DataRate
rates = sps8 ∷ sps16 ∷ sps32 ∷ sps64 ∷ sps128 ∷ sps250 ∷ sps475 ∷ sps860 ∷ []

every_word : All (λ g. All (λ r. All (λ k. Fits g r k) (0 ∷ 1 ∷ 2 ∷ 3 ∷ [])) rates) gains
unfolding read_config gain_word rate_word or_channel fields gain_number rate_number
every_word = omega arith

at_gain : (P : Gain → Type 0) (g : Gain) → All P gains → P g
at_gain P twothirds a = a.0
at_gain P one a = a.1.0
at_gain P two a = a.1.1.0
at_gain P four a = a.1.1.1.0
at_gain P eight a = a.1.1.1.1.0
at_gain P sixteen a = a.1.1.1.1.1.0

at_rate : (P : DataRate → Type 0) (r : DataRate) → All P rates → P r
at_rate P sps8 a = a.0
at_rate P sps16 a = a.1.0
at_rate P sps32 a = a.1.1.0
at_rate P sps64 a = a.1.1.1.0
at_rate P sps128 a = a.1.1.1.1.0
at_rate P sps250 a = a.1.1.1.1.1.0
at_rate P sps475 a = a.1.1.1.1.1.1.0
at_rate P sps860 a = a.1.1.1.1.1.1.1.0

at_channel : (P : ℕ → Type 0) (k : ℕ) → k < 4 → All P (0 ∷ 1 ∷ 2 ∷ 3 ∷ []) → P k
at_channel P zero h a = a.0
at_channel P (suc zero) h a = a.1.0
at_channel P (suc (suc zero)) h a = a.1.1.0
at_channel P (suc (suc (suc zero))) h a = a.1.1.1.0
at_channel P (suc (suc (suc (suc k)))) h a = absurd (omega arith)

-- For every gain and rate, and for the channels 0 to 3, the word that starts a conversion has the
-- fields of that channel, gain and rate, each at its place, and none changes another.
pub read_config_lem :
    (c : Converter) (channel : ℕ)
    → channel < 4
    → read_config c channel ≡ fields channel (gain_number c.gain) (rate_number c.data_rate)
unfolding read_config
read_config_lem c channel h =
    let by_rate =
      at_gain (λ g. All (λ r. All (λ k. Fits g r k) (0 ∷ 1 ∷ 2 ∷ 3 ∷ [])) rates) c.gain
        every_word in
    let by_channel =
      at_rate (λ r. All (λ k. Fits c.gain r k) (0 ∷ 1 ∷ 2 ∷ 3 ∷ [])) c.data_rate by_rate in
    at_channel (λ k. Fits c.gain c.data_rate k) channel h by_channel
