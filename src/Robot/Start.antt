-- ===== src/Robot/Start.antt =====
-- src/Robot/Features/StartSettings/StartSettings.cpp and src/Lib/Math/SIPrefix.hpp: the settings that
-- the program reads when it starts. The JSON library and `atof` are parameters.
pub mod File
use polar_uv_robot.Prelude.{
  ℕ, zero, suc, ◌+◌, ◌-◌, ◌*◌, ◌/◌, ◌%◌, ◌^◌, Bool, true, false, Option, none, some, List, [], ◌∷◌,
  Bytes, utf8, ltb, leb, ◌==◌, ◌&&◌, if◌then◌else◌, length, get_elem?, take, drop,
}
use polar_uv_robot.Prelude.Int.{ℤ, pos, negsuc}
use polar_uv_robot.Real.{Real, ◌⊗◌, whole}
use polar_uv_robot.Network.Exceptions.{std_exception, unknown}
use polar_uv_robot.Network.Exec.{Exec, pure, throw, crash, ◌>>=◌}

-- `Kilo`, `Mega`, `Giga` and `Tera` of an integer, and `Micro` and `Nano`, which divide.
unfoldable pub kilo : ℕ → ℕ
kilo n = n * 1000

unfoldable pub mega : ℕ → ℕ
mega n = n * 1000000

unfoldable pub giga : ℕ → ℕ
giga n = n * 1000000000

unfoldable pub tera : ℕ → ℕ
tera n = n * 1000000000000

unfoldable pub micro : ℕ → ℕ
micro n = n / 1000000

unfoldable pub nano : ℕ → ℕ
nano n = n / 1000000000

pub data Mode : Type 0 where
  auv rov : Mode

-- `MotorsSender::SPI`, by the device and the speed that it is opened with.
pub record Spi : Type 0 where
  pub path : Bytes
  pub speed_hz : ℕ

-- The members of the class; the pointer to the sender is null unless it is an `Spi`.
pub record StartSettings : Type 0 where
  pub mode : Mode
  pub sensors_path : Bytes
  pub motors_sender : Option Spi

-- The library of JSON values: `parser::write` of texts in turn with `parser::release`, `value::at`,
-- `as_object` and `as_string`. None where it throws, with the message of its exceptions.
pub record Json {ℓ} (J : Type ℓ) : Type ℓ where
  pub parse : List Bytes → Option J
  pub at : J → Bytes → Option J
  pub as_object : J → Option J
  pub as_string : J → Option Bytes
  pub what : Bytes

-- A C string ends before its first zero.
unfoldable pub until_nul : Bytes → Bytes
until_nul [] = []
until_nul (c ∷ bs) = let rest = until_nul bs in if c == 0 then [] else c ∷ rest

abbrev pub buf_size : ℕ
buf_size = 1024

-- The texts that `parseFile` gives the parser, from a file in pieces of 1024 bytes. A piece is given
-- as a C string, so a piece without a zero is read past the end of its array: none.
unfoldable pub file_texts : ℕ → Bytes → Option (List Bytes)
unfolding until_nul
file_texts zero file = some []
file_texts (suc fuel) file =
    let text = until_nul (take buf_size file) in
    let rest = file_texts fuel (drop buf_size file) in
    if length text == buf_size
    then none
    else if ltb (length file) buf_size
    then some (text ∷ [])
    else elim rest [ none ↦ none | some texts ↦ some (text ∷ texts) ]

-- A number for every symbol that may end a frequency.
unfoldable pub freq_factor : ℕ → Option (Bool × ℕ)
unfolding kilo mega
freq_factor c =
    if c == b'M'
    then some (true, mega 1)
    else if c == b'K'
    then some (true, kilo 1)
    else if leb b'0' c && leb c b'9'
    then some (false, 1)
    else none

-- `(uint32_t) x`
unfoldable pub uint32 : ℤ → ℕ
uint32 (pos n) = n % 2 ^ 32
uint32 (negsuc n) = 2 ^ 32 - 1 - n % 2 ^ 32

unfoldable pub equal_bytes : Bytes → Bytes → Bool
equal_bytes [] [] = true
equal_bytes (a ∷ as_) (b ∷ bs) = (a == b) && equal_bytes as_ bs
equal_bytes _ _ = false

module _ {ℓ} {S : Type ℓ} where
  unfoldable pub parse_mode : Bytes → Exec S Mode
  unfolding equal_bytes utf8
  parse_mode mode =
      if equal_bytes mode (utf8 "AUV")
      then pure auv
      else if equal_bytes mode (utf8 "ROV")
      then pure rov
      else throw unknown

module _ {κ} {J : Type κ} (json : Json J) where
  -- `motorSender.at("mode") == "SPI"`
  unfoldable pub is_spi : J → Bool
  unfolding equal_bytes utf8
  is_spi value = elim (json.as_string value) [
    | none ↦ false
    | some text ↦ equal_bytes text (utf8 "SPI")
  ]

module _ {ℓ κ μ} {S : Type ℓ} {J : Type κ} {D : Type μ} ⦃d : Real D⦄ (json : Json J)
    (atof : Bytes → D) (to_ssize : D → ℤ) where
  -- What the library throws.
  abbrev or_throw {ν} : {A : Type ν} → Option A → Exec S A
  or_throw (some a) = pure a
  or_throw none = throw (std_exception json.what)

  -- `parseFile`, with the content of the file; none where it cannot be opened. The thrown text is no
  -- `std::exception`.
  unfoldable pub parse_file : Option Bytes → Exec S J
  unfolding file_texts
  parse_file none = throw unknown
  parse_file (some file) = elim (file_texts (length file + 1) file) [
    | none ↦ crash
    | some texts ↦ or_throw (json.parse texts)
  ]

  -- A unit is overwritten by a zero, so that `atof` stops before it. An empty text is indexed by -1.
  unfoldable pub parse_freq : Bytes → Exec S ℤ
  unfolding freq_factor until_nul
  parse_freq str =
      let last = length str - 1 in
      elim (get_elem? str last) [
        | none ↦ crash
        | some c ↦ elim (freq_factor c) [
          | none ↦ throw unknown
          | some (unit, factor) ↦
              pure
                (to_ssize (atof (until_nul (if unit then take last str else str)) ⊗ whole factor))
        ]
      ]

  abbrev text_at : J → Bytes → Exec S Bytes
  text_at object key = do value ← or_throw (json.at object key); or_throw (json.as_string value)

  abbrev object_at : J → Bytes → Exec S J
  object_at object key = do value ← or_throw (json.at object key); or_throw (json.as_object value)

  unfoldable pub parse_spi : J → Bool → Exec S (Option Spi)
  unfolding parse_freq uint32 utf8
  parse_spi sender false = pure none
  parse_spi sender true = do
    path ← text_at sender (utf8 "path")
    text ← text_at sender (utf8 "freq")
    freq ← parse_freq text
    pure (some (record { path = until_nul path; speed_hz = uint32 freq }))

  unfoldable pub parse_sender : J → Exec S (Option Spi)
  unfolding parse_spi is_spi utf8
  parse_sender sender = do
    mode ← or_throw (json.at sender (utf8 "mode"))
    parse_spi sender (is_spi json mode)

  -- The constructor.
  unfoldable pub new_start_settings : Option Bytes → Exec S StartSettings
  unfolding parse_file parse_mode parse_sender utf8
  new_start_settings file = do
    root ← parse_file file
    mode_text ← text_at root (utf8 "mode")
    mode ← parse_mode mode_text
    sender ← object_at root (utf8 "motorSender")
    motors_sender ← parse_sender sender
    sensors ← object_at root (utf8 "sensors")
    path ← text_at sensors (utf8 "path")
    pure (record { mode = mode; sensors_path = path; motors_sender = motors_sender })
