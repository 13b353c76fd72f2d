-- ===== src/Robot/Boot.antt =====
-- src/Startup.cpp: from the two files of settings to a robot that serves its clients.
use polar_uv_robot.Prelude.{
  ℕ, ◌-◌, ◌<◌, ◌≡◌, refl, true, Option, some, List, [], ◌∷◌, ◌++◌, Bytes, utf8, length,
  length-append, get_elem?, take-append, arith,
}
use polar_uv_robot.Prelude.Int.{ℤ}
use polar_uv_robot.Real.{Real, Convert, ◌⊗◌, whole}
use polar_uv_robot.Network.Exec.{Exec, returned, ◌>>=◌}
use polar_uv_robot.Network.Session.{Session}
use polar_uv_robot.Settings.{SettingsState, new_settings}
use polar_uv_robot.Robot.Start.{
  StartSettings, Spi, rov, Json, buf_size, until_nul, freq_factor, parse_file, parse_freq, uint32,
  equal_bytes, parse_mode, is_spi, parse_spi, parse_sender, new_start_settings,
}
use polar_uv_robot.Robot.Start.File.{IsText, until_nul_lem, file_texts_lem}
use polar_uv_robot.Robot.{RobotState, Platform, set_up}
use polar_uv_robot.Commands.Queue.{new_queue}
use polar_uv_robot.Robot.Services.{robot_services, set_up-robot_services}

get_elem?-snoc {ℓ} :
    {A : Type ℓ} (xs : List A) (c : A) → get_elem? (xs ++ c ∷ []) (length xs) ≡ some c
get_elem?-snoc [] c = refl
get_elem?-snoc (x ∷ xs) c = get_elem?-snoc xs c

module _ {κ} {J : Type κ} (json : Json J) where
  -- A file of settings for a remotely operated robot whose motors are on SPI, with a frequency of
  -- `digits` and the unit `c`.
  pub record Describes (root : J) (digits : Bytes) (c : ℕ) (path sensors_path : Bytes)
      : Type κ where
    pub mode : J
    pub mode_at : json.at root (utf8 "mode") ≡ some mode
    pub mode_text : json.as_string mode ≡ some (utf8 "ROV")
    pub sender_value : J
    pub sender_at : json.at root (utf8 "motorSender") ≡ some sender_value
    pub sender : J
    pub sender_object : json.as_object sender_value ≡ some sender
    pub kind : J
    pub kind_at : json.at sender (utf8 "mode") ≡ some kind
    pub kind_text : json.as_string kind ≡ some (utf8 "SPI")
    pub device : J
    pub device_at : json.at sender (utf8 "path") ≡ some device
    pub device_text : json.as_string device ≡ some path
    pub freq : J
    pub freq_at : json.at sender (utf8 "freq") ≡ some freq
    pub freq_text : json.as_string freq ≡ some (digits ++ c ∷ [])
    pub sensors_value : J
    pub sensors_at : json.at root (utf8 "sensors") ≡ some sensors_value
    pub sensors : J
    pub sensors_object : json.as_object sensors_value ≡ some sensors
    pub bus : J
    pub bus_at : json.at sensors (utf8 "path") ≡ some bus
    pub bus_text : json.as_string bus ≡ some sensors_path

-- The start settings of such a robot.
abbrev pub rov_settings : Bytes → Bytes → ℤ → StartSettings
unfolding uint32 until_nul
rov_settings path sensors_path freq = record {
  mode = rov;
  sensors_path = sensors_path;
  motors_sender = some (record { path = until_nul path; speed_hz = uint32 freq });
}

module _ {ℓ κ μ} {S : Type ℓ} {J : Type κ} {D : Type μ} ⦃d : Real D⦄ (json : Json J)
    (atof : Bytes → D) (to_ssize : D → ℤ) (s : S) where
  -- A frequency with a unit is the number before it, times the factor of the unit.
  parse_freq_unit :
      (digits : Bytes) (c factor : ℕ)
      → IsText digits
      → freq_factor c ≡ some (true, factor)
      → parse_freq json atof to_ssize (digits ++ c ∷ []) s
        ≡ (returned (to_ssize (atof digits ⊗ whole factor)), s)
  unfolding parse_freq
  parse_freq_unit digits c factor text unit =
      let last : length (digits ++ c ∷ []) - 1 ≡ length digits =
        omega (arith, length-append digits (c ∷ [])) in
      rw
        (
          parse_freq,
          last,
          get_elem?-snoc digits c,
          unit,
          last,
          take-append digits (c ∷ []),
          until_nul_lem digits text,
        )
        refl

  module _ (file digits : Bytes) (c factor : ℕ) (path sensors_path : Bytes) (root : J)
      (text : IsText file) (short : length file < buf_size)
      (parsed : json.parse (file ∷ []) ≡ some root)
      (described : Describes json root digits c path sensors_path) (digits_text : IsText digits)
      (unit : freq_factor c ≡ some (true, factor)) where
    parse_file_lem : parse_file json atof to_ssize (some file) s ≡ (returned root, s)
    unfolding parse_file
    parse_file_lem = rw (parse_file, (file_texts_lem file text).0 short, parsed) refl

    abbrev spi : Spi
    spi = record {
      path = until_nul path;
      speed_hz = uint32 (to_ssize (atof digits ⊗ whole factor));
    }

    parse_sender_lem : parse_sender json atof to_ssize described.sender s ≡ (returned (some spi), s)
    unfolding parse_sender parse_spi is_spi equal_bytes
    parse_sender_lem =
        rw
          (
            parse_sender,
            described.kind_at,
            is_spi,
            described.kind_text,
            parse_spi,
            described.device_at,
            described.device_text,
            described.freq_at,
            described.freq_text,
            parse_freq_unit digits c factor digits_text unit,
          )
          refl

    new_start_settings_lem :
        new_start_settings json atof to_ssize (some file) s
        ≡ (returned (rov_settings path sensors_path (to_ssize (atof digits ⊗ whole factor))), s)
    unfolding new_start_settings parse_mode equal_bytes
    new_start_settings_lem =
        rw
          (
            new_start_settings, parse_file_lem, described.mode_at, described.mode_text,
            described.sender_at, described.sender_object, parse_sender_lem, described.sensors_at,
            described.sensors_object, described.bus_at, described.bus_text,
          )
          refl

module _ {ℓ κ μ} {F : Type ℓ} {D : Type κ} {J : Type μ} ⦃f : Real F⦄ ⦃d : Real D⦄
    ⦃conv : Convert F D⦄ (p : Platform F) (json : Json J) (atof : Bytes → D)
    (to_ssize : D → ℤ) where
  -- `Robot robot; robot.SetUp();` of `main`, with the content of `Settings.json` and of the file of
  -- the settings of the motion.
  unfoldable pub boot : Option Bytes → Bytes → Exec (Session (RobotState F D)) (Unit {0})
  unfolding set_up new_start_settings
  boot start_file file = do
    start ← new_start_settings json atof to_ssize start_file
    set_up p file start

  -- The start of the program, where `Settings.json` has less than 1024 bytes and describes a remotely
  -- operated robot with motors on SPI, at a frequency that is a text of digits and one unit. The
  -- constructor of the start settings returns the mode, the path of the sensors and a sender with the
  -- path of its device and the number times the factor of the unit, as 32 bits. The start as a whole
  -- returns, if the other file of settings can be read, and the session then has the four services of
  -- the robot, the settings of that file and a queue without commands.
  pub boot_lem :
      (json_file digits : Bytes) (c factor : ℕ) (path sensors_path file : Bytes) (root : J)
      (settings : SettingsState F) (s : Session (RobotState F D))
      → IsText json_file
      → length json_file < buf_size
      → json.parse (json_file ∷ []) ≡ some root
      → Describes json root digits c path sensors_path
      → IsText digits
      → freq_factor c ≡ some (true, factor)
      → new_settings p.settings_protobuf file ≡ some settings
      → s.services ≡ []
      → (let start = rov_settings path sensors_path (to_ssize (atof digits ⊗ whole factor)) in
          let (out, s') = boot (some json_file) file s in
          (new_start_settings json atof to_ssize (some json_file) s ≡ (returned start, s))
          × (out ≡ returned tt)
          × (s'.services ≡ robot_services p)
          × (s'.state.settings ≡ settings)
          × (s'.state.queue ≡ new_queue))
  unfolding boot
  boot_lem json_file digits c factor path sensors_path file root settings s text short parsed
        described digits_text unit loads empty =
      let e =
        new_start_settings_lem json atof to_ssize s json_file digits c factor path sensors_path root
          text short parsed described digits_text unit in
      let start = rov_settings path sensors_path (to_ssize (atof digits ⊗ whole factor)) in
      let (returns, services, loaded, queue, _, _) =
        set_up-robot_services p file start _ settings s refl refl loads empty in
      rw (boot, e) (refl, returns, services, loaded, queue)
