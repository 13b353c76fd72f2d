-- ===== src/Robot/Tests/Boot.antt =====
-- Tests of the start of the program.
use polar_uv_robot.Prelude.{◌-◌, ◌≡◌, refl, some, [], ◌∷◌, Bytes, utf8, if◌then◌else◌, arith}
use polar_uv_robot.Prelude.Int.{ℤ, ◌*ℤ◌, pos}
use polar_uv_robot.Real.{int_real, int_convert}
use polar_uv_robot.Network.Exec.{returned}
use polar_uv_robot.Settings.{new_settings}
use polar_uv_robot.Commands.Queue.{new_queue}
use polar_uv_robot.Robot.Start.{Json, equal_bytes, freq_factor, mega, new_start_settings}
use polar_uv_robot.Robot.Services.{robot_services}
use polar_uv_robot.Robot.Boot.{Describes, rov_settings, boot, boot_lem}
use polar_uv_robot.Robot.Tests.{platform, loaded, session}

-- A library of JSON that knows one value, and the start of the program on its file.
abbrev answer : Bytes → Bytes → Bytes
unfolding equal_bytes utf8
answer value key =
    if equal_bytes key (utf8 "mode")
    then (if equal_bytes value (utf8 "sender") then utf8 "SPI" else utf8 "ROV")
    else if equal_bytes key (utf8 "motorSender")
    then utf8 "sender"
    else if equal_bytes key (utf8 "freq")
    then utf8 "8M"
    else utf8 "dev"

abbrev json : Json Bytes
unfolding utf8
json = record {
  parse = λ texts. some [];
  at = λ value key. some (answer value key);
  as_object = some;
  as_string = some;
  what = utf8 "out of range";
}

abbrev atof : Bytes → ℤ
atof [] = pos 0
atof (c ∷ cs) = pos (c - b'0')

described : Describes json [] (b'8' ∷ []) b'M' (utf8 "dev") (utf8 "dev")
unfolding equal_bytes utf8
described = record {
  mode = utf8 "ROV";
  mode_at = refl;
  mode_text = refl;
  sender_value = utf8 "sender";
  sender_at = refl;
  sender = utf8 "sender";
  sender_object = refl;
  kind = utf8 "SPI";
  kind_at = refl;
  kind_text = refl;
  device = utf8 "dev";
  device_at = refl;
  device_text = refl;
  freq = utf8 "8M";
  freq_at = refl;
  freq_text = refl;
  sensors_value = utf8 "dev";
  sensors_at = refl;
  sensors = utf8 "dev";
  sensors_object = refl;
  bus = utf8 "dev";
  bus_at = refl;
  bus_text = refl;
}

boot_lem_example :
    let start = rov_settings (utf8 "dev") (utf8 "dev") (pos 8000000) in
    let (out, s') = boot platform json atof (λ x. x) (some (b'A' ∷ [])) [] session in
    (new_start_settings json atof (λ x. x) (some (b'A' ∷ [])) session ≡ (returned start, session))
    × (out ≡ returned tt)
    × (s'.services ≡ robot_services platform)
    × (s'.state.settings ≡ loaded)
    × (s'.state.queue ≡ new_queue)
unfolding loaded new_settings freq_factor mega json ◌*ℤ◌
boot_lem_example =
    boot_lem platform json atof (λ x. x) (b'A' ∷ []) (b'8' ∷ []) b'M' 1000000 (utf8 "dev")
      (utf8 "dev") [] [] loaded session (omega arith, tt) (omega arith) refl described
      (omega arith, tt) refl refl refl
