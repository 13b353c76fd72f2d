-- ===== src/Settings/Tests.antt =====
-- Tests of the settings on whole numbers, with two messages and a generated parser that tells them
-- apart by the first byte.
use polar_uv_robot.Prelude.{
  ◌≡◌, ◌⊎◌, refl, arith, true, ◌==◌, if◌then◌else◌, some, [], ◌∷◌, Bytes, utf8,
}
use polar_uv_robot.Prelude.Int.{ℤ, pos, negsuc}
use polar_uv_robot.Real.{int_real, int_convert}
use polar_uv_robot.Commands.Pid.{new_pid}
use polar_uv_robot.Commands.Queue.{new_queue}
use polar_uv_robot.Commands.Cycle.{Inputs, CycleState}
use polar_uv_robot.Settings.Motion.{cycle_settings}
use polar_uv_robot.Network.Packet.{response, ok, no_content}
use polar_uv_robot.Network.Exceptions.{Exception}
use polar_uv_robot.Network.Exec.{returned, thrown}
use polar_uv_robot.Network.Buffer.{view_of}
use polar_uv_robot.Network.Service.{read_data, write_data}
use polar_uv_robot.Settings.{
  PidMessage, Message, Protobuf, SettingsState, all_off, no_settings, parse_settings, validate,
  new_settings, settings_service,
}
use polar_uv_robot.Settings.Validation.{
  InRange, Accepted, validate_lem, settings_of, parse_settings-Accepted,
}
use polar_uv_robot.Settings.Storage.{write_data-read_data}

abbrev pid : PidMessage ℤ
pid = record { p = pos 3; i = pos 1; d = pos 2 }

-- One motor of the hand and two thrusters.
abbrev good : Message ℤ
good = record {
  thrusters_coefficient =
      pos 1
      ∷ pos 0
      ∷ negsuc 0
      ∷ pos 0
      ∷ pos 100
      ∷ pos 0
      ∷ pos 0
      ∷ pos 1
      ∷ pos 0
      ∷ negsuc 99
      ∷ pos 0
      ∷ pos 0
      ∷ [];
  hand_coefficient = pos 1 ∷ [];
  maximum_motor_speed = 4000;
  motors_protocol = 2;
  pid = pid ∷ pid ∷ pid ∷ pid ∷ [];
  pid_enabled = all_off;
}

-- Five motors of the hand.
abbrev bad : Message ℤ
bad = record good { hand_coefficient = pos 1 ∷ pos 1 ∷ pos 1 ∷ pos 1 ∷ pos 1 ∷ [] }

abbrev parse : Bytes → Message ℤ
parse (b ∷ bs) = if b == 1 then good else bad
parse [] = bad

abbrev pb : Protobuf ℤ
pb = record { parse = parse; serialize = λ m. 1 ∷ [] }

abbrev state : SettingsState ℤ
unfolding no_settings
state = record { file = []; settings = no_settings }

good-Accepted : Accepted good
unfolding InRange
good-Accepted = record {
  hand_fits = omega arith;
  whole_rows = refl;
  motors_fit = omega arith;
  thrusters_in_range = (
    refl,
    (refl, (refl, (refl, (refl, (refl, (refl, (refl, (refl, (refl, (refl, (refl, tt))))))))))),
  );
  hand_in_range = (refl, tt);
}

bad_refused : ¬ Accepted bad
bad_refused a = omega (arith, a.hand_fits)

validate_lem_example :
    (Accepted bad × (validate bad state ≡ (returned true, state)))
    ⊎ (¬ Accepted bad × ((e : Exception) × (validate bad state ≡ (thrown e, state))))
validate_lem_example = validate_lem bad state

parse_settings-Accepted_example : parse_settings good ≡ some (settings_of good)
parse_settings-Accepted_example = parse_settings-Accepted good good-Accepted (omega arith)

abbrev after : SettingsState ℤ
unfolding settings_of
after = record { file = 1 ∷ []; settings = settings_of good }

write_data-read_data_example :
    (write_data (settings_service pb 3) (view_of (1 ∷ [])) state
      ≡ (returned (response (utf8 "") no_content 3), after))
    × (read_data (settings_service pb 3) after ≡ (returned (response (1 ∷ []) ok 3), after))
    × (new_settings pb (1 ∷ []) ≡ some after)
unfolding after
write_data-read_data_example =
    write_data-read_data pb 3 (1 ∷ []) state good-Accepted (omega arith) (omega arith)

abbrev quiet : Inputs ℤ
quiet = record {
  dt = pos 1;
  settings = cycle_settings (settings_of good);
  sensors = record {
    rotation = record { e0 = pos 0; e1 = pos 0; e2 = pos 0; e3 = pos 0 };
    acceleration = [];
    depth = pos 0;
    pressure = pos 0;
    battery_voltage = pos 0;
    motion_calibration = [];
    euler = true;
  };
}

abbrev idle : CycleState ℤ
idle = record { queue = new_queue; pids = new_pid }
