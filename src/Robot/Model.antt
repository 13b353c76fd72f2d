-- ===== src/Robot/Model.antt =====
-- What the robot as a whole promises, without sessions, services, counters and arrays: the operator's
-- commands in force, how many rounds they are old, the settings and the sensors, and the motors that
-- follow from them. A description of src/Robot to which Refines compares the code.
use polar_uv_robot.Prelude.{
  ℕ, suc, ◌+◌, Option, none, some, List, [], ◌∷◌, ◌++◌, ltb, if◌then◌else◌,
}
use polar_uv_robot.Real.{Real, Convert}
use polar_uv_robot.Settings.{Message, RobotSettingsStruct}
use polar_uv_robot.Settings.Validation.{settings_of}
use polar_uv_robot.Settings.Motion.{cycle_settings}
use polar_uv_robot.Peripheral.Bno055.{Bno}
use polar_uv_robot.Peripheral.Ms5837.{Ms}
use polar_uv_robot.Sensors.{SensorsState, get_sensors_struct}
use polar_uv_robot.Commands.Struct.{CommandsStruct, no_commands}
use polar_uv_robot.Commands.Queue.{max_count}
use polar_uv_robot.Commands.Pid.{PidArray}
use polar_uv_robot.Commands.Motors.{MotorsStruct}
use polar_uv_robot.Commands.Cycle.{Inputs, movement}
use polar_uv_robot.Commands.Cycle.Rounds.{sent_for}

pub record Model {ℓ κ} (F : Type ℓ) (D : Type κ) : Type (ℓ ⊔ κ) where
  pub settings : RobotSettingsStruct F
  pub sensors : SensorsState D
  pub commands : CommandsStruct F
  pub age : ℕ
  pub pids : PidArray F

-- What can happen to it: commands arrive, a message of settings arrives, one of the two sensors has new
-- values, and the motors are driven, a time after the last time.
pub data Event {ℓ κ} (F : Type ℓ) (D : Type κ) : Type (ℓ ⊔ κ) where
  commanded : CommandsStruct F → Event F D
  configured : Message F → Event F D
  oriented : Bno D → Event F D
  sounded : Ms D → Event F D
  elapsed : F → Event F D

module _ {ℓ κ} {F : Type ℓ} {D : Type κ} ⦃f : Real F⦄ ⦃d : Real D⦄ ⦃conv : Convert F D⦄ where
  abbrev pub inputs : F → Model F D → Inputs F
  inputs dt m = record {
    dt = dt;
    settings = cycle_settings m.settings;
    sensors = get_sensors_struct m.sensors;
  }

  -- Commands are in force for 399 rounds.
  abbrev pub in_force : Model F D → CommandsStruct F
  in_force m = if ltb (m.age + 1) max_count then m.commands else no_commands

  unfoldable pub control : F → Model F D → Option MotorsStruct
  control dt m = sent_for D (inputs dt m) (in_force m) m.pids

  unfoldable pub happen : Event F D → Model F D → Model F D
  unfolding settings_of
  happen (commanded c) m = record m { commands = c; age = 0 }
  happen (configured x) m = record m { settings = settings_of x }
  happen (oriented x) m = record m { sensors = record m.sensors { bno055 = x } }
  happen (sounded x) m = record m { sensors = record m.sensors { ms5837 = x } }
  happen (elapsed dt) m = record m {
    age = suc m.age;
    pids = (movement D (inputs dt m) (in_force m) m.pids).1;
  }

  unfoldable pub output : Event F D → Model F D → List MotorsStruct
  unfolding control
  output (elapsed dt) m = elim (control dt m) [ none ↦ [] | some sent ↦ sent ∷ [] ]
  output _ m = []

  -- The model after events, and what was sent to the motors; both lists have the newest first.
  unfoldable pub replay : Model F D → List (Event F D) → Model F D × List MotorsStruct
  unfolding happen output
  replay m [] = (m, [])
  replay m (e ∷ es) = let (before, sent) = replay m es in (happen e before, output e before ++ sent)

  -- The events of each kind.
  unfoldable pub orders : List (Event F D) → List (CommandsStruct F)
  orders [] = []
  orders (commanded c ∷ es) = c ∷ orders es
  orders (_ ∷ es) = orders es

  unfoldable pub messages : List (Event F D) → List (Message F)
  messages [] = []
  messages (configured m ∷ es) = m ∷ messages es
  messages (_ ∷ es) = messages es

  unfoldable pub orientations : List (Event F D) → List (Bno D)
  orientations [] = []
  orientations (oriented x ∷ es) = x ∷ orientations es
  orientations (_ ∷ es) = orientations es

  unfoldable pub soundings : List (Event F D) → List (Ms D)
  soundings [] = []
  soundings (sounded x ∷ es) = x ∷ soundings es
  soundings (_ ∷ es) = soundings es

  unfoldable pub times : List (Event F D) → List F
  times [] = []
  times (elapsed dt ∷ es) = dt ∷ times es
  times (_ ∷ es) = times es
