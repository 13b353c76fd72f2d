-- ===== src/Robot/Loop.antt =====
-- A round of `StartCommands` in src/Robot/Features/Commands/CommandsCycle.cpp between its locks: it
-- takes the commands, the settings and the values of the two sensors one after the other, each under a
-- mutex of its own, and other threads may run between them.
use polar_uv_robot.Prelude.{Option, none, some}
use polar_uv_robot.Real.{Real, Convert}
use polar_uv_robot.Settings.{RobotSettingsStruct}
use polar_uv_robot.Settings.Motion.{cycle_settings}
use polar_uv_robot.Peripheral.Bno055.{Data}
use polar_uv_robot.Sensors.{get_sensors_struct}
use polar_uv_robot.Commands.Struct.{CommandsStruct}
use polar_uv_robot.Commands.Queue.{get_commands}
use polar_uv_robot.Commands.Motors.{MotorsStruct}
use polar_uv_robot.Commands.Cycle.{Inputs, movement}
use polar_uv_robot.Commands.Cycle.Rounds.{sent_for}
use polar_uv_robot.Robot.{RobotState, put_queue}

-- Where the loop is, with what it has taken so far: at the start of a round, behind `GetCommands`, behind
-- `GetSettings`, and behind the first `GetData` of `GetSensorsStruct`.
pub data Point {ℓ κ} (F : Type ℓ) (D : Type κ) : Type (ℓ ⊔ κ) where
  waiting : Point F D
  has_commands : F → CommandsStruct F → Point F D
  has_settings : F → CommandsStruct F → RobotSettingsStruct F → Point F D
  has_orientation : F → CommandsStruct F → RobotSettingsStruct F → Data D → Point F D

module _ {ℓ κ} {F : Type ℓ} {D : Type κ} where
  -- What it has taken.
  unfoldable pub commands_at : Point F D → Option (CommandsStruct F)
  commands_at waiting = none
  commands_at (has_commands dt c) = some c
  commands_at (has_settings dt c settings) = some c
  commands_at (has_orientation dt c settings bno) = some c

  unfoldable pub settings_at : Point F D → Option (RobotSettingsStruct F)
  settings_at (has_settings dt c settings) = some settings
  settings_at (has_orientation dt c settings bno) = some settings
  settings_at _ = none

  unfoldable pub orientation_at : Point F D → Option (Data D)
  orientation_at (has_orientation dt c settings bno) = some bno
  orientation_at _ = none

module _ {ℓ κ} {F : Type ℓ} {D : Type κ} ⦃f : Real F⦄ ⦃d : Real D⦄ ⦃conv : Convert F D⦄ where
  -- `timer_.Update()` and `GetCommands`.
  unfoldable pub take_commands : F → RobotState F D → Point F D × RobotState F D
  unfolding get_commands
  take_commands dt s =
      let (commands, queue) = get_commands s.queue in (has_commands dt commands, put_queue queue s)

  -- What the rest of the round computes from, once the depth is taken too.
  unfoldable pub found : F → RobotSettingsStruct F → Data D → RobotState F D → Inputs F
  unfolding get_sensors_struct
  found dt settings bno s = record {
    dt = dt;
    settings = cycle_settings settings;
    sensors =
        get_sensors_struct (record s.sensors { bno055 = record s.sensors.bno055 { stored = bno } });
  }

  -- The second `GetData`, and the rest of the round.
  unfoldable pub finish :
      F
      → CommandsStruct F
      → RobotSettingsStruct F
      → Data D
      → RobotState F D
      → Option MotorsStruct × RobotState F D
  unfolding found
  finish dt commands settings bno s =
      let i = found dt settings bno s in
      (sent_for D i commands s.pids, record s { pids = (movement D i commands s.pids).1 })
