-- ===== src/Robot/Run.antt =====
-- The steps of a robot that runs: of src/Lib/TcpSession/TcpSession.cpp, of the sensors and of the loop in
-- src/Robot/Features/Commands/CommandsCycle.cpp, where the steps of the others run also in the middle of
-- a round of the loop.
use polar_uv_robot.Prelude.{◌≡◌, List, [], ◌∷◌, some}
use polar_uv_robot.Real.{Real, Convert}
use polar_uv_robot.Settings.{RobotSettingsStruct}
use polar_uv_robot.Peripheral.Bno055.{Bno, Data}
use polar_uv_robot.Peripheral.Ms5837.{Ms}
use polar_uv_robot.Commands.Struct.{CommandsStruct}
use polar_uv_robot.Commands.Motors.{MotorsStruct}
use polar_uv_robot.Robot.{RobotState, put_sensors}
use polar_uv_robot.Robot.Loop.{
  Point, waiting, has_commands, has_settings, has_orientation, take_commands, finish,
}
use polar_uv_robot.Robot.Model.{Event, oriented, sounded, elapsed}
use polar_uv_robot.Network.Exec.{returned}
use polar_uv_robot.Network.Buffer.{Zstd}
use polar_uv_robot.Network.Socket.{Socket}
use polar_uv_robot.Network.Session.{Session, set_socket, set_state}
use polar_uv_robot.Network.Session.Serve.{serve_one}
use polar_uv_robot.Network.Session.Heard.{Request, heard}
use polar_uv_robot.Robot.Changes.{commands_in}
use polar_uv_robot.Robot.Configures.{message_in}
use polar_uv_robot.Robot.{Platform}
use polar_uv_robot.Prelude.{Option, none, ◌==◌, if◌then◌else◌}
use polar_uv_robot.Robot.Model.{commanded, configured}

module _ {ℓ κ} {F : Type ℓ} {D : Type κ} ⦃f : Real F⦄ ⦃d : Real D⦄ ⦃conv : Convert F D⦄ where
  module _ (p : Platform F) where
    -- What has arrived, with a request: its commands, if it is for endpoint 3, and its settings, if it is
    -- for endpoint 0.
    unfoldable pub arrived : Option Request → List (Event F D) → List (Event F D)
    unfolding commands_in message_in
    arrived none labels = labels
    arrived (some q) labels =
        if q.endpoint_id == 3
        then elim (commands_in p.float_of q.type q.view) [
          | none ↦ labels
          | some c ↦ commanded c ∷ labels
        ]
        else if q.endpoint_id == 0
        then elim (message_in p.settings_protobuf q.type q.view) [
          | none ↦ labels
          | some m ↦ configured m ∷ labels
        ]
        else labels

  module _ (p : Platform F) (z : Zstd) where
    -- The robot runs from a session on, in steps of all its threads: clients connect, requests are
    -- served, one of the sensors gets new values, and the loop takes the commands, takes the settings,
    -- takes the values of one sensor, or ends the round with those of the other. The lists have the
    -- commands and settings of the requests, the values of the sensors and the times of the rounds, and
    -- what was sent to the motors, the newest first.
    pub data Run (s : Session (RobotState F D))
        : List (Event F D)
          → List MotorsStruct
          → Point F D
          → Session (RobotState F D)
          → Type (ℓ ⊔ κ) where
      ready : Run s [] [] waiting s
      connected :
          {labels : List (Event F D)} {sent : List MotorsStruct} {at : Point F D}
          {t u : Session (RobotState F D)} (k : Socket)
          → Run s labels sent at t
          → u ≡ set_socket k t
          → Run s labels sent at u
      served :
          {labels : List (Event F D)} {sent : List MotorsStruct} {at : Point F D}
          {t u : Session (RobotState F D)}
          → Run s labels sent at t
          → serve_one z t ≡ (returned tt, u)
          → Run s (arrived p (heard z t) labels) sent at u
      has_oriented :
          {labels : List (Event F D)} {sent : List MotorsStruct} {at : Point F D}
          {t u : Session (RobotState F D)} (x : Bno D)
          → Run s labels sent at t
          → u ≡ set_state (put_sensors (record t.state.sensors { bno055 = x }) t.state) t
          → Run s (oriented x ∷ labels) sent at u
      has_sounded :
          {labels : List (Event F D)} {sent : List MotorsStruct} {at : Point F D}
          {t u : Session (RobotState F D)} (x : Ms D)
          → Run s labels sent at t
          → u ≡ set_state (put_sensors (record t.state.sensors { ms5837 = x }) t.state) t
          → Run s (sounded x ∷ labels) sent at u
      commands_taken :
          {labels : List (Event F D)} {sent : List MotorsStruct} {t u : Session (RobotState F D)}
          (dt : F)
          → Run s labels sent waiting t
          → u ≡ set_state (take_commands dt t.state).1 t
          → Run s labels sent (take_commands dt t.state).0 u
      settings_taken :
          {labels : List (Event F D)} {sent : List MotorsStruct} {t : Session (RobotState F D)}
          (dt : F) (c : CommandsStruct F)
          → Run s labels sent (has_commands dt c) t
          → Run s labels sent (has_settings dt c t.state.settings.settings) t
      orientation_taken :
          {labels : List (Event F D)} {sent : List MotorsStruct} {t : Session (RobotState F D)}
          (dt : F) (c : CommandsStruct F) (settings : RobotSettingsStruct F)
          → Run s labels sent (has_settings dt c settings) t
          → Run s labels sent (has_orientation dt c settings t.state.sensors.bno055.stored) t
      finished :
          {labels : List (Event F D)} {sent : List MotorsStruct} {t u : Session (RobotState F D)}
          (dt : F) (c : CommandsStruct F) (settings : RobotSettingsStruct F) (b : Data D)
          (x : MotorsStruct)
          → Run s labels sent (has_orientation dt c settings b) t
          → (finish dt c settings b t.state).0 ≡ some x
          → u ≡ set_state (finish dt c settings b t.state).1 t
          → Run s (elapsed dt ∷ labels) (x ∷ sent) waiting u
