-- ===== src/Robot/Tests/Traces.antt =====
-- A test of a robot that gets commands and drives its motors, over the bus.
use polar_uv_robot.Prelude.{
  All, ℕ, ◌≡◌, refl, ap, some, [], ◌∷◌, ◌++◌, length, length-replicate, arith,
}
use polar_uv_robot.Prelude.Int.{ℤ, pos}
use mathlib.Core.Path.{subst}
use polar_uv_robot.Commands.Service.{commands_of}
use polar_uv_robot.Robot.Arrived.{arrived-commands}
use polar_uv_robot.Robot.Model.{Event, commanded}
use polar_uv_robot.Real.{int_real, int_convert}
use polar_uv_robot.Network.Packet.Layout.{request_bytes}
use polar_uv_robot.Network.Exec.{returned}
use polar_uv_robot.Network.Buffer.{capacity}
use polar_uv_robot.Network.Buffer.Zlaws.{stored, stored-IsZstd}
use polar_uv_robot.Network.Session.{Session, set_socket, set_state}
use polar_uv_robot.Network.Session.Serve.{serve_one}
use polar_uv_robot.Network.Session.Requests.{packed}
use polar_uv_robot.Settings.{new_settings}
use polar_uv_robot.Commands.Motors.{MotorsStruct}
use polar_uv_robot.Robot.{RobotState, set_up, put_sensors, new_sensors}
use polar_uv_robot.Robot.Requests.{drive-serve_one_commands}
use polar_uv_robot.Robot.Services.{set_up-robot_services}
use polar_uv_robot.Robot.Model.{oriented, elapsed}
use polar_uv_robot.Robot.Refines.{Midway}
use polar_uv_robot.Robot.Sends.{Sends}
use polar_uv_robot.Robot.Bus.{Arrives, receive-Run}
use polar_uv_robot.Robot.Loop.{Point, waiting, has_orientation, take_commands, finish}
use polar_uv_robot.Commands.Struct.{CommandsStruct}
use polar_uv_robot.Commands.Queue.{get_commands}
use polar_uv_robot.Network.Session.Heard.{heard}
use polar_uv_robot.Robot.Run.{
  arrived, Run, ready, connected, served, has_oriented, commands_taken, settings_taken,
  orientation_taken, finished,
}
use polar_uv_robot.Network.Socket.{Socket}
use polar_uv_robot.Peripheral.Bno055.{Bno}
use polar_uv_robot.Robot.Traces.{new_model, set_up-Run}
use polar_uv_robot.Robot.Tests.{platform, start, spi, loaded, client, session, running, ones}

abbrev called : Session (RobotState ℤ ℤ)
called =
    set_socket
      (client (request_bytes 1 3 (length (packed stored ones)) ++ (packed stored ones ++ [])))
      running

abbrev obeyed : Session (RobotState ℤ ℤ)
obeyed = (serve_one stored called).1

obeys : serve_one stored called ≡ (returned tt, obeyed)
unfolding packed loaded new_settings set_up
obeys =
    ap (λ o. (o, obeyed))
      (drive-serve_one_commands platform stored stored-IsZstd called ones [] 2 (pos 1)
        (set_up-robot_services platform [] start spi loaded session refl refl refl refl).1 refl
        (length-replicate {A = ℕ} capacity 0) (omega arith) (omega arith) (omega arith) refl refl).0

-- The commands of the request.
abbrev written : Event ℤ ℤ
written = commanded (commands_of platform.float_of ones)

arrives : arrived platform (heard stored called) [] ≡ written ∷ []
unfolding packed loaded new_settings set_up
arrives =
    arrived-commands platform stored stored-IsZstd called ones [] 2
      (set_up-robot_services platform [] start spi loaded session refl refl refl refl).1 refl
      (length-replicate {A = ℕ} capacity 0) (omega arith) (omega arith) (omega arith) [] refl refl

obeyed_once : Run platform stored running (written ∷ []) [] waiting obeyed
obeyed_once =
    subst (λ labels. Run platform stored running labels [] waiting obeyed) arrives
      (served (connected called.socket ready refl) obeys)

-- The loop takes commands and settings, then the sensor gets new values and another client connects,
-- and then it takes the rest.
abbrev idle : Socket
idle = client []

abbrev north : Bno ℤ
unfolding new_sensors
north = record (new_sensors platform).bno055 {
  stored = record (new_sensors platform).bno055.stored { temperature = pos 7 };
}

abbrev asked : Session (RobotState ℤ ℤ)
unfolding take_commands
asked = set_state (take_commands (pos 1) obeyed.state).1 obeyed

abbrev turned : Session (RobotState ℤ ℤ)
turned =
    set_state (put_sensors (record asked.state.sensors { bno055 = north }) asked.state)
      (set_socket idle asked)

abbrev commands : CommandsStruct ℤ
commands = (get_commands obeyed.state.queue).0

abbrev at : Point ℤ ℤ
at =
    has_orientation (pos 1) commands asked.state.settings.settings
      turned.state.sensors.bno055.stored

halfway : Run platform stored running (oriented north ∷ written ∷ []) [] at turned
unfolding take_commands
halfway = orientation_taken (pos 1) commands asked.state.settings.settings (
    has_oriented north
      (connected idle (settings_taken (pos 1) commands (commands_taken (pos 1) obeyed_once refl))
        refl)
      refl)

sends_one :
    (sent : MotorsStruct) × ((finish
        (pos 1)
        commands
        asked.state.settings.settings
        turned.state.sensors.bno055.stored
        turned.state).0
      ≡ some sent)
    × (length sent.hi_pwm ≡ 12)
    × (length sent.low_pwm ≡ 4)
unfolding loaded new_settings
sends_one =
    (set_up-Run platform stored [] start spi loaded session turned (oriented north ∷ written ∷ [])
      [] at refl refl refl refl halfway).0

abbrev drove : Session (RobotState ℤ ℤ)
drove =
    set_state
      (finish (pos 1) commands asked.state.settings.settings turned.state.sensors.bno055.stored
        turned.state).1
      turned

ran :
    Run platform stored running
      (elapsed (pos 1) ∷ oriented north ∷ written ∷ [])
      (sends_one.0 ∷ [])
      waiting
      drove
ran =
    finished (pos 1) commands asked.state.settings.settings turned.state.sensors.bno055.stored
      sends_one.0 halfway sends_one.1 refl

set_up-Run_example :
    Sends waiting drove.state
    × Midway
        (new_model platform loaded)
        waiting
        (elapsed (pos 1) ∷ oriented north ∷ written ∷ [])
        (sends_one.0 ∷ [])
        drove.state
unfolding loaded new_settings
set_up-Run_example =
    set_up-Run platform stored [] start spi loaded session drove
      (elapsed (pos 1) ∷ oriented north ∷ written ∷ []) (sends_one.0 ∷ []) waiting refl refl refl
      refl ran

receive-Run_example : All (Arrives spi.speed_hz 0) (sends_one.0 ∷ [])
unfolding loaded new_settings
receive-Run_example =
    receive-Run stored platform [] start spi loaded session drove
      (elapsed (pos 1) ∷ oriented north ∷ written ∷ []) (sends_one.0 ∷ []) waiting 0 refl refl refl
      refl ran
