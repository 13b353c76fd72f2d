-- ===== src/Robot/Traces.antt =====
-- What the robot sends while it runs, against Model: the services of src/Robot/Robot.cpp and the loop of
-- src/Robot/Features/Commands/CommandsCycle.cpp.
use polar_uv_robot.Prelude.{◌≡◌, refl, List, [], ap, some, Bytes}
use polar_uv_robot.Real.{Real, Convert}
use polar_uv_robot.Settings.{SettingsState, new_settings}
use polar_uv_robot.Commands.Struct.{no_commands}
use polar_uv_robot.Commands.Queue.{new_queue, add_commands, requests}
use polar_uv_robot.Commands.Motors.{MotorsStruct}
use polar_uv_robot.Robot.{RobotState, Platform, make_rov, set_up, new_sensors}
use polar_uv_robot.Network.Session.Moves.{serve_one-Moves}
use polar_uv_robot.Robot.Loop.{Point, waiting, commands_at, settings_at, orientation_at}
use polar_uv_robot.Robot.Commute.{aged}
use polar_uv_robot.Robot.Served.{robot_services-Moves}
use polar_uv_robot.Robot.Order.{SameOrder-refl}
use polar_uv_robot.Robot.Model.{Model, Event, replay}
use polar_uv_robot.Network.Buffer.{Zstd}
use polar_uv_robot.Network.Session.{Session, create_service}
use polar_uv_robot.Network.Session.Untouched.{Holds}
use polar_uv_robot.Robot.Services.{set_up-IsReady, robot_services}
use polar_uv_robot.Robot.Refines.{Midway}
use polar_uv_robot.Robot.Arrivals.{orient-Midway, sound-Midway}
use polar_uv_robot.Robot.Rounds.{
  take_commands-Midway, take_settings-Midway, take_orientation-Midway,
}
use polar_uv_robot.Robot.Finish.{finish-Midway}
use polar_uv_robot.Robot.Start.{StartSettings, Spi, rov}
use polar_uv_robot.Commands.Pid.{new_pid}
use polar_uv_robot.Robot.Run.{
  Run, ready, connected, served, has_oriented, has_sounded, commands_taken, settings_taken,
  orientation_taken, finished,
}
use polar_uv_robot.Robot.Sends.{Sends, Run-IsRunning, Sends_lem}

module _ {ℓ κ} {F : Type ℓ} {D : Type κ} ⦃f : Real F⦄ ⦃d : Real D⦄ ⦃conv : Convert F D⦄ where
  module _ (start : Model F D) (p : Platform F) (z : Zstd) where
    Run-Midway :
        {s t : Session (RobotState F D)} {labels : List (Event F D)} {sent : List MotorsStruct}
        {at : Point F D}
        → Holds (Midway start waiting [] []) (robot_services p) s
        → Run p z s labels sent at t
        → Holds (Midway start at labels sent) (robot_services p) t
    Run-Midway h ready = h
    Run-Midway h (connected k r e) = rw e (Run-Midway h r)
    Run-Midway h (served r e) = rw (← ap (λ o. o.1) e) (
        serve_one-Moves _ _ (robot_services p) (robot_services-Moves start p _ _ _) z _
          (Run-Midway h r))
    Run-Midway h (has_oriented x r e) =
        let (services, m) = Run-Midway h r in rw e (services, orient-Midway start _ _ _ _ m x)
    Run-Midway h (has_sounded x r e) =
        let (services, m) = Run-Midway h r in rw e (services, sound-Midway start _ _ _ _ m x)
    Run-Midway h (commands_taken dt r e) =
        let (services, m) = Run-Midway h r in rw e (services, take_commands-Midway start _ _ _ dt m)
    Run-Midway h (settings_taken dt c r) =
        let (services, m) = Run-Midway h r in (services, take_settings-Midway start _ _ _ dt c m)
    Run-Midway h (orientation_taken dt c settings r) =
        let (services, m) = Run-Midway h r in
        (services, take_orientation-Midway start _ _ _ dt c settings m)
    Run-Midway h (finished dt c settings b x r sends e) =
        let (services, m) = Run-Midway h r in
        rw e (services, finish-Midway start _ _ _ dt c settings b m x sends)

module _ {ℓ κ} {F : Type ℓ} {D : Type κ} ⦃f : Real F⦄ ⦃d : Real D⦄ ⦃conv : Convert F D⦄
    (p : Platform F) where
  -- The model of the robot as it is set up, with the settings of its file.
  abbrev pub new_model : SettingsState F → Model F D
  unfolding new_sensors new_pid no_commands
  new_model settings = record {
    settings = settings.settings;
    sensors = new_sensors p;
    commands = no_commands;
    age = 0;
    pids = new_pid;
  }

  set_up-Midway :
      (file : Bytes) (start : StartSettings) (sender : Spi) (settings : SettingsState F)
      (s : Session (RobotState F D))
      → start.mode ≡ rov
      → start.motors_sender ≡ some sender
      → new_settings p.settings_protobuf file ≡ some settings
      → Midway (new_model settings) waiting [] [] (set_up p file start s).1.state
  unfolding set_up make_rov create_service replay requests add_commands new_queue new_sensors
      new_pid no_commands aged commands_at settings_at orientation_at
  set_up-Midway file start sender settings s m e n =
      rw (m, set_up, make_rov, n, e)
        (record {
          events = [];
          pending = [];
          taken = tt;
          saved = record { commands_saved = tt; settings_saved = tt; orientation_saved = tt };
          shown = record {
            settings_shown = refl;
            sensors_shown = refl;
            pids_shown = refl;
            queue_shown = refl;
          };
          outputs = refl;
          ordered = SameOrder-refl [];
        })

  -- From a successful set-up on, whatever clients connect, whatever their requests are and in whatever
  -- order the steps of the session, of the sensors and of the loop take turns, as long as no request
  -- ends the program: a round that only misses the values of the last sensor sends something when it has
  -- them, and there is a list of events by which the model sends to the motors exactly the values that
  -- the robot sent, in their order. These events are the commands that requests wrote to endpoint 3, in
  -- data of the size of the struct, the messages that requests wrote to endpoint 0 and that obey all
  -- rules and have four sets of PID coefficients, the values of each sensor, and the rounds; of each
  -- kind exactly those that came, in the order in which they came. Those about something that the
  -- unfinished round has taken already are put into a list of pending events, which is empty where no
  -- round is unfinished. What the round has taken is what the model has where the round begins, and the
  -- state is the one that the model shows after the pending events.
  pub set_up-Run :
      (z : Zstd) (file : Bytes) (start : StartSettings) (sender : Spi) (settings : SettingsState F)
      (s t : Session (RobotState F D)) (labels : List (Event F D)) (sent : List MotorsStruct)
      (at : Point F D)
      → start.mode ≡ rov
      → start.motors_sender ≡ some sender
      → new_settings p.settings_protobuf file ≡ some settings
      → s.services ≡ []
      → Run p z (set_up p file start s).1 labels sent at t
      → Sends at t.state × Midway (new_model settings) at labels sent t.state
  set_up-Run z file start sender settings s t labels sent at m e n empty r =
      let is_ready = set_up-IsReady p file start sender settings s m e n empty in
      let first = set_up-Midway file start sender settings s m e n in
      (
        Sends_lem at t.state (Run-IsRunning p z is_ready r).1,
        (Run-Midway (new_model settings) p z (is_ready.0, first) r).1,
      )
