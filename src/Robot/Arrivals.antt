-- ===== src/Robot/Arrivals.antt =====
-- What reaches a robot from outside its loop, in the middle of a round or not: commands and settings from
-- src/Lib/TcpSession/TcpSession.cpp, and values from the threads of the sensors, against Model.
use polar_uv_robot.Prelude.{refl, ◌∙◌, List, ◌∷◌, ap}
use polar_uv_robot.Real.{Real, Convert}
use polar_uv_robot.Settings.{SettingsState}
use polar_uv_robot.Sensors.{SensorsState}
use polar_uv_robot.Commands.Queue.{CommandsQueue, add_commands, requests}
use polar_uv_robot.Commands.Motors.{MotorsStruct}
use polar_uv_robot.Robot.{RobotState, put_settings, put_sensors, put_queue}
use polar_uv_robot.Robot.Changes.{PutsCommands}
use polar_uv_robot.Robot.Configures.{PutsSettings}
use polar_uv_robot.Settings.{Message}
use polar_uv_robot.Commands.Struct.{CommandsStruct}
use polar_uv_robot.Prelude.{Option, none, some}
use polar_uv_robot.Peripheral.Bno055.{Bno}
use polar_uv_robot.Peripheral.Ms5837.{Ms}
use polar_uv_robot.Robot.Loop.{Point}
use polar_uv_robot.Robot.Commute.{is_outside}
use polar_uv_robot.Robot.Model.{Model, Event, commanded, configured, oriented, sounded, happen}
use polar_uv_robot.Robot.Refines.{Midway, insert, same_view}

module _ {ℓ κ} {F : Type ℓ} {D : Type κ} ⦃f : Real F⦄ ⦃d : Real D⦄ ⦃conv : Convert F D⦄ where
  module _ (start : Model F D) (p : Point F D) (labels : List (Event F D))
      (sent : List MotorsStruct) (s : RobotState F D) (h : Midway start p labels sent s) where
    pub put_queue-Midway :
        (o : Option (CommandsStruct F)) (q : CommandsQueue F)
        → PutsCommands o s.queue q
        → Midway start p
            (elim o [ none ↦ labels | some c ↦ commanded c ∷ labels ])
            sent
            (put_queue q s)
    unfolding happen is_outside requests add_commands
    put_queue-Midway none q e =
        same_view start p labels sent s (put_queue q s)
          (λ m v. record {
            settings_shown = v.settings_shown;
            sensors_shown = v.sensors_shown;
            pids_shown = v.pids_shown;
            queue_shown = e ∙ v.queue_shown;
          })
          h
    put_queue-Midway (some c) q e =
        insert start p labels sent s (put_queue q s) (commanded c) h refl (λ m v. record {
          settings_shown = v.settings_shown;
          sensors_shown = v.sensors_shown;
          pids_shown = v.pids_shown;
          queue_shown = e;
        })

    pub put_settings-Midway :
        (o : Option (Message F)) (x : SettingsState F)
        → PutsSettings o s.settings x
        → Midway start p
            (elim o [ none ↦ labels | some m ↦ configured m ∷ labels ])
            sent
            (put_settings x s)
    unfolding happen is_outside
    put_settings-Midway none x e =
        same_view start p labels sent s (put_settings x s)
          (λ m v. record {
            settings_shown = e ∙ v.settings_shown;
            sensors_shown = v.sensors_shown;
            pids_shown = v.pids_shown;
            queue_shown = v.queue_shown;
          })
          h
    put_settings-Midway (some m) x e =
        insert start p labels sent s (put_settings x s) (configured m) h refl (λ _ v. record {
          settings_shown = e;
          sensors_shown = v.sensors_shown;
          pids_shown = v.pids_shown;
          queue_shown = v.queue_shown;
        })

    pub orient-Midway :
        (x : Bno D)
        → Midway start p
            (oriented x ∷ labels)
            sent
            (put_sensors (record s.sensors { bno055 = x }) s)
    unfolding happen is_outside
    orient-Midway x = insert start p labels sent s _ (oriented x) h refl (λ _ v. record {
      settings_shown = v.settings_shown;
      sensors_shown = ap (λ (y : SensorsState D). record y { bno055 = x }) v.sensors_shown;
      pids_shown = v.pids_shown;
      queue_shown = v.queue_shown;
    })

    pub sound-Midway :
        (x : Ms D)
        → Midway start p (sounded x ∷ labels) sent (put_sensors (record s.sensors { ms5837 = x }) s)
    unfolding happen is_outside
    sound-Midway x = insert start p labels sent s _ (sounded x) h refl (λ _ v. record {
      settings_shown = v.settings_shown;
      sensors_shown = ap (λ (y : SensorsState D). record y { ms5837 = x }) v.sensors_shown;
      pids_shown = v.pids_shown;
      queue_shown = v.queue_shown;
    })
