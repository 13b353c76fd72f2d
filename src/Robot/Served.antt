-- ===== src/Robot/Served.antt =====
-- What requests to the services of src/Robot/Robot.cpp do, against Model.
use polar_uv_robot.Prelude.{refl, ◌∙◌, List, All, some}
use polar_uv_robot.Real.{Real, Convert}
use polar_uv_robot.Commands.Motors.{MotorsStruct}
use polar_uv_robot.Robot.{
  RobotState, put_settings, put_sensors, put_queue, Platform, put_video, robot_settings,
  robot_sensors, robot_video, robot_commands,
}
use polar_uv_robot.Robot.Changes.{
  any-HasEffect, sensors_service-HasEffect, commands_service-HasEffect, Unchanged, Changed,
  ReplacesCommands, commands_in,
}
use polar_uv_robot.Robot.Configures.{settings_service-HasEffect, ReplacesSettings, message_in}
use polar_uv_robot.Network.Session.Moves.{Moves}
use polar_uv_robot.Robot.Loop.{Point}
use polar_uv_robot.Robot.Model.{Model, Event}
use polar_uv_robot.Robot.Services.{robot_services}
use polar_uv_robot.Robot.Effects.{IsPart, on_part-acted}
use polar_uv_robot.Robot.Refines.{Midway, same_view}
use polar_uv_robot.Robot.Arrivals.{put_queue-Midway, put_settings-Midway}
use polar_uv_robot.Video.{Gstreamer, video_service}
use polar_uv_robot.Robot.{on_part}
use polar_uv_robot.Settings.{settings_service}
use polar_uv_robot.Sensors.{sensors_service}
use polar_uv_robot.Commands.Service.{commands_service}
use polar_uv_robot.Robot.Run.{arrived}

module _ {ℓ κ} {F : Type ℓ} {D : Type κ} ⦃f : Real F⦄ ⦃d : Real D⦄ ⦃conv : Convert F D⦄ where
  module _ (start : Model F D) (p : Platform F) where
    settings-IsPart : IsPart (λ (s : RobotState F D). s.settings) put_settings
    settings-IsPart = record { get_put = λ t s. refl; put_put = λ t u s. refl; put_get = λ s. refl }

    sensors-IsPart : IsPart (λ (s : RobotState F D). s.sensors) put_sensors
    sensors-IsPart = record { get_put = λ t s. refl; put_put = λ t u s. refl; put_get = λ s. refl }

    video-IsPart : IsPart (λ (s : RobotState F D). s.video) put_video
    video-IsPart = record { get_put = λ t s. refl; put_put = λ t u s. refl; put_get = λ s. refl }

    queue-IsPart : IsPart (λ (s : RobotState F D). s.queue) put_queue
    queue-IsPart = record { get_put = λ t s. refl; put_put = λ t u s. refl; put_get = λ s. refl }

    put_video-Midway :
        (at : Point F D) (labels : List (Event F D)) (sent : List MotorsStruct) (s : RobotState F D)
        → Midway start at labels sent s
        → (x : Gstreamer) → Midway start at labels sent (put_video x s)
    put_video-Midway at labels sent s h x =
        same_view start at labels sent s (put_video x s)
          (λ m w. record {
            settings_shown = w.settings_shown;
            sensors_shown = w.sensors_shown;
            pids_shown = w.pids_shown;
            queue_shown = w.queue_shown;
          })
          h

    -- A client that is gone changes at most the video.
    robot_services-lost :
        (at : Point F D) (labels : List (Event F D)) (sent : List MotorsStruct)
        → All
            (λ e.
              (s : RobotState F D)
              → Midway start at labels sent s
              → Midway start at labels sent (e.1.connection_lost s))
            (robot_services p)
    unfolding robot_settings robot_sensors robot_video robot_commands on_part settings_service
        sensors_service commands_service
    robot_services-lost at labels sent =
        (λ s h. h, (λ s h. h, (λ s h. put_video-Midway at labels sent s h _, (λ s h. h, tt))))

    pub robot_services-Moves :
        (at : Point F D) (labels : List (Event F D)) (sent : List MotorsStruct)
        → Moves
            (Midway start at labels sent)
            (λ a. Midway start at (arrived p a labels) sent)
            (robot_services p)
    unfolding robot_settings robot_sensors robot_video robot_commands arrived
    robot_services-Moves at labels sent =
        let settings = settings_service-HasEffect p.settings_protobuf 0 in
        let sensors = sensors_service-HasEffect D p.bytes_of p.pad 1 in
        let video = any-HasEffect (video_service p.video_protobuf p.devices 2) in
        let commands = commands_service-HasEffect p.float_of 3 in
        record {
          unheard = λ s h. h;
          acted = (
            λ k v s h.
                on_part-acted (λ s. s.settings) put_settings settings-IsPart
                  (Midway start at
                    (arrived p (some (record { endpoint_id = 0; type = k; view = v })) labels) sent)
                  (ReplacesSettings p.settings_protobuf) _ k v s settings
                  (put_settings-Midway start at labels sent s h
                    (message_in p.settings_protobuf k v)),
            (
              λ k v s h.
                  on_part-acted (λ s. s.sensors) put_sensors sensors-IsPart
                    (Midway start at labels sent) Unchanged _ k v s sensors
                    (λ t e.
                      same_view start at labels sent s (put_sensors t s)
                        (λ m w. record {
                          settings_shown = w.settings_shown;
                          sensors_shown = e ∙ w.sensors_shown;
                          pids_shown = w.pids_shown;
                          queue_shown = w.queue_shown;
                        })
                        h),
              (
                λ k v s h.
                    on_part-acted (λ s. s.video) put_video video-IsPart
                      (Midway start at labels sent) Changed _ k v s video
                      (λ t _. put_video-Midway at labels sent s h t),
                (
                  λ k v s h.
                      on_part-acted (λ s. s.queue) put_queue queue-IsPart
                        (Midway start at
                          (arrived p (some (record { endpoint_id = 3; type = k; view = v })) labels)
                          sent)
                        (ReplacesCommands p.float_of) _ k v s commands
                        (put_queue-Midway start at labels sent s h (commands_in p.float_of k v)),
                  tt,
                ),
              ),
            ),
          );
          lost = λ a. robot_services-lost at (arrived p a labels) sent;
        }
