-- ===== src/Robot.antt =====
-- src/Robot/Robot.cpp: the robot puts its services together. The state of the session is that of all of
-- them, and each service works on its own part of it.
pub mod Start
pub mod Services
pub mod Reach
pub mod Requests
pub mod Arrived
pub mod Watchdog
pub mod Boot
pub mod Model
pub mod Loop
pub mod Run
pub mod Sends
pub mod Order
pub mod Commute
pub mod Refines
pub mod Arrivals
pub mod Rounds
pub mod Finish
pub mod Served
pub mod Traces
pub mod Effects
pub mod Changes
pub mod Configures
pub mod Bus
mod Tests
use polar_uv_robot.Prelude.{ℕ, Option, none, some, List, [], Bytes, utf8, replicate}
use polar_uv_robot.Real.{Real, Convert, whole}
use polar_uv_robot.Network.Packet.{not_found}
use polar_uv_robot.Network.Exceptions.{base_exception}
use polar_uv_robot.Network.Exec.{Exec, pure, throw, crash, zoom}
use polar_uv_robot.Network.Service.{IService}
use polar_uv_robot.Network.Session.{Session, create_service, set_state}
use polar_uv_robot.Peripheral.Bno055.{empty_data, bno_filters}
use polar_uv_robot.Peripheral.Ms5837.{ms_filters}
use polar_uv_robot.Settings.{Protobuf, SettingsState, new_settings, settings_service}
use polar_uv_robot.Sensors.{SensorsState, sensors_service}
use polar_uv_robot.Video.{Gstreamer, VideoProtobuf, Device, video_service}
use polar_uv_robot.Commands.Pid.{PidArray, new_pid}
use polar_uv_robot.Commands.Queue.{CommandsQueue, new_queue}
use polar_uv_robot.Commands.Service.{commands_service}
use polar_uv_robot.Robot.Start.{StartSettings, Mode}

-- A service on a part of a state.
unfoldable pub on_part {ℓ κ} :
    {S : Type ℓ} {T : Type κ} → (S → T) → (T → S → S) → IService T → IService S
on_part get put svc = record {
  service_id = svc.service_id;
  read_validate = zoom get put svc.read_validate;
  write_validate = λ v. zoom get put (svc.write_validate v);
  write_read_validate = λ v. zoom get put (svc.write_read_validate v);
  read = zoom get put svc.read;
  write = λ v. zoom get put (svc.write v);
  write_read = λ v. zoom get put (svc.write_read v);
  connection_lost = λ s. put (svc.connection_lost (get s)) s;
}

-- The services' parts, and the regulators of the loop that drives the motors.
pub record RobotState {ℓ κ} (F : Type ℓ) (D : Type κ) : Type (ℓ ⊔ κ) where
  pub settings : SettingsState F
  pub sensors : SensorsState D
  pub video : Gstreamer
  pub queue : CommandsQueue F
  pub pids : PidArray F

module _ {ℓ κ} {F : Type ℓ} {D : Type κ} where
  abbrev pub put_settings : SettingsState F → RobotState F D → RobotState F D
  put_settings x s = record s { settings = x }

  abbrev pub put_sensors : SensorsState D → RobotState F D → RobotState F D
  put_sensors x s = record s { sensors = x }

  abbrev pub put_video : Gstreamer → RobotState F D → RobotState F D
  put_video x s = record s { video = x }

  abbrev pub put_queue : CommandsQueue F → RobotState F D → RobotState F D
  put_queue x s = record s { queue = x }

-- What the robot is built on: the generated code, the representation of a `float`, the padding of the
-- sensors' struct, and the cameras.
pub record Platform {ℓ} (F : Type ℓ) : Type ℓ where
  pub settings_protobuf : Protobuf F
  pub video_protobuf : VideoProtobuf
  pub float_of : Bytes → F
  pub bytes_of : F → Bytes
  pub pad : Bytes
  pub devices : List Device

module _ {ℓ κ} {F : Type ℓ} {D : Type κ} ⦃f : Real F⦄ ⦃d : Real D⦄ ⦃conv : Convert F D⦄
    (p : Platform F) where
  unfoldable pub robot_settings : IService (RobotState F D)
  unfolding on_part
  robot_settings = on_part (λ s. s.settings) put_settings (settings_service p.settings_protobuf 0)

  unfoldable pub robot_sensors : IService (RobotState F D)
  unfolding on_part
  robot_sensors = on_part (λ s. s.sensors) put_sensors (sensors_service D p.bytes_of p.pad 1)

  unfoldable pub robot_video : IService (RobotState F D)
  unfolding on_part
  robot_video = on_part (λ s. s.video) put_video (video_service p.video_protobuf p.devices 2)

  unfoldable pub robot_commands : IService (RobotState F D)
  unfolding on_part
  robot_commands = on_part (λ s. s.queue) put_queue (commands_service p.float_of 3)

  -- The sensors as their constructors leave them; the words of the calibration are not set before the
  -- first `Init`.
  unfoldable pub new_sensors : SensorsState D
  unfolding empty_data bno_filters ms_filters
  new_sensors = record {
    bno055 = record { stored = empty_data; filters = bno_filters };
    ms5837 = record {
      stored = record { pressure = whole 0; depth = whole 0; temperature = whole 0 };
      fluid_density = whole 997;
      calibration = replicate 8 0;
      filters = ms_filters;
    };
  }

  -- The session after a service was constructed and registered.
  abbrev construct :
      (RobotState F D → RobotState F D)
      → IService (RobotState F D)
      → Session (RobotState F D)
      → Session (RobotState F D)
  construct change svc s = create_service svc (set_state (change s.state) s)

  -- `MakeROV`, with the content of the file of settings. Without a sender for the motors a null
  -- pointer is dereferenced.
  unfoldable pub make_rov : Bytes → StartSettings → Exec (Session (RobotState F D)) (Unit {0})
  unfolding create_service new_settings new_sensors new_queue new_pid
  make_rov file start s = elim (new_settings p.settings_protobuf file) [
    | none ↦ crash s
    | some settings ↦
        let s1 = construct (λ x. record x { settings = settings }) robot_settings s in
        let s2 = construct (λ x. record x { sensors = new_sensors }) robot_sensors s1 in
        let s3 = construct (λ x. record x { video = [] }) robot_video s2 in
        elim start.motors_sender [
          | none ↦ crash s3
          | some sender ↦
              pure tt
                (construct (λ x. record x { queue = new_queue; pids = new_pid }) robot_commands s3)
        ]
  ]

  -- `Robot::SetUp`. The two modes are all values that the constructor of the start settings assigns.
  unfoldable pub set_up : Bytes → StartSettings → Exec (Session (RobotState F D)) (Unit {0})
  unfolding make_rov utf8
  set_up file start = elim start.mode [
    | Mode.auv ↦ throw (base_exception (utf8 "[AUV NOT SUPPORTED]") not_found)
    | Mode.rov ↦ make_rov file start
  ]
