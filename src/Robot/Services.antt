-- ===== src/Robot/Services.antt =====
-- What `Robot::SetUp` of src/Robot/Robot.cpp registers, and that each service leaves the settings and
-- the commands fit for the loop that drives the motors.
use polar_uv_robot.Settings.Fit.{new_settings-Fits}
use polar_uv_robot.Network.Session.Untouched.{Holds}
use polar_uv_robot.Prelude.{ℕ, ◌≡◌, refl, some, [], ◌∷◌, Bytes, length, All, arith}
use polar_uv_robot.Real.{Real, Convert}
use polar_uv_robot.Network.Exec.{returned}
use polar_uv_robot.Network.Service.{IService, base_service, no_such_method, not_empty}
use polar_uv_robot.Network.Session.{Session, ServiceMap, create_service, insert_service}
use polar_uv_robot.Network.Session.Invariant.{IsSafe}
use polar_uv_robot.Settings.{SettingsState, new_settings, settings_service}
use polar_uv_robot.Sensors.{sensors_service}
use polar_uv_robot.Video.{video_service}
use polar_uv_robot.Commands.Struct.{no_commands}
use polar_uv_robot.Commands.Queue.{CommandsQueue, new_queue, add_commands}
use polar_uv_robot.Commands.Service.{commands_service, commands_of, floats_of}
use polar_uv_robot.Settings.Fit.{HasFit, settings_service-IsSafe}
use polar_uv_robot.Commands.Service as Commands
use polar_uv_robot.Robot.Start.{StartSettings, Spi, rov}
use polar_uv_robot.Robot.{
  RobotState, Platform, on_part, robot_settings, robot_sensors, robot_video, robot_commands,
  put_settings, put_sensors, put_video, put_queue, make_rov, set_up,
}

-- A service on a part is safe for the whole where it is safe for the part.
on_part-IsSafe {ℓ κ μ ν} :
    {S : Type ℓ} {T : Type κ} (Q : S → Type μ) (P : T → Type ν) (get : S → T) (put : T → S → S)
    → ((s : S) → Q s → P (get s))
    → ((s : S) (t : T) → Q s → P t → Q (put t s))
    → (svc : IService T) → IsSafe P svc
    → IsSafe Q (on_part get put svc)
unfolding on_part
on_part-IsSafe Q P get put into back svc h = record {
  read_validate = λ s q. back s _ q (h.read_validate (get s) (into s q));
  write_validate = λ v s q. back s _ q (h.write_validate v (get s) (into s q));
  write_read_validate = λ v s q. back s _ q (h.write_read_validate v (get s) (into s q));
  read = λ s q. back s _ q (h.read (get s) (into s q));
  write = λ v s q. back s _ q (h.write v (get s) (into s q));
  write_read = λ v s q. back s _ q (h.write_read v (get s) (into s q));
  connection_lost = λ s q. back s _ q (h.connection_lost (get s) (into s q));
}

abbrev Anything {ℓ} : {T : Type ℓ} → T → Type 0
Anything t = Unit

any-IsSafe {ℓ} : {T : Type ℓ} (svc : IService T) → IsSafe Anything svc
any-IsSafe svc = record {
  read_validate = λ s q. tt;
  write_validate = λ v s q. tt;
  write_read_validate = λ v s q. tt;
  read = λ s q. tt;
  write = λ v s q. tt;
  write_read = λ v s q. tt;
  connection_lost = λ s q. tt;
}

-- The commands have six values for the hand and four for the motors of low power.
abbrev pub HasSizes {ℓ} : {F : Type ℓ} → CommandsQueue F → Type 0
HasSizes q = (length q.commands.hand ≡ 6) × (length q.commands.low_pwm ≡ 4)

pub new_queue-HasSizes {ℓ} : (F : Type ℓ) ⦃f : Real F⦄ → HasSizes {F = F} new_queue
unfolding new_queue no_commands
new_queue-HasSizes F = (refl, refl)

commands_service-IsSafe {ℓ} :
    {F : Type ℓ} ⦃f : Real F⦄ (float_of : Bytes → F) (id : ℕ)
    → IsSafe HasSizes (commands_service float_of id)
unfolding commands_service base_service not_empty no_such_method Commands.write commands_of
    floats_of add_commands
commands_service-IsSafe float_of id = record {
  read_validate = λ s h. h;
  write_validate = λ v s h. ground arith;
  write_read_validate = λ v s h. ground arith;
  read = λ s h. h;
  write = λ v s h. ground arith;
  write_read = λ v s h. h;
  connection_lost = λ s h. h;
}

module _ {ℓ κ} {F : Type ℓ} {D : Type κ} where
  -- What the loop needs of the settings and of the commands.
  abbrev pub IsReady : RobotState F D → Type 0
  IsReady s = HasFit s.settings × HasSizes s.queue

module _ {ℓ κ} {F : Type ℓ} {D : Type κ} ⦃f : Real F⦄ ⦃d : Real D⦄ ⦃conv : Convert F D⦄
    (p : Platform F) where
  -- The services of the robot, by their endpoints.
  abbrev pub robot_services : ServiceMap (RobotState F D)
  robot_services =
      (0, robot_settings p) ∷ (1, robot_sensors p) ∷ (2, robot_video p) ∷ (3, robot_commands p) ∷ []

  -- On a new session, the set-up of a remotely operated robot with a sender for its motors returns,
  -- if the file of settings can be read. The session then has exactly four services, of the endpoints
  -- 0 to 3: the settings, the sensors, the video and the commands. The settings are those of the
  -- file, and the queue has no commands.
  pub set_up-robot_services :
      (file : Bytes) (start : StartSettings) (sender : Spi) (settings : SettingsState F)
      (s : Session (RobotState F D))
      → start.mode ≡ rov
      → start.motors_sender ≡ some sender
      → new_settings p.settings_protobuf file ≡ some settings
      → s.services ≡ []
      → (let (out, s') = set_up p file start s in
          (out ≡ returned tt)
          × (s'.services ≡ robot_services)
          × (s'.state.settings ≡ settings)
          × (s'.state.queue ≡ new_queue)
          × (s'.socket ≡ s.socket)
          × (s'.buffer ≡ s.buffer))
  unfolding set_up make_rov create_service insert_service robot_settings robot_sensors robot_video
      robot_commands on_part settings_service sensors_service video_service commands_service
  set_up-robot_services file start sender settings s m e n empty =
      rw (m, set_up, make_rov, n, e, empty, insert_service) (refl, refl, refl, refl, refl, refl)

  pub robot_services-IsSafe : All (λ e. IsSafe IsReady e.1) robot_services
  unfolding robot_settings robot_sensors robot_video robot_commands
  robot_services-IsSafe =
      let settings =
        on_part-IsSafe IsReady HasFit (λ s. s.settings) put_settings (λ s q. q.0)
          (λ s t q h. (h, q.1)) _ (settings_service-IsSafe p.settings_protobuf 0) in
      let sensors =
        on_part-IsSafe IsReady Anything (λ s. s.sensors) put_sensors (λ s q. tt) (λ s t q h. q) _
          (any-IsSafe (sensors_service D p.bytes_of p.pad 1)) in
      let video =
        on_part-IsSafe IsReady Anything (λ s. s.video) put_video (λ s q. tt) (λ s t q h. q) _
          (any-IsSafe (video_service p.video_protobuf p.devices 2)) in
      let commands =
        on_part-IsSafe IsReady HasSizes (λ s. s.queue) put_queue (λ s q. q.1) (λ s t q h. (q.0, h))
          _ (commands_service-IsSafe p.float_of 3) in
      (settings, (sensors, (video, (commands, tt))))

  -- The robot as it is set up.
  pub set_up-IsReady :
      (file : Bytes) (start : StartSettings) (sender : Spi) (settings : SettingsState F)
      (s : Session (RobotState F D))
      → start.mode ≡ rov
      → start.motors_sender ≡ some sender
      → new_settings p.settings_protobuf file ≡ some settings
      → s.services ≡ []
      → Holds IsReady robot_services (set_up p file start s).1
  set_up-IsReady file start sender settings s m e n empty =
      let (out, services, loaded, queue, socket, buffer) =
        set_up-robot_services file start sender settings s m e n empty in
      let fits = new_settings-Fits p.settings_protobuf file settings n in
      (services, (rw loaded fits, rw queue (new_queue-HasSizes F)))
