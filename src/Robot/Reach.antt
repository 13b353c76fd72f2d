-- ===== src/Robot/Reach.antt =====
-- The robot as it runs: src/Lib/TcpSession/TcpSession.cpp, src/Lib/Peripheral/SensorHandler.cpp and
-- src/Robot/Features/Commands/CommandsCycle.cpp, each in a thread of its own, take turns. A step is one
-- whole request, update of the sensors or round; Run has the steps of a round one by one.
use polar_uv_robot.Prelude.{
  ℕ, ◌++◌, ◌≡◌, refl, ap, ◌∙◌, Option, some, [], Bytes, length, length-map, arith,
}
use polar_uv_robot.Real.{Real, Convert}
use polar_uv_robot.Network.Exec.{returned}
use polar_uv_robot.Network.Buffer.{Zstd}
use polar_uv_robot.Network.Socket.{Socket}
use polar_uv_robot.Network.Session.{Session, set_socket, set_state}
use polar_uv_robot.Network.Session.Serve.{serve_one}
use polar_uv_robot.Network.Session.Untouched.{Holds}
use polar_uv_robot.Network.Session.Invariant.{serve_one-Holds}
use polar_uv_robot.Settings.{SettingsState, new_settings}
use polar_uv_robot.Settings.Motion.{cycle_settings, sized, length-rows}
use polar_uv_robot.Sensors.{SensorsState, get_sensors_struct}
use polar_uv_robot.Commands.Struct.{no_commands}
use polar_uv_robot.Commands.Queue.{CommandsQueue, get_commands}
use polar_uv_robot.Commands.Motors.{
  MotorsStruct, motors_bytes, send_motors_struct, mark, send_motors_struct_lem,
}
use polar_uv_robot.Commands.Cycle.{Inputs, CycleState, movement, form_motors_struct, round, word_of}
use polar_uv_robot.Robot.Start.{StartSettings, Spi, rov}
use polar_uv_robot.Robot.{RobotState, Platform, put_sensors, set_up}
use polar_uv_robot.Robot.Services.{
  set_up-IsReady, robot_services, IsReady, HasSizes, robot_services-IsSafe,
}

module _ {ℓ} {F : Type ℓ} ⦃f : Real F⦄ where
  pub get_commands-HasSizes :
      (q : CommandsQueue F)
      → HasSizes q
      → (length (get_commands q).0.hand ≡ 6)
        × (length (get_commands q).0.low_pwm ≡ 4)
        × HasSizes (get_commands q).1
  unfolding get_commands no_commands
  get_commands-HasSizes q h = ground arith

module _ {ℓ κ} {F : Type ℓ} {D : Type κ} ⦃f : Real F⦄ ⦃d : Real D⦄ ⦃conv : Convert F D⦄ where
  abbrev cycle_of : RobotState F D → CycleState F
  cycle_of s = record { queue = s.queue; pids = s.pids }

  -- What a round finds, a time `dt` after the last one.
  abbrev pub inputs_of : F → RobotState F D → Inputs F
  inputs_of dt s = record {
    dt = dt;
    settings = cycle_settings s.settings.settings;
    sensors = get_sensors_struct s.sensors;
  }

  -- A round of the loop that drives the motors: what it sends, and the state after it.
  unfoldable pub drive : F → RobotState F D → Option MotorsStruct × RobotState F D
  drive dt s =
      let (sent, c) = round D (inputs_of dt s) (cycle_of s) in
      (sent, record s { queue = c.queue; pids = c.pids })

  drive-IsReady :
      (dt : F) (s : RobotState F D)
      → IsReady s
      → IsReady (drive dt s).1
        × ((sent : MotorsStruct) × ((drive dt s).0 ≡ some sent)
            × (length sent.hi_pwm ≡ 12)
            × (length sent.low_pwm ≡ 4))
  unfolding drive round form_motors_struct cycle_settings
  drive-IsReady dt s (fits, fit) =
      let i = inputs_of dt s in
      let (hand, low, sizes) = get_commands-HasSizes s.queue fit in
      let commands = (get_commands s.queue).0 in
      let move = (movement D i commands s.pids).0 in
      let (out, sent, twelve) =
        sized D i.settings move commands.hand
          (length-rows 12 s.settings.settings.thrusters_coefficients) (omega arith) (omega arith)
          (omega arith) in
      (
        (fits, sizes),
        (
          form_motors_struct out commands.low_pwm,
          rw (drive, round, sent) refl,
          length-map out word_of ∙ twelve,
          length-map commands.low_pwm word_of ∙ low,
        ),
      )

  module _ (z : Zstd) where
    -- A client connects, a request is served, the sensors are given new values, or a round is driven.
    pub data Step (s t : Session (RobotState F D)) : Type (ℓ ⊔ κ) where
      connected : (k : Socket) → t ≡ set_socket k s → Step s t
      served : serve_one z s ≡ (returned tt, t) → Step s t
      sensed : (x : SensorsState D) → t ≡ set_state (put_sensors x s.state) s → Step s t
      driven : (dt : F) → t ≡ set_state (drive dt s.state).1 s → Step s t

    pub data Reach (s : Session (RobotState F D)) : Session (RobotState F D) → Type (ℓ ⊔ κ) where
      here : Reach s s
      next : {t u : Session (RobotState F D)} → Reach s t → Step t u → Reach s u

    module _ (p : Platform F) where
      abbrev IsRunning : Session (RobotState F D) → Type (ℓ ⊔ κ)
      IsRunning = Holds IsReady (robot_services p)

      Step-IsRunning : {s t : Session (RobotState F D)} → Step s t → IsRunning s → IsRunning t
      Step-IsRunning (connected k e) h = rw e h
      Step-IsRunning (served e) h =
          rw (← ap (λ o. o.1) e)
            (serve_one-Holds IsReady (robot_services p) (robot_services-IsSafe p) z _ h)
      Step-IsRunning (sensed x e) h = rw e h
      Step-IsRunning (driven dt e) h = rw e (h.0, (drive-IsReady dt _ h.1).0)

      Reach-IsRunning : {s t : Session (RobotState F D)} → IsRunning s → Reach s t → IsRunning t
      Reach-IsRunning h here = h
      Reach-IsRunning h (next r st) = Step-IsRunning st (Reach-IsRunning h r)

      -- From a successful set-up on, whatever clients connect, whatever their requests are and in
      -- whatever order they, the sensors and the rounds of the loop take turns, as long as no request
      -- ends the program, every round reads and writes inside its arrays, and sends a message:
      -- twice the struct with a value for each of the twelve motors and of the four of low power,
      -- each time between two marks.
      pub drive-Reach :
          (file : Bytes) (start : StartSettings) (sender : Spi) (settings : SettingsState F)
          (s t : Session (RobotState F D)) (dt : F) (pad : ℕ)
          → start.mode ≡ rov
          → start.motors_sender ≡ some sender
          → new_settings p.settings_protobuf file ≡ some settings
          → s.services ≡ []
          → Reach (set_up p file start s).1 t
          → (sent : MotorsStruct) × ((drive dt t.state).0 ≡ some sent)
            × (length sent.hi_pwm ≡ 12)
            × (length sent.low_pwm ≡ 4)
            × (send_motors_struct pad sent
                ≡ mark
                  ++ (motors_bytes pad sent ++ (mark ++ (mark ++ (motors_bytes pad sent ++ mark)))))
      drive-Reach file start sender settings s t dt pad m e n empty r =
          let is_ready = set_up-IsReady p file start sender settings s m e n empty in
          let (sent, is_sent, twelve, four) =
            (drive-IsReady dt t.state (Reach-IsRunning is_ready r).1).1 in
          (sent, is_sent, twelve, four, send_motors_struct_lem pad sent twelve four)
