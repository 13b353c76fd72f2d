-- ===== src/Robot/Requests.antt =====
-- From the bytes of a request on the socket to the motors: src/Lib/TcpSession/TcpSession.cpp, the
-- services of src/Robot/Robot.cpp, and the loop of src/Robot/Features/Commands/CommandsCycle.cpp.
use polar_uv_robot.Prelude.{
  ℕ, suc, ◌+◌, ◌≤◌, ◌≡◌, refl, true, Option, [], ◌++◌, Bytes, utf8, length, inl, inr, arith,
}
use polar_uv_robot.Real.{Real, Convert}
use polar_uv_robot.Network.Packet.{response, no_content}
use polar_uv_robot.Network.Packet.Layout.{request_bytes}
use polar_uv_robot.Network.Exec.{returned}
use polar_uv_robot.Network.Buffer.{Zstd, buffer_size, capacity, view_of}
use polar_uv_robot.Network.Buffer.Zlaws.{IsZstd}
use polar_uv_robot.Network.Service.{base_service, not_empty}
use polar_uv_robot.Network.Session.{Session, lookup_service}
use polar_uv_robot.Network.Session.Serve.{serve_one}
use polar_uv_robot.Network.Session.Requests.{answered, packed}
use polar_uv_robot.Network.Session.Answers.{unpacked, serve_one-write}
use polar_uv_robot.Settings.{settings_service, SettingsState, write_validate, write}
use polar_uv_robot.Settings.Validation.{
  Accepted, settings_of, validate_lem, parse_settings-Accepted,
}
use polar_uv_robot.Settings.Motion.{cycle_settings}
use polar_uv_robot.Commands.Queue.{add_commands}
use polar_uv_robot.Commands.Motors.{MotorsStruct}
use polar_uv_robot.Commands.Cycle.{Inputs, round}
use polar_uv_robot.Commands.Cycle.Rounds.{sent_for, rounds, round-rounds}
use polar_uv_robot.Commands.Service as Commands
use polar_uv_robot.Commands.Service.{commands_struct_size, commands_of, commands_service}
use polar_uv_robot.Robot.{
  RobotState, Platform, on_part, put_settings, put_queue, robot_settings, robot_commands,
}
use polar_uv_robot.Robot.Services.{robot_services}
use polar_uv_robot.Robot.Reach.{inputs_of, drive}

module _ {ℓ κ} {F : Type ℓ} {D : Type κ} ⦃f : Real F⦄ ⦃d : Real D⦄ ⦃conv : Convert F D⦄
    (p : Platform F) (s : RobotState F D) (x : Bytes) where
  robot_commands-write_validate :
      length x ≡ commands_struct_size
      → (robot_commands p).write_validate (view_of x) s ≡ (returned true, s)
  unfolding robot_commands on_part commands_service base_service not_empty
  robot_commands-write_validate size = rw size refl

  robot_commands-write :
      length x ≡ commands_struct_size
      → (robot_commands p).write (view_of x) s
        ≡ (returned tt, put_queue (add_commands (commands_of p.float_of x) s.queue) s)
  unfolding robot_commands on_part commands_service Commands.write
  robot_commands-write size = rw size refl

  -- The settings after a write request.
  abbrev written : SettingsState F
  written = record { file = x; settings = settings_of (p.settings_protobuf.parse x) }

  robot_settings-write_validate :
      Accepted (p.settings_protobuf.parse x)
      → (robot_settings p).write_validate (view_of x) s ≡ (returned true, s)
  unfolding robot_settings on_part settings_service write_validate
  robot_settings-write_validate a = elim (validate_lem (p.settings_protobuf.parse x) s.settings) [
    | inl v ↦ rw v.1 refl
    | inr v ↦ absurd (v.0 a)
  ]

  robot_settings-write :
      Accepted (p.settings_protobuf.parse x)
      → 4 ≤ length (p.settings_protobuf.parse x).pid
      → (robot_settings p).write (view_of x) s ≡ (returned tt, put_settings written s)
  unfolding robot_settings on_part settings_service write
  robot_settings-write a h =
      rw
        (
          robot_settings,
          on_part,
          settings_service,
          write,
          parse_settings-Accepted (p.settings_protobuf.parse x) a h,
        )
        refl

module _ {ℓ κ} {F : Type ℓ} {D : Type κ} ⦃f : Real F⦄ ⦃d : Real D⦄ ⦃conv : Convert F D⦄
    (s : RobotState F D) where
  -- What a round of the loop sends.
  unfoldable pub sends : Inputs F → Option MotorsStruct
  sends i = (round D i (record { queue = s.queue; pids = s.pids })).0

module _ {ℓ κ} {F : Type ℓ} {D : Type κ} ⦃f : Real F⦄ ⦃d : Real D⦄ ⦃conv : Convert F D⦄
    (p : Platform F) (z : Zstd) (laws : IsZstd z) (s : Session (RobotState F D)) (x rest : Bytes)
    (n : ℕ) (dt : F) (running : s.services ≡ robot_services p)
    (can_write : s.socket.writes_left ≡ suc n) (full : length s.buffer ≡ capacity)
    (bound : z.compress_bound (length x) ≤ capacity) (small : length (packed z x) ≤ buffer_size)
    (fits : length x + length (packed z x) ≤ capacity) where
  -- What a write request to endpoint `e` leaves: the state `t`, and the answer.
  abbrev Left : ℕ → RobotState F D → Type (ℓ ⊔ κ)
  Left e t = serve_one z s ≡ (
    returned tt,
    answered (response (utf8 "") no_content e) n (record (unpacked z x rest s) { state = t }),
  )

  -- A client of a running robot writes commands to endpoint 3, compressed and small enough for the
  -- buffer. Then the next round of the loop sends the motors what these commands ask for, with the
  -- settings and the sensors as they were.
  pub drive-serve_one_commands :
      s.socket.input ≡ request_bytes 1 3 (length (packed z x)) ++ (packed z x ++ rest)
      → length x ≡ commands_struct_size
      → (let (out, t) = serve_one z s in
          (out ≡ returned tt)
          × ((drive dt t.state).0
              ≡ sent_for D (inputs_of dt s.state) (commands_of p.float_of x) s.state.pids))
  unfolding robot_commands commands_service drive answered lookup_service rounds
  drive-serve_one_commands input size =
      let commands = commands_of p.float_of x in
      let left = put_queue (add_commands commands s.state.queue) s.state in
      let served : Left 3 left =
        serve_one-write z laws s (robot_commands p) 3 rest n (omega arith) (rw running refl)
          can_write x full bound small fits true s.state left input
          (robot_commands-write_validate p s.state x size)
          (robot_commands-write p s.state x size) in
      rw served (
        refl,
        round-rounds D commands (record { queue = s.state.queue; pids = s.state.pids }) []
            (inputs_of dt s.state),
      )

  -- A client of a running robot writes to endpoint 0 a message of settings that the validation
  -- accepts, with four sets of PID coefficients, compressed and small enough for the buffer.
  -- Then the message is in the file, and the next round of the loop runs with exactly the settings
  -- of that message, and with the sensors, the commands and the regulators as they were.
  pub drive-serve_one_settings :
      s.socket.input ≡ request_bytes 1 0 (length (packed z x)) ++ (packed z x ++ rest)
      → Accepted (p.settings_protobuf.parse x)
      → 4 ≤ length (p.settings_protobuf.parse x).pid
      → (let (out, t) = serve_one z s in
          (out ≡ returned tt)
          × (t.state.settings.file ≡ x)
          × ((drive dt t.state).0
              ≡ sends s.state (record (inputs_of dt s.state) {
                settings = cycle_settings (settings_of (p.settings_protobuf.parse x));
              })))
  unfolding robot_settings settings_service drive answered lookup_service sends
  drive-serve_one_settings input a h =
      let left = put_settings (written p s.state x) s.state in
      let served : Left 0 left =
        serve_one-write z laws s (robot_settings p) 0 rest n (omega arith) (rw running refl)
          can_write x full bound small fits true s.state left input
          (robot_settings-write_validate p s.state x a) (robot_settings-write p s.state x a h) in
      rw served (refl, refl, refl)
