-- ===== src/Robot/Arrived.antt =====
-- Which events a well-formed request is, from its bytes on the socket of src/Lib/TcpSession/TcpSession.cpp.
use polar_uv_robot.Prelude.{
  Bytes, ℕ, suc, ◌≡◌, refl, ap, ◌∙◌, true, List, ◌∷◌, ◌++◌, ◌≤◌, ◌+◌, length, arith,
}
use polar_uv_robot.Real.{Real, Convert}
use polar_uv_robot.Network.Packet.Layout.{request_bytes}
use polar_uv_robot.Network.Buffer.{Zstd, buffer_size, capacity}
use polar_uv_robot.Network.Buffer.Zlaws.{IsZstd}
use polar_uv_robot.Network.Session.{Session, lookup_service}
use polar_uv_robot.Network.Session.Heard.{heard}
use polar_uv_robot.Network.Session.Requests.{packed}
use polar_uv_robot.Network.Session.Answers.{heard-write}
use polar_uv_robot.Settings.Accepts.{accepts}
use polar_uv_robot.Commands.Service.{commands_struct_size, commands_of}
use polar_uv_robot.Robot.{RobotState, Platform, robot_settings, robot_commands}
use polar_uv_robot.Robot.Services.{robot_services}
use polar_uv_robot.Robot.Changes.{commands_in}
use polar_uv_robot.Robot.Configures.{message_in}
use polar_uv_robot.Robot.Model.{Event, commanded, configured}
use polar_uv_robot.Robot.Run.{arrived}

module _ {ℓ κ} {F : Type ℓ} {D : Type κ} ⦃f : Real F⦄ ⦃d : Real D⦄ ⦃conv : Convert F D⦄
    (p : Platform F) (z : Zstd) (laws : IsZstd z) (s : Session (RobotState F D)) (x rest : Bytes)
    (n : ℕ) (running : s.services ≡ robot_services p) (can_write : s.socket.writes_left ≡ suc n)
    (full : length s.buffer ≡ capacity) (bound : z.compress_bound (length x) ≤ capacity)
    (small : length (packed z x) ≤ buffer_size) (fits : length x + length (packed z x) ≤ capacity)
    (labels : List (Event F D)) where
  -- Commands.
  pub arrived-commands :
      s.socket.input ≡ request_bytes 1 3 (length (packed z x)) ++ (packed z x ++ rest)
      → length x ≡ commands_struct_size
      → arrived p (heard z s) labels ≡ commanded (commands_of p.float_of x) ∷ labels
  unfolding arrived commands_in lookup_service robot_commands
  arrived-commands input size =
      ap (λ a. arrived p a labels)
        (heard-write z laws s (robot_commands p) 3 rest n (omega arith) (rw running refl) can_write
          x full bound small fits input)
      ∙ rw size refl

  -- Settings that obey the rules.
  pub arrived-settings :
      s.socket.input ≡ request_bytes 1 0 (length (packed z x)) ++ (packed z x ++ rest)
      → accepts (p.settings_protobuf.parse x) ≡ true
      → arrived p (heard z s) labels ≡ configured (p.settings_protobuf.parse x) ∷ labels
  unfolding arrived message_in lookup_service robot_settings
  arrived-settings input fine =
      ap (λ a. arrived p a labels)
        (heard-write z laws s (robot_settings p) 0 rest n (omega arith) (rw running refl) can_write
          x full bound small fits input)
      ∙ rw fine refl
