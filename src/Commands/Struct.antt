-- ===== src/Commands/Struct.antt =====
-- src/Robot/Features/Commands/CommandsStruct.hpp, and the `SensorsStruct` of
-- src/Robot/Features/Sensors.
use polar_uv_robot.Prelude.{ℕ, Bool, false, List, replicate}
use polar_uv_robot.Real.{Real, whole}
use polar_uv_robot.Commands.Pid.{Quad, same}

-- `CommandsStruct`: `Move` and `Hand` have six elements, the others four.
pub record CommandsStruct {ℓ} (F : Type ℓ) : Type ℓ where
  pub move : List F
  pub hand : List F
  pub low_pwm : List F
  pub stabilization : Bool
  pub stabilization_target : Quad F

module _ {ℓ} {F : Type ℓ} ⦃f : Real F⦄ where
  unfoldable pub no_commands : CommandsStruct F
  unfolding same
  no_commands = record {
    move = replicate 6 (whole 0);
    hand = replicate 6 (whole 0);
    low_pwm = replicate 4 (whole 0);
    stabilization = false;
    stabilization_target = same (whole 0);
  }

-- `SensorsStruct`; each byte of the calibration by its bits.
pub record SensorsStruct {ℓ} (F : Type ℓ) : Type ℓ where
  pub rotation : Quad F
  pub acceleration : List F
  pub depth : F
  pub pressure : F
  pub battery_voltage : F
  pub motion_calibration : List ℕ
  pub euler : Bool
