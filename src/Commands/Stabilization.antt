-- ===== src/Commands/Stabilization.antt =====
-- src/Robot/Features/Commands/Stabilization.hpp: the class `Stabilization`. The macro `rad` and the
-- sines work in `double`.
pub mod Turns
pub mod Depth
use polar_uv_robot.Prelude.{Bool, List, [], ◌∷◌, if◌then◌else◌}
use polar_uv_robot.Real.{Real, Convert, ◌⊕◌, ◌⊖◌, ◌⊗◌, ◌⊘◌, whole}
use polar_uv_robot.Linear.{normalize}
use polar_uv_robot.Commands.Struct.{CommandsStruct, SensorsStruct}
use polar_uv_robot.Commands.Pid.{Quad, PidArray, get_errors, calculate, set_coefficients, reset}

-- The four Booleans of `PIDEnabled`.
pub record Enabled : Type 0 where
  pub x : Bool
  pub y : Bool
  pub z : Bool
  pub h : Bool

module _ {ℓ} {F : Type ℓ} ⦃f : Real F⦄ where
  -- The check of an error of the first and the third axis.
  unfoldable pub turn_error : F → F
  turn_error e =
      if f.lt (whole 180) e
      then whole 360 ⊖ e
      else if f.lt e (f.neg (whole 180))
      then whole 360 ⊕ e
      else e

  unfoldable pub measured_values : SensorsStruct F → Quad F
  measured_values sensors =
      let y = sensors.rotation.e1 in
      record {
        e0 = sensors.rotation.e0;
        e1 = if f.le (whole 270) y then y ⊖ whole 360 else y;
        e2 = sensors.rotation.e2;
        e3 = sensors.depth;
      }

  unfoldable pub checked_errors : Quad F → Quad F
  unfolding turn_error
  checked_errors e = record { e0 = turn_error e.e0; e1 = e.e1; e2 = turn_error e.e2; e3 = e.e3 }

  module _ {κ} (D : Type κ) ⦃d : Real D⦄ ⦃conv : Convert F D⦄ where
    -- `rad(x)`, with `M_PI`.
    unfoldable pub rad : F → D
    rad x = conv.widen x ⊗ d.lit 314159265358979323846 100000000000000000000 ⊘ whole 180

    unfoldable pub new_move : Enabled → Quad F → Quad F → List F
    unfolding rad
    new_move on pids m =
        let a = rad m.e0 in
        let b = rad m.e1 in
        let p = conv.widen pids.e3 in
        let zero_f = whole 0 in
        (if on.h then conv.narrow (conv.widen (f.neg pids.e3) ⊗ d.sin b) else zero_f)
        ∷ (if on.h then conv.narrow (p ⊗ d.sin a ⊗ d.cos a) else zero_f)
        ∷ (if on.h then conv.narrow (p ⊗ d.cos a ⊗ d.cos b) else zero_f)
        ∷ (if on.x then f.neg pids.e0 else zero_f)
        ∷ (if on.y then f.neg pids.e1 else zero_f)
        ∷ (if on.z then f.neg pids.e2 else zero_f)
        ∷ []

    -- `Stabilization::Calculate`, with the regulator after it.
    unfoldable pub stabilize :
        F → CommandsStruct F → Enabled → SensorsStruct F → PidArray F → List F × PidArray F
    unfolding measured_values checked_errors new_move
    stabilize dt commands on sensors pids =
        let measured = measured_values sensors in
        let errors = checked_errors (get_errors commands.stabilization_target measured) in
        let (values, next) = calculate dt errors pids in
        (normalize D (whole 1) (new_move on values measured), next)
