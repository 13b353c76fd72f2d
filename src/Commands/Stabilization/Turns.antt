-- ===== src/Commands/Stabilization/Turns.antt =====
-- src/Robot/Features/Commands/Stabilization.hpp: the check of the errors of an angle, on whole degrees.
use polar_uv_robot.Prelude.{◌≡◌, ◌⊎◌, arith}
use polar_uv_robot.Prelude.Int.{ℤ, pos, negsuc, ◌+ℤ◌, ◌-ℤ◌, ◌≤ℤ◌}
use polar_uv_robot.Real.{int_real}
use polar_uv_robot.Commands.Stabilization.{turn_error}

-- For whole degrees and an error between -360 and 360: the checked error is between -180 and 180. Up to
-- 180 degrees it is the error itself or one turn more, which is the same angle; above 180 degrees it is
-- the opposite of the error and one turn, so the sign of the shorter way is lost.
pub turn_error_lem :
    (e : ℤ)
    → negsuc 359 ≤ℤ e
    → e ≤ℤ pos 360
    → (negsuc 179 ≤ℤ turn_error e)
      × (turn_error e ≤ℤ pos 180)
      × (e ≤ℤ pos 180 → (turn_error e ≡ e) ⊎ (turn_error e ≡ e +ℤ pos 360))
      × (pos 181 ≤ℤ e → turn_error e +ℤ e ≡ pos 360)
unfolding turn_error ◌+ℤ◌ ◌-ℤ◌
turn_error_lem (pos n) h k = (ground arith, ground arith, λ l. ground arith, λ l. ground arith)
turn_error_lem (negsuc n) h k = (ground arith, ground arith, λ l. ground arith, λ l. ground arith)
