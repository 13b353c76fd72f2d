-- ===== src/Commands/Pid/Timer.antt =====
-- src/Robot/Features/Commands/PID.hpp: the class `Timer`. A time point is its nanoseconds, and `now` what
-- the clock shows.
use polar_uv_robot.Prelude.{ℕ}
use polar_uv_robot.Prelude.Int.{pos, ◌-ℤ◌}
use polar_uv_robot.Real.{Real, ◌⊘◌, whole}

-- `Timer::Update`, from the time point that is kept to the seconds since then and the new one.
unfoldable pub update_timer {ℓ} : {F : Type ℓ} ⦃f : Real F⦄ → ℕ → ℕ → F × ℕ
unfolding ◌-ℤ◌
update_timer ⦃f⦄ now time_point = (f.of_int (pos now -ℤ pos time_point) ⊘ whole 1000000000, now)
