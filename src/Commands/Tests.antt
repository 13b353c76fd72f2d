-- ===== src/Commands/Tests.antt =====
-- Tests of the commands on whole numbers.
use polar_uv_robot.Prelude.{
  ℕ, ◌≡◌, ◌⊎◌, true, false, some, List, [], ◌∷◌, ◌++◌, map, reverse, take, drop, replicate, arith,
}
use polar_uv_robot.Prelude.Int.{ℤ, pos, negsuc, ◌+ℤ◌, ◌≤ℤ◌}
use polar_uv_robot.Real.{int_real, int_convert, ◌⊕◌, ◌⊗◌, whole}
use polar_uv_robot.Linear.{normalize, apply}
use polar_uv_robot.Linear.Lanes.{length-normalize}
use polar_uv_robot.Commands.Struct.{CommandsStruct}
use polar_uv_robot.Commands.Pid.{Quad}
use polar_uv_robot.Commands.Pid.History.{
  y_axis, at, Sample, Event, measured, cleared, ask, after, integral, slope, ask-after,
}
use polar_uv_robot.Commands.Stabilization.{turn_error}
use polar_uv_robot.Commands.Stabilization.Turns.{turn_error_lem}
use polar_uv_robot.Commands.Cycle.{CycleSettings, hi_pwm}
use polar_uv_robot.Commands.Cycle.Rounds.{products, hi_pwm_lem}

abbrev quad : ℕ → Quad ℤ
quad n = record { e0 = pos n; e1 = pos n; e2 = pos n; e3 = pos n }

abbrev ahead : CommandsStruct ℤ
ahead = record {
  move = pos 50 ∷ pos 0 ∷ pos 0 ∷ pos 0 ∷ pos 0 ∷ pos 0 ∷ [];
  hand = pos 20 ∷ negsuc 9 ∷ pos 0 ∷ pos 0 ∷ pos 0 ∷ pos 0 ∷ [];
  low_pwm = pos 0 ∷ pos 0 ∷ pos 0 ∷ pos 0 ∷ [];
  stabilization = true;
  stabilization_target = quad 90;
}

abbrev sample : Sample ℤ
sample = record { kp = quad 2; ki = quad 3; kd = quad 5; dt = pos 1; errors = quad 10 }

abbrev history : List (Event ℤ)
history = measured sample ∷ cleared ∷ measured sample ∷ []

ask-after_example :
    at y_axis (ask sample (after history)).0
    ≡ whole 0
      ⊕ at y_axis (quad 2) ⊗ at y_axis (quad 10)
      ⊕ integral y_axis (measured sample ∷ history)
      ⊕ slope y_axis (measured sample ∷ history)
ask-after_example = ask-after y_axis history sample

turn_error_lem_example :
    (negsuc 179 ≤ℤ turn_error (pos 340))
    × (turn_error (pos 340) ≤ℤ pos 180)
    × (pos 340 ≤ℤ pos 180
        → (turn_error (pos 340) ≡ pos 340) ⊎ (turn_error (pos 340) ≡ pos 340 +ℤ pos 360))
    × (pos 181 ≤ℤ pos 340 → turn_error (pos 340) +ℤ pos 340 ≡ pos 360)
turn_error_lem_example = turn_error_lem (pos 340) (omega arith) (omega arith)

-- Two thrusters, and one motor of the hand behind them.
abbrev settings : CycleSettings ℤ
settings = record {
  thrusters_coefficients =
      (pos 1 ∷ pos 0 ∷ pos 0 ∷ pos 0 ∷ pos 0 ∷ pos 0 ∷ [])
      ∷ (pos 1 ∷ pos 1 ∷ pos 0 ∷ pos 0 ∷ pos 0 ∷ pos 0 ∷ [])
      ∷ replicate 6 (pos 0)
      ∷ [];
  hand_coefficients = pos 2 ∷ replicate 5 (pos 0);
  hand_freedom = 1;
  kp = quad 1;
  ki = quad 0;
  kd = quad 0;
  pid_enabled = record { x = true; y = false; z = true; h = false };
}

hi_pwm_lem_example :
    hi_pwm ℤ settings ahead.move ahead.hand
    ≡ some (
        map
          (λ x. (x ⊕ whole 100) ⊗ whole 10)
          (reverse (
            products (take 1 ahead.hand) settings.hand_coefficients
            ++ drop 1 (
                reverse
                  (normalize ℤ (whole 100) (apply settings.thrusters_coefficients ahead.move))))))
unfolding apply
hi_pwm_lem_example =
    hi_pwm_lem ℤ settings ahead.move ahead.hand (omega arith) (omega arith) (
      omega
        (arith, length-normalize ℤ (pos 100) (apply settings.thrusters_coefficients ahead.move)))
