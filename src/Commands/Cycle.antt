-- ===== src/Commands/Cycle.antt =====
-- src/Robot/Features/Commands/CommandsCycle.cpp: one round of the loop that drives the motors.
pub mod Rounds
use polar_uv_robot.Prelude.{
  ℕ, zero, suc, ◌%◌, ◌^◌, Bool, Option, none, some, List, [], ◌∷◌, map, if◌then◌else◌, reverse,
}
use polar_uv_robot.Prelude.Options.{◌>>=◌}
use polar_uv_robot.Real.{Real, Convert, ◌⊕◌, ◌⊗◌, whole}
use polar_uv_robot.Linear.{apply, normalize, scale, offset}
use polar_uv_robot.Commands.Struct.{CommandsStruct, SensorsStruct}
use polar_uv_robot.Commands.Queue.{CommandsQueue, get_commands}
use polar_uv_robot.Commands.Pid.{Quad, PidArray, set_coefficients, reset}
use polar_uv_robot.Commands.Motors.{MotorsStruct}
use polar_uv_robot.Commands.Stabilization.{Enabled, stabilize}

-- What a round reads of `RobotSettingsStruct`; the matrix is the list of its rows.
pub record CycleSettings {ℓ} (F : Type ℓ) : Type ℓ where
  pub thrusters_coefficients : List (List F)
  pub hand_coefficients : List F
  pub hand_freedom : ℕ
  pub kp : Quad F
  pub ki : Quad F
  pub kd : Quad F
  pub pid_enabled : Enabled

-- What a round finds outside: the time since the last round, the settings and the sensors.
pub record Inputs {ℓ} (F : Type ℓ) : Type ℓ where
  pub dt : F
  pub settings : CycleSettings F
  pub sensors : SensorsStruct F

pub record CycleState {ℓ} (F : Type ℓ) : Type ℓ where
  pub queue : CommandsQueue F
  pub pids : PidArray F

module _ {ℓ} {F : Type ℓ} ⦃f : Real F⦄ where
  -- `std::ceil` into a word of 16 bits. The conversion of a value out of range, which is undefined, is
  -- taken to wrap around.
  unfoldable pub word_of : F → ℕ
  word_of x = f.to_size (f.ceil x) % 2 ^ 16

  -- `FormMotorsStruct`; the prescaler keeps its default.
  unfoldable pub form_motors_struct : List F → List F → MotorsStruct
  unfolding word_of
  form_motors_struct hi low = record {
    hi_pwm = map word_of hi;
    low_pwm = map word_of low;
    timer_prescaler = 2;
  }

  -- `std::transform` of the first `n` values of the hand into the motors from the last one on; none
  -- where it leaves one of the arrays.
  unfoldable pub put_hand : ℕ → List F → List F → List F → Option (List F)
  put_hand zero hand coefficients out = some out
  put_hand (suc n) (h ∷ hand) (c ∷ coefficients) (o ∷ out) = do
    rest ← put_hand n hand coefficients out
    some ((h ⊗ c) ∷ rest)
  put_hand _ hand coefficients out = none

  -- The six assignments to `commands.Move`: four add, and the third and the fifth replace.
  unfoldable pub merge_move : List F → List F → List F
  merge_move (a ∷ b ∷ _ ∷ c ∷ _ ∷ e ∷ []) (s0 ∷ s1 ∷ s2 ∷ s3 ∷ s4 ∷ s5 ∷ []) =
      (a ⊕ s0) ∷ (b ⊕ s1) ∷ s2 ∷ (c ⊕ s3) ∷ s4 ∷ (e ⊕ s5) ∷ []
  merge_move move _ = move

  module _ {κ} (D : Type κ) ⦃d : Real D⦄ ⦃conv : Convert F D⦄ where
    -- From the settings and the movement to the values of the motors.
    unfoldable pub hi_pwm : CycleSettings F → List F → List F → Option (List F)
    unfolding put_hand
    hi_pwm settings move hand = do
      let thrust = normalize D (whole 100) (apply settings.thrusters_coefficients move)
      out ← put_hand settings.hand_freedom hand settings.hand_coefficients (reverse thrust)
      some (scale (whole 10) (offset (whole 100) (reverse out)))

    -- The movement of the round, and the regulator after it.
    unfoldable pub movement : Inputs F → CommandsStruct F → PidArray F → List F × PidArray F
    unfolding merge_move
    movement i commands pids =
        let s = i.settings in
        let (move, next) =
          stabilize D i.dt commands s.pid_enabled i.sensors
            (set_coefficients s.kp s.ki s.kd pids) in
        if commands.stabilization
        then (merge_move commands.move move, next)
        else (commands.move, reset pids)

    -- One round: what is sent to the motors, and the state after it.
    unfoldable pub round : Inputs F → CycleState F → Option MotorsStruct × CycleState F
    unfolding movement form_motors_struct
    round i s =
        let (commands, queue) = get_commands s.queue in
        let (move, pids) = movement i commands s.pids in
        let sent : Option MotorsStruct = elim (hi_pwm i.settings move commands.hand) [
          | none ↦ none
          | some hi ↦ some (form_motors_struct hi commands.low_pwm)
        ] in
        (sent, record { queue = queue; pids = pids })
