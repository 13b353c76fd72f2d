-- ===== src/Settings/Motion.antt =====
-- The settings of src/Robot/Features/RobotSettings as the loop of
-- src/Robot/Features/Commands/CommandsCycle.cpp reads them.
use polar_uv_robot.Prelude.{
  ℕ, zero, suc, ◌≤◌, ◌≡◌, ◌∙◌, ap, refl, arith, some, List, [], ◌∷◌, ◌++◌, map, reverse, length,
  length-append, length-map, length-take, length-drop, length-replicate, take, drop, get_or,
  replicate,
}
use polar_uv_robot.Real.{Real, Convert, ◌⊕◌, ◌⊗◌, whole}
use polar_uv_robot.Linear.{apply, normalize}
use polar_uv_robot.Linear.Lanes.{length-normalize}
use polar_uv_robot.Commands.Pid.{Quad}
use polar_uv_robot.Commands.Motors.{MotorsStruct}
use polar_uv_robot.Commands.Queue.{get_commands}
use polar_uv_robot.Commands.Cycle.{
  CycleSettings, Inputs, CycleState, hi_pwm, word_of, form_motors_struct, movement, round,
}
use polar_uv_robot.Commands.Cycle.Rounds.{products, hi_pwm_lem, length-reverse_native}
use polar_uv_robot.Settings.{PidMessage, Message, RobotSettingsStruct}
use polar_uv_robot.Settings.Validation.{Accepted, settings_of}

module _ {ℓ} {F : Type ℓ} ⦃f : Real F⦄ where
  -- The elements of a matrix with six columns, by rows.
  unfoldable pub rows : ℕ → List F → List (List F)
  rows zero xs = []
  rows (suc n) xs = take 6 xs ∷ rows n (drop 6 xs)

  -- One coefficient of the four regulators.
  unfoldable pub coefficients_by : (PidMessage F → F) → List (PidMessage F) → Quad F
  coefficients_by part pids =
      let none_set : PidMessage F = record { p = whole 0; i = whole 0; d = whole 0 } in
      record {
        e0 = part (get_or pids 0 none_set);
        e1 = part (get_or pids 1 none_set);
        e2 = part (get_or pids 2 none_set);
        e3 = part (get_or pids 3 none_set);
      }

  unfoldable pub cycle_settings : RobotSettingsStruct F → CycleSettings F
  unfolding rows coefficients_by
  cycle_settings s = record {
    thrusters_coefficients = rows 12 s.thrusters_coefficients;
    hand_coefficients = s.hand_coefficients;
    hand_freedom = s.hand_freedom;
    kp = coefficients_by (λ c. c.p) s.pid_coefficients;
    ki = coefficients_by (λ c. c.i) s.pid_coefficients;
    kd = coefficients_by (λ c. c.d) s.pid_coefficients;
    pid_enabled = s.pid_enabled;
  }

  pub length-rows : (n : ℕ) (xs : List F) → length (rows n xs) ≡ n
  unfolding rows
  length-rows zero xs = refl
  length-rows (suc n) xs = ap suc (length-rows n (drop 6 xs))

  length-products : (xs ys : List F) → length xs ≤ length ys → length (products xs ys) ≡ length xs
  unfolding products
  length-products [] ys h = refl
  length-products (x ∷ xs) [] h = elim h [ ]
  length-products (x ∷ xs) (y ∷ ys) h = omega (arith, length-products xs ys (omega arith))

  padded :
      (xs : List F) (n : ℕ)
      → length xs ≤ n
      → length (xs ++ drop (length xs) (replicate n (whole 0))) ≡ n
  padded xs n h =
      let z : F = whole 0 in
      let zs : List F = replicate n z in
      omega (
        arith,
        length-append xs (drop (length xs) zs),
        length-drop (length xs) zs,
        length-replicate n z,
      )

  module _ {κ} (D : Type κ) ⦃d : Real D⦄ ⦃conv : Convert F D⦄ where
    -- The sizes of what `hi_pwm` handles.
    pub sized :
        (s : CycleSettings F) (move hand : List F)
        → length s.thrusters_coefficients ≡ 12
        → s.hand_freedom ≤ length hand
        → s.hand_freedom ≤ length s.hand_coefficients
        → s.hand_freedom ≤ 12
        → (out : List F) × (hi_pwm D s move hand ≡ some out) × (length out ≡ 12)
    unfolding apply
    sized s move hand full h k l =
        let product = apply s.thrusters_coefficients move in
        let thrust = normalize D (whole 100) product in
        let n = s.hand_freedom in
        let long : length thrust ≡ 12 =
          length-normalize D (whole 100) product ∙ (length-map s.thrusters_coefficients _ ∙ full) in
        let mine = products (take n hand) s.hand_coefficients in
        let others = drop n (reverse thrust) in
        let e1 =
          length-products (take n hand) s.hand_coefficients (omega (arith, length-take n hand)) in
        let op : F → F = λ x. (x ⊕ whole 100) ⊗ whole 10 in
        (
          map op (reverse (mine ++ others)),
          hi_pwm_lem D s move hand h k (omega arith),
          omega (
            arith,
            e1,
            length-map (reverse (mine ++ others)) op,
            length-reverse_native (mine ++ others) [],
            length-append mine others,
            length-drop n (reverse thrust),
            length-reverse_native thrust [],
            length-take n hand,
          ),
        )

    -- With the settings of an accepted message and commands for six motors of the hand, a round reads
    -- and writes inside its arrays: it sends a message to the motors, with a value for each of the
    -- twelve. This holds for every state of the regulators and for everything that the sensors report.
    pub round-Accepted :
        (m : Message F) (i : Inputs F) (s : CycleState F)
        → Accepted m
        → i.settings ≡ cycle_settings (settings_of m)
        → length (get_commands s.queue).0.hand ≡ 6
        → (sent : MotorsStruct) × ((round D i s).0 ≡ some sent) × (length sent.hi_pwm ≡ 12)
    unfolding round form_motors_struct cycle_settings settings_of
    round-Accepted m i s a e h =
        let c = (get_commands s.queue).0 in
        let free : i.settings.hand_freedom ≡ length m.hand_coefficient =
          ap (λ x. x.hand_freedom) e in
        let full : length i.settings.thrusters_coefficients ≡ 12 =
          ap (λ x. length x.thrusters_coefficients) e
          ∙ length-rows 12 (settings_of m).thrusters_coefficients in
        let six : length i.settings.hand_coefficients ≡ 6 =
          ap (λ x. length x.hand_coefficients) e
          ∙ padded m.hand_coefficient 6 (omega (arith, a.hand_fits)) in
        let small = a.hand_fits in
        let (out, eq, twelve) =
          sized i.settings (movement D i c s.pids).0 c.hand full (omega arith) (omega arith)
            (omega arith) in
        (form_motors_struct out c.low_pwm, rw (round, eq), length-map out word_of ∙ twelve)
