-- ===== src/Commands/Cycle/Rounds.antt =====
-- src/Robot/Features/Commands/CommandsCycle.cpp: what the rounds of the loop send.
use polar_uv_robot.Prelude.{
  ℕ, zero, suc, ◌+◌, ◌≤◌, ◌≡◌, refl, ap, ◌∙◌, Option, none, some, List, [], ◌∷◌, ◌++◌, map, ltb,
  if◌then◌else◌, length, take, drop, reverse, reverse_aux, map-map, arith,
}
use polar_uv_robot.Real.{Real, Convert, ◌⊕◌, ◌⊗◌, whole}
use polar_uv_robot.Linear.{apply, normalize, scale, offset, map_simd}
use polar_uv_robot.Linear.Lanes.{map_simd_lem}
use polar_uv_robot.Commands.Struct.{CommandsStruct, no_commands}
use polar_uv_robot.Commands.Queue.{
  get_commands, add_commands, requests, max_count, get_commands-add_commands,
}
use polar_uv_robot.Commands.Pid.{PidArray}
use polar_uv_robot.Commands.Motors.{MotorsStruct}
use polar_uv_robot.Commands.Cycle.{
  CycleSettings, Inputs, CycleState, put_hand, hi_pwm, form_motors_struct, movement, round,
}

module _ {ℓ} {F : Type ℓ} ⦃f : Real F⦄ where
  unfoldable pub products : List F → List F → List F
  products (h ∷ hand) (c ∷ coefficients) = (h ⊗ c) ∷ products hand coefficients
  products _ _ = []

  put_hand_lem :
      (n : ℕ) (hand coefficients out : List F)
      → n ≤ length hand
      → n ≤ length coefficients
      → n ≤ length out
      → put_hand n hand coefficients out ≡ some (products (take n hand) coefficients ++ drop n out)
  unfolding put_hand products
  put_hand_lem zero hand coefficients out h k l = refl
  put_hand_lem (suc n) (x ∷ hand) (c ∷ coefficients) (o ∷ out) h k l =
      rw (put_hand_lem n hand coefficients out (omega arith) (omega arith) (omega arith))
  put_hand_lem (suc n) [] cs out h k l = elim h [ ]
  put_hand_lem (suc n) (x ∷ hand) [] out h k l = elim k [ ]
  put_hand_lem (suc n) (x ∷ hand) (c ∷ cs) [] h k l = elim l [ ]

  pub length-reverse_native : (xs ys : List F) → length (reverse_aux xs ys) ≡ length xs + length ys
  length-reverse_native [] ys = omega arith
  length-reverse_native (x ∷ xs) ys = omega (arith, length-reverse_native xs (x ∷ ys))

  scaled :
      (xs : List F)
      → scale (whole 10) (offset (whole 100) xs) ≡ map (λ x. (x ⊕ whole 100) ⊗ whole 10) xs
  unfolding scale offset
  scaled xs =
      map_simd_lem (λ x. x ⊗ whole 10) (map_simd (λ x. x ⊕ whole 100) xs)
      ∙ ap (map (λ x. x ⊗ whole 10)) (map_simd_lem (λ x. x ⊕ whole 100) xs)
      ∙ map-map (λ x. x ⊗ whole 10) (λ x. x ⊕ whole 100) xs

  module _ {κ} (D : Type κ) ⦃d : Real D⦄ ⦃conv : Convert F D⦄ where
    -- If the hand has no more motors than there are values for it, coefficients for it and rows
    -- in the product of matrix and movement, then the hand's values, each times its coefficient,
    -- take the last motors, the last motor first; the normalised product keeps the others; and to
    -- each value a hundred is added and the sum is multiplied by ten, once.
    pub hi_pwm_lem :
        (s : CycleSettings F) (move hand : List F)
        → s.hand_freedom ≤ length hand
        → s.hand_freedom ≤ length s.hand_coefficients
        → (let thrust = normalize D (whole 100) (apply s.thrusters_coefficients move) in
            s.hand_freedom ≤ length thrust
            → hi_pwm D s move hand
              ≡ some (
                  map
                    (λ x. (x ⊕ whole 100) ⊗ whole 10)
                    (reverse (
                      products (take s.hand_freedom hand) s.hand_coefficients
                      ++ drop s.hand_freedom (reverse thrust)))))
    unfolding hi_pwm
    hi_pwm_lem s move hand h k l =
        let thrust = normalize D (whole 100) (apply s.thrusters_coefficients move) in
        let n = s.hand_freedom in
        let e =
          put_hand_lem n hand s.hand_coefficients (reverse thrust) h k
            (omega (arith, length-reverse_native thrust [])) in
        let out = reverse (products (take n hand) s.hand_coefficients ++ drop n (reverse thrust)) in
        rw (e, scaled out)

    -- The state after rounds with the given inputs, the newest first.
    unfoldable pub rounds : List (Inputs F) → CycleState F → CycleState F
    unfolding round
    rounds [] s = s
    rounds (i ∷ older) s = (round D i (rounds older s)).1

    queue-rounds :
        (older : List (Inputs F)) (s : CycleState F)
        → (rounds older s).queue ≡ requests (length older) s.queue
    unfolding rounds round requests
    queue-rounds [] s = refl
    queue-rounds (i ∷ older) s = rw (queue-rounds older s)

    -- What a round sends for given commands.
    unfoldable pub sent_for : Inputs F → CommandsStruct F → PidArray F → Option MotorsStruct
    unfolding form_motors_struct
    sent_for i c pids = elim (hi_pwm D i.settings (movement D i c pids).0 c.hand) [
      | none ↦ none
      | some hi ↦ some (form_motors_struct hi c.low_pwm)
    ]

    -- Commands arrive, and any number of rounds follows, whatever their settings and sensors:
    -- each of the first 399 sends what these commands ask for, and each later one what the
    -- commands that stand still ask for.
    pub round-rounds :
        (c : CommandsStruct F) (s : CycleState F) (older : List (Inputs F)) (i : Inputs F)
        → (let start : CycleState F = record { queue = add_commands c s.queue; pids = s.pids } in
            (round D i (rounds older start)).0
            ≡ sent_for i
                (if ltb (length older + 1) max_count then c else no_commands)
                (rounds older start).pids)
    unfolding round sent_for
    round-rounds c s older i =
        let start : CycleState F = record { queue = add_commands c s.queue; pids = s.pids } in
        let n = length older in
        ap (λ c. sent_for i c (rounds older start).pids)
          (ap (λ q. (get_commands q).0) (queue-rounds older start)
            ∙ get_commands-add_commands c s.queue n)
