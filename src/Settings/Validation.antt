-- ===== src/Settings/Validation.antt =====
-- src/Robot/Features/RobotSettings/RobotSettings.cpp: what a message that passes `WriteValidate` makes
-- sure of.
use polar_uv_robot.Prelude.{
  ◌+◌, ◌/◌, ◌%◌, ◌≤◌, ◌≡◌, ◌⊎◌, inl, inr, refl, ap, true, false, Bool-cases, some, List, [], ◌∷◌,
  ◌++◌, append_assoc, ltb, ◌==◌, length, length-append, set, replicate, take, drop, All, arith,
}
use polar_uv_robot.Real.{Real, whole}
use polar_uv_robot.Network.Exceptions.{Exception}
use polar_uv_robot.Network.Exec.{returned, thrown}
use polar_uv_robot.Settings.{
  PidMessage, Message, RobotSettingsStruct, SettingsState, copy_from, read_pids, no_settings,
  parse_settings, check_coefficients, validate, bad_coefficient, bad_hand, bad_matrix, bad_motors,
}

module _ {ℓ} {A : Type ℓ} where
  set-at :
      (pre array : List A) (a v : A)
      → set (pre ++ a ∷ array) (length pre) v ≡ (pre ++ v ∷ []) ++ array
  set-at [] array a v = refl
  set-at (p ∷ pre) array a v = ap (λ xs. p ∷ xs) (set-at pre array a v)

  length-snoc : (pre : List A) (v : A) → length (pre ++ v ∷ []) ≡ length pre + 1
  length-snoc pre v = length-append pre (v ∷ [])

  -- Where the values fit, copying them replaces as many elements.
  copy_from-append :
      (pre values array : List A)
      → length values ≤ length array
      → copy_from (length pre) values (pre ++ array)
        ≡ some (pre ++ (values ++ drop (length values) array))
  unfolding copy_from
  copy_from-append pre [] array h = refl
  copy_from-append pre (v ∷ values) [] h = elim h [ ]
  copy_from-append pre (v ∷ values) (a ∷ array) h =
      let e : ltb (length pre) (length (pre ++ a ∷ array)) ≡ true =
        grind (arith, length-append pre (a ∷ array)) in
      let snoc = pre ++ v ∷ [] in
      rw (
        e,
        set-at pre array a v,
        ← length-snoc pre v,
        copy_from-append snoc values array (omega arith),
        append_assoc pre (v ∷ []) (values ++ drop (length values) array),
      )

  copy_from_lem :
      (values array : List A)
      → length values ≤ length array
      → copy_from 0 values array ≡ some (values ++ drop (length values) array)
  copy_from_lem values array h = copy_from-append [] values array h

module _ {ℓ} {F : Type ℓ} ⦃f : Real F⦄ where
  unfoldable pub InRange : F → Type 0
  InRange v = f.lt (whole 100) (f.abs v) ≡ false

  -- The rules for a message, without their order.
  pub record Accepted (m : Message F) : Type ℓ where
    pub hand_fits : length m.hand_coefficient ≤ 4
    pub whole_rows : length m.thrusters_coefficient % 6 ≡ 0
    pub motors_fit : length m.hand_coefficient + length m.thrusters_coefficient / 6 ≤ 12
    pub thrusters_in_range : All InRange m.thrusters_coefficient
    pub hand_in_range : All InRange m.hand_coefficient

  check_coefficients_lem :
      (vs : List F) (s : SettingsState F)
      → (All InRange vs × (check_coefficients vs s ≡ (returned tt, s)))
        ⊎ (¬ All InRange vs × ((e : Exception) × (check_coefficients vs s ≡ (thrown e, s))))
  unfolding check_coefficients InRange
  check_coefficients_lem [] s = inl (tt, refl)
  check_coefficients_lem (v ∷ vs) s = elim (Bool-cases (f.lt (whole 100) (f.abs v))) [
    | inl e ↦ inr (λ h. grind (arith, h.0, e), (bad_coefficient, rw e))
    | inr e ↦ elim (check_coefficients_lem vs s) [
      | inl h ↦ inl ((e, h.0), rw (e, h.1))
      | inr h ↦ inr (λ k. h.0 k.1, (h.1.0, rw (e, h.1.1)))
    ]
  ]

  -- `WriteValidate` decides the rules, for every message: it returns exactly where all of them
  -- hold, and throws where one does not. It never changes the service.
  pub validate_lem :
      (m : Message F) (s : SettingsState F)
      → (Accepted m × (validate m s ≡ (returned true, s)))
        ⊎ (¬ Accepted m × ((e : Exception) × (validate m s ≡ (thrown e, s))))
  unfolding validate
  validate_lem m s =
      let hand = length m.hand_coefficient in
      let thrusters = length m.thrusters_coefficient in
      elim (Bool-cases (ltb 4 hand)) [
        | inl e ↦ inr (λ a. grind (arith, a.hand_fits), (bad_hand, rw e))
        | inr e ↦ elim (Bool-cases (thrusters % 6 == 0)) [
          | inr e2 ↦ inr (λ a. grind (arith, a.whole_rows), (bad_matrix, rw (e, e2)))
          | inl e2 ↦ elim (Bool-cases (ltb 12 (hand + thrusters / 6))) [
            | inl e3 ↦ inr (λ a. grind (arith, a.motors_fit), (bad_motors, rw (e, e2, e3)))
            | inr e3 ↦ elim (check_coefficients_lem m.thrusters_coefficient s) [
              | inr h ↦ inr (λ a. h.0 a.thrusters_in_range, (h.1.0, rw (e, e2, e3, h.1.1)))
              | inl h ↦ elim (check_coefficients_lem m.hand_coefficient s) [
                | inr k ↦ inr (λ a. k.0 a.hand_in_range, (k.1.0, rw (e, e2, e3, h.1, k.1.1)))
                | inl k ↦ inl (
                  record {
                    hand_fits = grind arith;
                    whole_rows = grind arith;
                    motors_fit = grind arith;
                    thrusters_in_range = h.0;
                    hand_in_range = k.0;
                  },
                  rw (e, e2, e3, h.1, k.1),
                )
              ]
            ]
          ]
        ]
      ]

  read_pids_lem :
      (pids : List (PidMessage F)) → 4 ≤ length pids → read_pids 4 0 pids ≡ some (take 4 pids)
  unfolding read_pids
  read_pids_lem (a ∷ b ∷ c ∷ d ∷ pids) h = refl
  read_pids_lem [] h = elim h [ ]
  read_pids_lem (a ∷ []) h = absurd (omega arith)
  read_pids_lem (a ∷ b ∷ []) h = absurd (omega arith)
  read_pids_lem (a ∷ b ∷ c ∷ []) h = absurd (omega arith)

  -- The settings of a message: its coefficients first, and zeros behind them.
  unfoldable pub settings_of : Message F → RobotSettingsStruct F
  settings_of m = record {
    thrusters_coefficients =
        m.thrusters_coefficient ++ drop (length m.thrusters_coefficient) (replicate 72 (whole 0));
    hand_coefficients =
        m.hand_coefficient ++ drop (length m.hand_coefficient) (replicate 6 (whole 0));
    thrusters_number = length m.thrusters_coefficient / 6;
    hand_freedom = length m.hand_coefficient;
    pid_coefficients = take 4 m.pid;
    pid_enabled = m.pid_enabled;
  }

  -- If a message passes the validation and has at least four sets of PID coefficients, no index of
  -- `ParseSettings` leaves its array, and the settings are the message's coefficients with zeros behind
  -- them.
  pub parse_settings-Accepted :
      (m : Message F) → Accepted m → 4 ≤ length m.pid → parse_settings m ≡ some (settings_of m)
  unfolding parse_settings settings_of no_settings
  parse_settings-Accepted m a h =
      let hand = a.hand_fits in
      let rows = a.motors_fit in
      let all = a.whole_rows in
      rw (
        copy_from_lem m.hand_coefficient (replicate 6 (whole 0)) (omega arith),
        copy_from_lem m.thrusters_coefficient (replicate 72 (whole 0)) (omega arith),
        read_pids_lem m.pid h,
      )
