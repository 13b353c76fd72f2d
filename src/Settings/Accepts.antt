-- ===== src/Settings/Accepts.antt =====
-- src/Robot/Features/RobotSettings/RobotSettings.cpp: which messages of settings take effect, as a test.
use polar_uv_robot.Prelude.{
  ◌+◌, ◌/◌, ◌%◌, ◌≤◌, ◌<◌, ◌≡◌, refl, Bool, true, false, Bool-cases, inl, inr, not, ◌&&◌, List, [],
  ◌∷◌, leb, ◌==◌, length, All, arith,
}
use polar_uv_robot.Real.{Real, whole}
use polar_uv_robot.Settings.{Message}
use polar_uv_robot.Settings.Validation.{InRange, Accepted}

module _ {ℓ} {F : Type ℓ} ⦃f : Real F⦄ where
  unfoldable pub all_in_range : List F → Bool
  all_in_range [] = true
  all_in_range (v ∷ values) = not (f.lt (whole 100) (f.abs v)) && all_in_range values

  all_in_range-All : (vs : List F) → all_in_range vs ≡ true → All InRange vs
  unfolding all_in_range InRange
  all_in_range-All [] h = tt
  all_in_range-All (v ∷ vs) h = elim (Bool-cases (f.lt (whole 100) (f.abs v))) [
    | inl e ↦ ground arith
    | inr e ↦ (e, all_in_range-All vs (ground arith))
  ]

  All-all_in_range : (vs : List F) → All InRange vs → all_in_range vs ≡ true
  unfolding all_in_range InRange
  All-all_in_range [] h = refl
  All-all_in_range (v ∷ vs) (h, hs) = rw (h, All-all_in_range vs hs) refl

  -- The rules of the validation, and the four sets of PID coefficients that `ParseSettings` reads.
  unfoldable pub accepts : Message F → Bool
  unfolding all_in_range
  accepts m =
      let hand = length m.hand_coefficient in
      let thrusters = length m.thrusters_coefficient in
      leb hand 4
      && ((thrusters % 6 == 0)
          && (leb (hand + thrusters / 6) 12
              && (all_in_range m.thrusters_coefficient
                  && (all_in_range m.hand_coefficient && leb 4 (length m.pid)))))

  pub accepts-Accepted : (m : Message F) → accepts m ≡ true → Accepted m × (4 ≤ length m.pid)
  unfolding accepts
  accepts-Accepted m h =
      let thrusters : all_in_range m.thrusters_coefficient ≡ true = ground arith in
      let hand : all_in_range m.hand_coefficient ≡ true = ground arith in
      (
        record {
          hand_fits = grind arith;
          whole_rows = grind arith;
          motors_fit = grind arith;
          thrusters_in_range = all_in_range-All m.thrusters_coefficient thrusters;
          hand_in_range = all_in_range-All m.hand_coefficient hand;
        },
        grind arith,
      )

  pub Accepted-accepts : (m : Message F) → Accepted m → 4 ≤ length m.pid → accepts m ≡ true
  unfolding accepts
  Accepted-accepts m a h =
      let hand = a.hand_fits in
      let rows = a.whole_rows in
      let motors = a.motors_fit in
      let thrusters = All-all_in_range m.thrusters_coefficient a.thrusters_in_range in
      let hands = All-all_in_range m.hand_coefficient a.hand_in_range in ground arith

  pub accepts_not : (m : Message F) → ¬ Accepted m → accepts m ≡ false
  accepts_not m h = elim (Bool-cases (accepts m)) [
    | inl e ↦ absurd (h (accepts-Accepted m e).0)
    | inr e ↦ e
  ]

  pub accepts-short : (m : Message F) → length m.pid < 4 → accepts m ≡ false
  accepts-short m h = elim (Bool-cases (accepts m)) [
    | inl e ↦ let four = (accepts-Accepted m e).1 in absurd (omega arith)
    | inr e ↦ e
  ]
