-- ===== src/Commands/Pid/History.antt =====
-- src/Robot/Features/Commands/PID.hpp: each axis of the regulator against a description that looks
-- only at the history of the errors.
use polar_uv_robot.Prelude.{◌≡◌, refl, ap, ◌∙◌, List, [], ◌∷◌, Bool, true, false, if◌then◌else◌}
use polar_uv_robot.Real.{Real, ◌⊕◌, ◌⊖◌, ◌⊗◌, ◌⊘◌, whole}
use polar_uv_robot.Commands.Pid.{
  Quad, PidArray, lanewise, same, add_p, add_i, add_d, calculate, set_coefficients, reset, new_pid,
}

-- The four axes, in the order of the lanes.
pub data Axis : Type 0 where
  x_axis : Axis
  y_axis : Axis
  z_axis : Axis
  h_axis : Axis

unfoldable pub at {ℓ} : {F : Type ℓ} → Axis → Quad F → F
at x_axis q = q.e0
at y_axis q = q.e1
at z_axis q = q.e2
at h_axis q = q.e3

pub record Sample {ℓ} (F : Type ℓ) : Type ℓ where
  pub kp : Quad F
  pub ki : Quad F
  pub kd : Quad F
  pub dt : F
  pub errors : Quad F

-- What happens to the regulator: the loop asks it for values, or resets it.
pub data Event {ℓ} (F : Type ℓ) : Type ℓ where
  measured : Sample F → Event F
  cleared : Event F

module _ {ℓ} {F : Type ℓ} ⦃f : Real F⦄ where
  unfoldable pub ask : Sample F → PidArray F → Quad F × PidArray F
  unfolding calculate set_coefficients
  ask s a = calculate s.dt s.errors (set_coefficients s.kp s.ki s.kd a)

  -- The regulator after a history, whose newest event is first.
  unfoldable pub after : List (Event F) → PidArray F
  unfolding ask reset new_pid
  after [] = new_pid
  after (measured s ∷ older) = (ask s (after older)).1
  after (cleared ∷ older) = reset (after older)

  -- The description: the sum of the weighted errors since the last reset,
  unfoldable pub integral : Axis → List (Event F) → F
  unfolding at
  integral a [] = whole 0
  integral a (measured s ∷ older) = integral a older ⊕ at a s.ki ⊗ (s.dt ⊗ at a s.errors)
  integral a (cleared ∷ older) = whole 0

  -- the error before,
  unfoldable pub previous : Axis → List (Event F) → F
  unfolding at
  previous a [] = whole 0
  previous a (measured s ∷ older) = at a s.errors
  previous a (cleared ∷ older) = whole 0

  -- and the slope at the last time that the error of the third axis did not fall.
  unfoldable pub slope : Axis → List (Event F) → F
  unfolding at previous
  slope a [] = whole 0
  slope a (measured s ∷ older) =
      let old = slope a older in
      if f.lt (previous z_axis older ⊖ s.errors.e2) (f.lit 1 1000000)
      then at a s.kd ⊗ ((at a s.errors ⊖ previous a older) ⊘ s.dt)
      else old
  slope a (cleared ∷ older) = slope a older

  -- Each lane of the three sums.
  at_output :
      (a : Axis) (kp e is v : Quad F)
      → at a (
          lanewise f.add
            (lanewise f.add (lanewise f.add (same (whole 0)) (lanewise f.mul kp e)) is)
            v)
        ≡ whole 0 ⊕ at a kp ⊗ at a e ⊕ at a is ⊕ at a v
  unfolding at lanewise same
  at_output x_axis kp e is v = refl
  at_output y_axis kp e is v = refl
  at_output z_axis kp e is v = refl
  at_output h_axis kp e is v = refl

  at_is :
      (a : Axis) (dt : F) (k e is : Quad F)
      → at a (lanewise f.add is (lanewise f.mul k (lanewise f.mul (same dt) e)))
        ≡ at a is ⊕ at a k ⊗ (dt ⊗ at a e)
  unfolding at lanewise same
  at_is x_axis dt k e is = refl
  at_is y_axis dt k e is = refl
  at_is z_axis dt k e is = refl
  at_is h_axis dt k e is = refl

  at_fresh :
      (a : Axis) (dt : F) (k e p : Quad F)
      → at a (lanewise f.mul k (lanewise f.div (lanewise f.sub e p) (same dt)))
        ≡ at a k ⊗ ((at a e ⊖ at a p) ⊘ dt)
  unfolding at lanewise same
  at_fresh x_axis dt k e p = refl
  at_fresh y_axis dt k e p = refl
  at_fresh z_axis dt k e p = refl
  at_fresh h_axis dt k e p = refl

  at-same : (a : Axis) (x : F) → at a (same x) ≡ x
  unfolding at same
  at-same x_axis x = refl
  at-same y_axis x = refl
  at-same z_axis x = refl
  at-same h_axis x = refl

  at-if :
      (a : Axis) (b : Bool) (p q : Quad F)
      → at a (if b then p else q) ≡ (if b then at a p else at a q)
  at-if a true p q = refl
  at-if a false p q = refl

  at_values :
      (a : Axis) (b : Bool) (dt : F) (k e p v : Quad F)
      → at a (if b then lanewise f.mul k (lanewise f.div (lanewise f.sub e p) (same dt)) else v)
        ≡ (if b then at a k ⊗ ((at a e ⊖ at a p) ⊘ dt) else at a v)
  at_values a b dt k e p v =
      at-if a b (lanewise f.mul k (lanewise f.div (lanewise f.sub e p) (same dt))) v
      ∙ ap (λ x. if b then x else at a v) (at_fresh a dt k e p)

  at-after-is : (a : Axis) (es : List (Event F)) → at a (after es).i_array.is ≡ integral a es
  unfolding after integral ask calculate set_coefficients add_i reset new_pid
  at-after-is a [] = at-same a (whole 0)
  at-after-is a (measured s ∷ older) =
      let before = after older in
      at_is a s.dt s.ki s.errors before.i_array.is
      ∙ ap (λ x. x ⊕ at a s.ki ⊗ (s.dt ⊗ at a s.errors)) (at-after-is a older)
  at-after-is a (cleared ∷ older) = at-same a (whole 0)

  at-after-prev_errors :
      (a : Axis) (es : List (Event F)) → at a (after es).d_array.prev_errors ≡ previous a es
  unfolding after previous ask calculate set_coefficients add_d reset new_pid
  at-after-prev_errors a [] = at-same a (whole 0)
  at-after-prev_errors a (measured s ∷ older) = refl
  at-after-prev_errors a (cleared ∷ older) = at-same a (whole 0)

  -- The condition reads the third axis.
  third : (es : List (Event F)) → (after es).d_array.prev_errors.e2 ≡ previous z_axis es
  unfolding at
  third es = at-after-prev_errors z_axis es

  at-after-values : (a : Axis) (es : List (Event F)) → at a (after es).d_array.values ≡ slope a es
  unfolding after slope ask calculate set_coefficients add_d reset new_pid
  at-after-values a [] = at-same a (whole 0)
  at-after-values a (measured s ∷ older) =
      let d = (after older).d_array in
      at_values a (f.lt (d.prev_errors.e2 ⊖ s.errors.e2) (f.lit 1 1000000)) s.dt s.kd s.errors
        d.prev_errors d.values
      ∙ rw (third older, at-after-prev_errors a older, at-after-values a older)
  at-after-values a (cleared ∷ older) = at-after-values a older

  -- After every history of requests and resets, with any coefficients at each of them, the value
  -- of each axis is the sum of the proportional term, of the integral since the last reset and of
  -- the slope that was taken at the last request at which the error of the third axis did not
  -- fall.
  pub ask-after :
      (a : Axis) (es : List (Event F)) (s : Sample F)
      → at a (ask s (after es)).0
        ≡ whole 0
          ⊕ at a s.kp ⊗ at a s.errors
          ⊕ integral a (measured s ∷ es)
          ⊕ slope a (measured s ∷ es)
  unfolding ask calculate set_coefficients add_p add_i add_d after
  ask-after a es s =
      let next = measured s ∷ es in
      let now = after next in
      at_output a s.kp s.errors now.i_array.is now.d_array.values
      ∙ rw (at-after-is a next, at-after-values a next)
