-- ===== src/Commands/Stabilization/Depth.antt =====
-- src/Robot/Features/Commands/Stabilization.hpp: the classes `AngleStabilization` and
-- `DepthStabilization`.
use polar_uv_robot.Prelude.{
  ◌≡◌, refl, Bool, true, false, not, ◌&&◌, List, [], ◌∷◌, ◌==◌, if◌then◌else◌, arith,
}
use polar_uv_robot.Real.{Real, ◌⊕◌, ◌⊗◌, whole}
use polar_uv_robot.Commands.Struct.{SensorsStruct}

-- `ArrayType<3>`
pub record Triple {ℓ} (F : Type ℓ) : Type ℓ where
  pub t0 : F
  pub t1 : F
  pub t2 : F

-- `AngleStabilization`; its factor `kv_` is 1.
pub record AngleStabilization {ℓ} (F : Type ℓ) : Type ℓ where
  pub setting : Triple F
  pub old_angle : Triple F

pub record DepthStabilization {ℓ} (F : Type ℓ) : Type ℓ where
  pub depth : F
  pub is_stopped : Bool

module _ {ℓ} {F : Type ℓ} ⦃f : Real F⦄ where
  unfoldable pub update_angle :
      F → Triple F → AngleStabilization F → Triple F × AngleStabilization F
  update_angle dt velocity a =
      let s = a.setting in
      let next : Triple F = record {
        t0 = s.t0 ⊕ velocity.t0 ⊗ dt ⊗ whole 1;
        t1 = s.t1 ⊕ velocity.t1 ⊗ dt ⊗ whole 1;
        t2 = s.t2 ⊕ velocity.t2 ⊗ dt ⊗ whole 1;
      } in
      (next, record { setting = next; old_angle = s })

  unfoldable pub reset_angle : SensorsStruct F → AngleStabilization F → AngleStabilization F
  reset_angle sensors a =
      let r = sensors.rotation in
      record { setting = record { t0 = r.e0; t1 = r.e1; t2 = r.e2 }; old_angle = a.old_angle }

  -- `std::ranges::all_of`: every element is zero in hundredths.
  unfoldable pub is_stop : List F → Bool
  is_stop [] = true
  is_stop (x ∷ move) = (f.to_size (f.abs (f.round (x ⊗ whole 100))) == 0) && is_stop move

  -- `std::exchange` is evaluated only where the robot stops.
  unfoldable pub update_depth :
      List F → SensorsStruct F → DepthStabilization F → F × DepthStabilization F
  unfolding is_stop
  update_depth move sensors s =
      let stop = is_stop move in
      let update = stop && not s.is_stopped in
      let depth = if update then sensors.depth else s.depth in
      (depth, record { depth = depth; is_stopped = if stop then stop else s.is_stopped })

  unfoldable pub reset_depth : SensorsStruct F → DepthStabilization F → DepthStabilization F
  reset_depth sensors s = record { depth = sensors.depth; is_stopped = false }

  -- The state after updates, the newest first.
  unfoldable pub updates :
      List (List F × SensorsStruct F) → DepthStabilization F → DepthStabilization F
  unfolding update_depth
  updates [] s = s
  updates ((move, sensors) ∷ older) s =
      let before = updates older s in (update_depth move sensors before).1

  -- The depth to hold: that of the first stop, or the one before.
  unfoldable pub first_stop : List (List F × SensorsStruct F) → F → Bool × F
  unfolding is_stop
  first_stop [] depth = (false, depth)
  first_stop ((move, sensors) ∷ older) depth =
      let (stopped, held) = first_stop older depth in
      if stopped
      then (true, held)
      else if is_stop move
      then (true, sensors.depth)
      else (false, held)

  updates-first_stop :
      (older : List (List F × SensorsStruct F)) (sensors : SensorsStruct F)
      (s : DepthStabilization F)
      → let after = updates older (reset_depth sensors s) in
        (after.is_stopped, after.depth) ≡ first_stop older sensors.depth
  unfolding updates reset_depth first_stop update_depth
  updates-first_stop [] sensors s = refl
  updates-first_stop ((move, now) ∷ older) sensors s =
      let ih = updates-first_stop older sensors s in ground arith

  -- After a reset and any updates, however often the robot moves and stops again, the depth that is
  -- held is the one measured at the first stop since the reset: a later stop does not renew it.
  pub update_depth-first_stop :
      (move : List F) (now : SensorsStruct F) (older : List (List F × SensorsStruct F))
      (sensors : SensorsStruct F) (s : DepthStabilization F)
      → (update_depth move now (updates older (reset_depth sensors s))).0
        ≡ (first_stop ((move, now) ∷ older) sensors.depth).1
  unfolding update_depth first_stop
  update_depth-first_stop move now older sensors s =
      let e = updates-first_stop older sensors s in ground arith
