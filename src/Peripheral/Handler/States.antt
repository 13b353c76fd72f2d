-- ===== src/Peripheral/Handler/States.antt =====
-- What an event does to the contexts of src/Lib/Peripheral/SensorHandler.cpp.
use polar_uv_robot.Prelude.{ℕ, ◌≡◌, ◌≢◌, refl, List, [], ◌∷◌, ◌++◌, arith, All}
use polar_uv_robot.Peripheral.Task.{Body}
use polar_uv_robot.Peripheral.Handler.{SensorContext, tick, dispatch}

module _ {ℓ κ} {P : Type ℓ} {W : Type κ} (body : Body P W) where
  timer-tick : (c : SensorContext P) (w : W) → (tick body c w).0.timer ≡ c.timer
  unfolding tick
  timer-tick c w = ground arith

  -- An event of a timer resumes the sensor with that timer once, and leaves all others as they are.
  pub dispatch_lem :
      (fd : ℕ) (before : List (SensorContext P)) (c : SensorContext P)
      (after : List (SensorContext P)) (w : W)
      → All (λ b. b.timer ≢ fd) before
      → c.timer ≡ fd
      → dispatch body fd (before ++ (c ∷ after)) w
        ≡ (before ++ ((tick body c w).0 ∷ after), (tick body c w).1)
  unfolding dispatch
  dispatch_lem fd [] c after w others e = ground arith
  dispatch_lem fd (b ∷ before) c after w (other, others) e =
      ground (arith, dispatch_lem fd before c after w others e)

  -- An event of a timer that no sensor has changes nothing.
  dispatch_stranger :
      (fd : ℕ) (cs : List (SensorContext P)) (w : W)
      → All (λ b. b.timer ≢ fd) cs
      → dispatch body fd cs w ≡ (cs, w)
  unfolding dispatch
  dispatch_stranger fd [] w others = refl
  dispatch_stranger fd (c ∷ cs) w (other, others) = ground (arith, dispatch_stranger fd cs w others)
