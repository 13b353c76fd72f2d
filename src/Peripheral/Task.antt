-- ===== src/Peripheral/Task.antt =====
-- src/Lib/Peripheral/PeripheralHandler/Coruitine.hpp and the timers of src/Lib/Schedular/Event.hpp: a
-- coroutine runs from the point where it is suspended to its next `co_await`, and leaves there how
-- long it wants to sleep. `co_yield` sets a flag and does not suspend.
use polar_uv_robot.Prelude.{ℕ, ◌*◌, Bool, false}

-- `itimerspec`, with the seconds and the interval always zero: the nanoseconds.
abbrev pub Nanoseconds : Type 0
Nanoseconds = ℕ

unfoldable pub sleep_for_us : ℕ → Nanoseconds
sleep_for_us us = us * 1000

unfoldable pub sleep_for_ms : ℕ → Nanoseconds
sleep_for_ms ms = ms * 1000 * 1000

-- Where a resumption ended: the point of suspension, `timespec_` and `isActive` of the promise, and
-- the world.
pub record Suspended {ℓ κ} (P : Type ℓ) (W : Type κ) : Type (ℓ ⊔ κ) where
  pub point : P
  pub timespec : Nanoseconds
  pub is_active : Bool
  pub world : W

-- A coroutine, as what it does from a point of suspension on, given `isActive`.
abbrev pub Body {ℓ κ} : Type ℓ → Type κ → Type (ℓ ⊔ κ)
Body P W = P → Bool → W → Suspended P W

-- `SensorTask`
pub record Task {ℓ} (P : Type ℓ) : Type ℓ where
  pub point : P
  pub timespec : Nanoseconds
  pub is_active : Bool

abbrev pub new_task {ℓ} : {P : Type ℓ} → P → Task P
new_task p = record { point = p; timespec = 0; is_active = false }

module _ {ℓ κ} {P : Type ℓ} {W : Type κ} where
  -- `operator()`: the time and the flag that the coroutine left, which is then set anew. No coroutine
  -- of the sensors ever returns, so `done()` is false.
  unfoldable pub call : Body P W → Bool → Task P → W → (Nanoseconds × Bool) × Task P × W
  call body flag t w =
      let s = body t.point t.is_active w in
      (
        (s.timespec, s.is_active),
        record { point = s.point; timespec = s.timespec; is_active = flag },
        s.world,
      )
