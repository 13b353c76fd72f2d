-- ===== src/Peripheral/Handler.antt =====
-- src/Lib/Peripheral/SensorHandler.cpp: the contexts of the sensors and the loop over timer events.
pub mod States
use polar_uv_robot.Prelude.{
  ℕ, suc, Bool, true, false, Option, none, some, List, [], ◌∷◌, ◌++◌, ◌==◌, if◌then◌else◌,
}
use polar_uv_robot.Peripheral.Task.{Nanoseconds, Body, Task, new_task, sleep_for_ms, call}

pub data State : Type 0 where
  online offline : State

-- `SensorContext`. The timer is its descriptor and the time that it was last set to.
pub record SensorContext {ℓ} (P : Type ℓ) : Type ℓ where
  pub read_data : Task P
  pub init : Task P
  pub timer : ℕ
  pub armed : Nanoseconds
  pub state : State

-- The constructor, with the points where the two coroutines start.
unfoldable pub new_context {ℓ} : {P : Type ℓ} → P → P → ℕ → SensorContext P
unfolding sleep_for_ms
new_context init read_data fd = record {
  read_data = new_task read_data;
  init = new_task init;
  timer = fd;
  armed = sleep_for_ms 10;
  state = online;
}

module _ {ℓ} {P : Type ℓ} where
  -- `RegisterSensor`; `tracked` is whether `epoll_ctl` took the timer.
  unfoldable pub register_sensor :
      Bool → SensorContext P → List (SensorContext P) → Bool × List (SensorContext P)
  register_sensor tracked c sensors =
      if tracked then (true, sensors ++ (c ∷ [])) else (false, sensors)

module _ {ℓ κ} {P : Type ℓ} {W : Type κ} (body : Body P W) where
  -- The `switch` over the state of a context.
  unfoldable pub tick_online : SensorContext P → W → SensorContext P × W
  unfolding call
  tick_online c w =
      let ((time, is_online), task, w') = call body true c.read_data w in
      (
        record c { read_data = task; armed = time; state = if is_online then c.state else offline },
        w',
      )

  unfoldable pub tick_offline : SensorContext P → W → SensorContext P × W
  unfolding call
  tick_offline c w =
      let ((time, is_online), task, w') = call body false c.init w in
      (record c { init = task; armed = time; state = if is_online then online else c.state }, w')

  unfoldable pub tick : SensorContext P → W → SensorContext P × W
  unfolding tick_online tick_offline
  tick c w = elim c.state [ online ↦ tick_online c w | offline ↦ tick_offline c w ]

  -- One event: the first context with that timer; none is passed over.
  unfoldable pub dispatch : ℕ → List (SensorContext P) → W → List (SensorContext P) × W
  unfolding tick
  dispatch fd [] w = ([], w)
  dispatch fd (c ∷ cs) w =
      let (c', w') = tick c w in
      let (rest, w'') = dispatch fd cs w in if c.timer == fd then (c' ∷ cs, w') else (c ∷ rest, w'')

  -- The `for` loop over the events that `epoll_wait` reported.
  unfoldable pub dispatch_all : List ℕ → List (SensorContext P) → W → List (SensorContext P) × W
  unfolding dispatch
  dispatch_all [] cs w = (cs, w)
  dispatch_all (fd ∷ fds) cs w = let (cs', w') = dispatch fd cs w in dispatch_all fds cs' w'

  -- `Start`, over the results of `epoll_wait` in turn until it is told to stop; a time-out or an error
  -- gives no events.
  unfoldable pub start : List (List ℕ) → List (SensorContext P) → W → List (SensorContext P) × W
  unfolding dispatch_all
  start [] cs w = (cs, w)
  start (fds ∷ rounds) cs w = let (cs', w') = dispatch_all fds cs w in start rounds cs' w'
