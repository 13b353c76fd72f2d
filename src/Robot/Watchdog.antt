-- ===== src/Robot/Watchdog.antt =====
-- A client that stops sending commands: the counter of src/Robot/Features/Commands/CommandsCycle.hpp,
-- in a robot that goes on running.
use polar_uv_robot.Prelude.{ℕ, zero, suc, ◌+◌, ◌≡◌, refl, ap, ◌∙◌, ltb, if◌then◌else◌}
use polar_uv_robot.Real.{Real, Convert}
use polar_uv_robot.Network.Buffer.{Zstd}
use polar_uv_robot.Network.Session.{Session, set_state}
use polar_uv_robot.Commands.Struct.{CommandsStruct, no_commands}
use polar_uv_robot.Commands.Queue.{
  CommandsQueue, max_count, add_commands, get_commands, requests, get_commands-add_commands,
}
use polar_uv_robot.Commands.Cycle.{round}
use polar_uv_robot.Commands.Cycle.Rounds.{sent_for}
use polar_uv_robot.Robot.{RobotState}
use polar_uv_robot.Robot.Reach.{inputs_of, drive, Step}

module _ {ℓ κ} {F : Type ℓ} {D : Type κ} ⦃f : Real F⦄ ⦃d : Real D⦄ ⦃conv : Convert F D⦄ (z : Zstd)
    (s : Session (RobotState F D)) where
  -- The robot runs on for `n` rounds of the loop. Between them clients connect, requests are served
  -- and the sensors change, as long as none of it brings new commands.
  pub data Quiet : ℕ → Session (RobotState F D) → Type (ℓ ⊔ κ) where
    no_step : Quiet zero s
    driven_on :
        {m : ℕ} {before t : Session (RobotState F D)} (dt : F)
        → Quiet m before
        → t ≡ set_state (drive dt before.state).1 before
        → Quiet (suc m) t
    stepped :
        {n : ℕ} {before t : Session (RobotState F D)}
        → Quiet n before
        → Step z before t
        → t.state.queue ≡ before.state.queue
        → Quiet n t

  queue-Quiet :
      {n : ℕ} {t : Session (RobotState F D)} → Quiet n t → t.state.queue ≡ requests n s.state.queue
  unfolding requests drive round
  queue-Quiet no_step = refl
  queue-Quiet (driven_on dt q e) = rw e (ap (λ c. (get_commands c).1) (queue-Quiet q))
  queue-Quiet (stepped q st e) = e ∙ queue-Quiet q

  -- Commands have come in. After any number of rounds without new ones, whatever else happens between
  -- them, the next round sends what these commands ask for if it is one of the first 399, and else
  -- what the commands that stand still ask for, each time with the settings and sensors of that time.
  pub drive-Quiet :
      (c : CommandsStruct F) (q : CommandsQueue F) (n : ℕ) (t : Session (RobotState F D)) (dt : F)
      → s.state.queue ≡ add_commands c q
      → Quiet n t
      → (drive dt t.state).0
        ≡ sent_for D
            (inputs_of dt t.state)
            (if ltb (n + 1) max_count then c else no_commands)
            t.state.pids
  unfolding drive round sent_for
  drive-Quiet c q n t dt e quiet =
      ap (λ c. sent_for D (inputs_of dt t.state) c t.state.pids)
        (ap (λ q. (get_commands q).0) (queue-Quiet quiet ∙ ap (requests n) e)
          ∙ get_commands-add_commands c q n)
