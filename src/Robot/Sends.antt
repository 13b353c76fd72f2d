-- ===== src/Robot/Sends.antt =====
-- No round of the loop in src/Robot/Features/Commands/CommandsCycle.cpp reads or writes outside its
-- arrays, also where other threads run in the middle of it.
use polar_uv_robot.Prelude.{All, ◌≡◌, refl, List, ap, some}
use polar_uv_robot.Real.{Real, Convert}
use polar_uv_robot.Commands.Motors.{MotorsStruct}
use polar_uv_robot.Robot.{RobotState, Platform}
use polar_uv_robot.Robot.Loop.{
  Point, waiting, has_commands, has_settings, has_orientation, take_commands, finish,
}
use polar_uv_robot.Robot.Model.{Event}
use polar_uv_robot.Network.Buffer.{Zstd}
use polar_uv_robot.Network.Session.{Session}
use polar_uv_robot.Network.Session.Untouched.{Holds}
use polar_uv_robot.Prelude.{length, length-map, ◌∙◌, arith}
use polar_uv_robot.Settings.Motion.{cycle_settings, sized, length-rows}
use polar_uv_robot.Settings.Fit.{Fits}
use polar_uv_robot.Commands.Cycle.{movement, form_motors_struct, word_of}
use polar_uv_robot.Commands.Cycle.Rounds.{sent_for}
use polar_uv_robot.Robot.Loop.{found}
use polar_uv_robot.Robot.Reach.{get_commands-HasSizes}
use polar_uv_robot.Robot.Services.{robot_services, IsReady, robot_services-IsSafe}
use polar_uv_robot.Network.Session.Invariant.{serve_one-Holds}
use polar_uv_robot.Robot.Run.{
  Run, ready, connected, served, has_oriented, has_sounded, commands_taken, settings_taken,
  orientation_taken, finished,
}

module _ {ℓ κ} {F : Type ℓ} {D : Type κ} ⦃f : Real F⦄ ⦃d : Real D⦄ ⦃conv : Convert F D⦄ where
  -- What the loop has taken has the sizes that the rest of the round needs.
  abbrev pub HasTaken : Point F D → Type 0
  HasTaken waiting = Unit
  HasTaken (has_commands dt c) = (length c.hand ≡ 6) × (length c.low_pwm ≡ 4)
  HasTaken (has_settings dt c s) = (length c.hand ≡ 6) × (length c.low_pwm ≡ 4) × Fits s
  HasTaken (has_orientation dt c s b) = (length c.hand ≡ 6) × (length c.low_pwm ≡ 4) × Fits s

  -- If only the values of the other sensor are missing, then the rest of the round sends something: a
  -- value for each of the twelve motors and of the four of low power.
  abbrev pub Sends : Point F D → RobotState F D → Type 0
  Sends (has_orientation dt c settings b) s =
      (sent : MotorsStruct) × ((finish dt c settings b s).0 ≡ some sent)
      × (length sent.hi_pwm ≡ 12)
      × (length sent.low_pwm ≡ 4)
  Sends _ s = Unit

  pub Sends_lem : (at : Point F D) (s : RobotState F D) → HasTaken at → Sends at s
  unfolding finish sent_for cycle_settings form_motors_struct
  Sends_lem waiting s h = tt
  Sends_lem (has_commands dt c) s h = tt
  Sends_lem (has_settings dt c settings) s h = tt
  Sends_lem (has_orientation dt c settings b) s (hand, low, fits) =
      let i = found dt settings b s in
      let (out, sent, twelve) =
        sized D i.settings (movement D i c s.pids).0 c.hand
          (length-rows 12 settings.thrusters_coefficients) (omega arith) (omega arith)
          (omega arith) in
      (
        form_motors_struct out c.low_pwm,
        rw (finish, sent_for, sent) refl,
        length-map out word_of ∙ twelve,
        length-map c.low_pwm word_of ∙ low,
      )

  module _ (p : Platform F) (z : Zstd) where
    abbrev pub IsRunning : Session (RobotState F D) → Type (ℓ ⊔ κ)
    IsRunning = Holds IsReady (robot_services p)

    pub Run-IsRunning :
        {s t : Session (RobotState F D)} {labels : List (Event F D)} {sent : List MotorsStruct}
        {at : Point F D}
        → IsRunning s
        → Run p z s labels sent at t
        → IsRunning t × HasTaken at
    unfolding take_commands finish
    Run-IsRunning h ready = (h, tt)
    Run-IsRunning h (connected k r e) = rw e (Run-IsRunning h r)
    Run-IsRunning h (served r e) =
        let (running, taken) = Run-IsRunning h r in
        (
          rw (← ap (λ o. o.1) e)
              (serve_one-Holds IsReady (robot_services p) (robot_services-IsSafe p) z _ running),
          taken,
        )
    Run-IsRunning h (has_oriented x r e) = rw e (Run-IsRunning h r)
    Run-IsRunning h (has_sounded x r e) = rw e (Run-IsRunning h r)
    Run-IsRunning h (commands_taken dt r e) =
        let (running, taken) = Run-IsRunning h r in
        let (hand, low, sizes) = get_commands-HasSizes _ running.1.1 in
        (rw e (running.0, (running.1.0, sizes)), (hand, low))
    Run-IsRunning h (settings_taken dt c r) =
        let (running, taken) = Run-IsRunning h r in (running, (taken.0, taken.1, running.1.0))
    Run-IsRunning h (orientation_taken dt c settings r) = Run-IsRunning h r
    Run-IsRunning h (finished dt c settings b x r sends e) =
        let (running, taken) = Run-IsRunning h r in (rw e running, tt)

    -- What the robot has sent has a value for each motor.
    pub HasSize-Run :
        {s t : Session (RobotState F D)} {labels : List (Event F D)} {sent : List MotorsStruct}
        {at : Point F D}
        → IsRunning s
        → Run p z s labels sent at t
        → All (λ x. (length x.hi_pwm ≡ 12) × (length x.low_pwm ≡ 4)) sent
    HasSize-Run h ready = tt
    HasSize-Run h (connected k r e) = HasSize-Run h r
    HasSize-Run h (served r e) = HasSize-Run h r
    HasSize-Run h (has_oriented x r e) = HasSize-Run h r
    HasSize-Run h (has_sounded x r e) = HasSize-Run h r
    HasSize-Run h (commands_taken dt r e) = HasSize-Run h r
    HasSize-Run h (settings_taken dt c r) = HasSize-Run h r
    HasSize-Run h (orientation_taken dt c settings r) = HasSize-Run h r
    HasSize-Run h (finished {t = t} dt c settings b x r sends e) =
        let taken = (Run-IsRunning h r).1 in
        let (y, is_y, twelve, four) = Sends_lem (has_orientation dt c settings b) t.state taken in
        let same : y ≡ x = cc in (rw (← same) (twelve, four), HasSize-Run h r)
