-- ===== src/Robot/Finish.antt =====
-- The end of a round in src/Robot/Features/Commands/CommandsCycle.cpp: what it sends is what the model
-- sends.
use polar_uv_robot.Prelude.{◌≡◌, refl, ap, sym, ◌∙◌, none, some, List, [], ◌∷◌, ◌++◌}
use mathlib.Core.Path.{subst}
use polar_uv_robot.Real.{Real, Convert}
use polar_uv_robot.Settings.{RobotSettingsStruct}
use polar_uv_robot.Settings.Motion.{cycle_settings}
use polar_uv_robot.Peripheral.Bno055.{Data}
use polar_uv_robot.Sensors.{get_sensors_struct}
use polar_uv_robot.Commands.Struct.{CommandsStruct}
use polar_uv_robot.Commands.Pid.{PidArray}
use polar_uv_robot.Commands.Motors.{MotorsStruct}
use polar_uv_robot.Commands.Cycle.{Inputs, movement}
use polar_uv_robot.Commands.Cycle.Rounds.{sent_for}
use polar_uv_robot.Robot.{RobotState}
use polar_uv_robot.Robot.Loop.{
  Point, waiting, has_orientation, commands_at, settings_at, orientation_at, found, finish,
}
use polar_uv_robot.Robot.Order.{SameOrder-cons, SameOrder-trans}
use polar_uv_robot.Robot.Model.{
  Model, Event, elapsed, inputs, in_force, control, happen, output, replay,
}
use polar_uv_robot.Robot.Commute.{is_taken, aged, replay-keeps, silent, replay-append, same_order}
use polar_uv_robot.Robot.Refines.{Shows, Midway}
use polar_uv_robot.Robot.Rounds.{keeps_depth, keeps_pids, replay-pids}

output_elapsed {ℓ κ} :
    {F : Type ℓ} {D : Type κ} ⦃f : Real F⦄ ⦃d : Real D⦄ ⦃conv : Convert F D⦄ (m : Model F D)
    (dt : F) (x : MotorsStruct)
    → control dt m ≡ some x
    → output (elapsed dt) m ≡ x ∷ []
unfolding output
output_elapsed m dt x e = ap (λ o. elim o [ none ↦ [] | some y ↦ y ∷ [] ]) e

module _ {ℓ κ} {F : Type ℓ} {D : Type κ} ⦃f : Real F⦄ ⦃d : Real D⦄ ⦃conv : Convert F D⦄
    (start : Model F D) (labels : List (Event F D)) (sent : List MotorsStruct) (s : RobotState F D)
    (dt : F) (c : CommandsStruct F) (settings : RobotSettingsStruct F) (b : Data D)
    (h : Midway start (has_orientation dt c settings b) labels sent s) where
  abbrev here : Point F D
  here = has_orientation dt c settings b

  -- The model before the round.
  abbrev before : Model F D
  before = (replay start h.events).0

  -- What the end of the round computes from is what the model computes from.
  seen {μ} :
      {X : Type μ} (g : Inputs F → CommandsStruct F → PidArray F → X)
      → g (found dt settings b s) c s.pids ≡ g (inputs dt before) (in_force before) before.pids
  unfolding found get_sensors_struct aged commands_at settings_at orientation_at
  seen g =
      let depth : s.sensors.ms5837 ≡ before.sensors.ms5837 =
        ap (λ x. x.ms5837) h.shown.sensors_shown
        ∙ replay-keeps here (λ m. m.sensors.ms5837) h.pending (aged here before) h.taken
            (keeps_depth here) in
      let pids : s.pids ≡ before.pids =
        h.shown.pids_shown
        ∙ replay-keeps here (λ m. m.pids) h.pending (aged here before) h.taken (keeps_pids here) in
      let bno : b ≡ before.sensors.bno055.stored = h.saved.orientation_saved in
      λ i.
        g
          (record {
            dt = dt;
            settings = cycle_settings (h.saved.settings_saved i);
            sensors = get_sensors_struct (record {
              bno055 = record { stored = bno i; filters = s.sensors.bno055.filters };
              ms5837 = depth i;
            });
          })
          (h.saved.commands_saved i) (pids i)

  finish-control : (finish dt c settings b s).0 ≡ control dt before
  unfolding finish control
  finish-control = seen (λ i c pids. sent_for D i c pids)

  finish-Shows :
      Shows (finish dt c settings b s).1 (replay (happen (elapsed dt) before) h.pending).0
  unfolding finish happen aged commands_at
  finish-Shows =
      let v = h.shown in
      let next = (movement D (inputs dt before) (in_force before) before.pids).1 in
      rw (replay-pids here h.pending (aged here before) next h.taken) (record {
        settings_shown = v.settings_shown;
        sensors_shown = v.sensors_shown;
        pids_shown = seen (λ i c pids. (movement D i c pids).1);
        queue_shown = v.queue_shown;
      })

  -- The round is over, and so what was pending has happened.
  pub finish-Midway :
      (x : MotorsStruct)
      → (finish dt c settings b s).0 ≡ some x
      → Midway start waiting (elapsed dt ∷ labels) (x ∷ sent) (finish dt c settings b s).1
  unfolding aged replay commands_at settings_at orientation_at is_taken
  finish-Midway x e =
      let es = h.pending ++ elapsed dt ∷ h.events in
      let split = replay-append here h.pending (elapsed dt ∷ h.events) start in
      let m = happen (elapsed dt) before in
      let none_sent = silent here h.pending m h.taken in
      let one_sent = output_elapsed before dt x (sym finish-control ∙ e) in
      record {
        events = es;
        pending = [];
        taken = tt;
        saved = record { commands_saved = tt; settings_saved = tt; orientation_saved = tt };
        shown = subst (λ o. Shows (finish dt c settings b s).1 o.0) (sym split) finish-Shows;
        outputs =
            ap (λ o. o.1) split
            ∙ ap (λ xs. xs ++ (output (elapsed dt) before ++ (replay start h.events).1)) none_sent
            ∙ ap (λ xs. xs ++ (replay start h.events).1) one_sent
            ∙ ap (λ xs. x ∷ xs) h.outputs;
        ordered =
            SameOrder-trans es (elapsed dt ∷ (h.pending ++ h.events)) (elapsed dt ∷ labels)
              (same_order here h.pending h.events (elapsed dt) h.taken refl)
              (SameOrder-cons (elapsed dt) (h.pending ++ h.events) labels h.ordered);
      }
