-- ===== src/Robot/Rounds.antt =====
-- The steps of a round in src/Robot/Features/Commands/CommandsCycle.cpp against the model: the round of
-- the model is where the loop takes the commands.
use polar_uv_robot.Prelude.{◌≡◌, refl, ap, ◌∙◌, true, false, List, [], ◌∷◌, ◌++◌, arith}
use mathlib.Core.Path.{subst}
use polar_uv_robot.Real.{Real, Convert}
use polar_uv_robot.Settings.{RobotSettingsStruct}
use polar_uv_robot.Commands.Struct.{CommandsStruct}
use polar_uv_robot.Commands.Queue.{new_queue, get_commands, requests, get_commands-add_commands}
use polar_uv_robot.Commands.Pid.{PidArray}
use polar_uv_robot.Commands.Motors.{MotorsStruct}
use polar_uv_robot.Robot.{RobotState}
use polar_uv_robot.Robot.Loop.{
  Point, waiting, has_commands, has_settings, has_orientation, commands_at, settings_at,
  orientation_at, take_commands,
}
use polar_uv_robot.Robot.Model.{
  Model, Event, commanded, configured, oriented, sounded, elapsed, happen, replay,
}
use polar_uv_robot.Robot.Commute.{is_some, is_taken, Taken, aged, replay-keeps}
use polar_uv_robot.Robot.Order.{SameOrder}
use polar_uv_robot.Robot.Refines.{Shows, Midway}

module _ {ℓ κ} {F : Type ℓ} {D : Type κ} ⦃f : Real F⦄ ⦃d : Real D⦄ ⦃conv : Convert F D⦄ where
  none_pending : (es : List (Event F D)) → Taken waiting es → es ≡ []
  unfolding is_taken commands_at settings_at orientation_at
  none_pending [] h = refl
  none_pending (commanded c ∷ es) (h, hs) = cc
  none_pending (configured c ∷ es) (h, hs) = cc
  none_pending (oriented c ∷ es) (h, hs) = cc
  none_pending (sounded c ∷ es) (h, hs) = cc
  none_pending (elapsed c ∷ es) (h, hs) = cc

  Taken-later :
      (p q : Point F D)
      → ((e : Event F D) → is_taken p e ≡ true → is_taken q e ≡ true)
      → (es : List (Event F D)) → Taken p es
      → Taken q es
  Taken-later p q more [] h = tt
  Taken-later p q more (e ∷ es) (h, hs) = (more e h, Taken-later p q more es hs)

  module _ (p : Point F D) where
    keeps_settings :
        is_some (settings_at p) ≡ false
        → (e : Event F D) (m : Model F D) → is_taken p e ≡ true
        → (happen e m).settings ≡ m.settings
    unfolding happen is_taken
    keeps_settings n (commanded c) m k = refl
    keeps_settings n (configured c) m k = cc
    keeps_settings n (oriented c) m k = refl
    keeps_settings n (sounded c) m k = refl
    keeps_settings n (elapsed c) m k = refl

    keeps_orientation :
        is_some (orientation_at p) ≡ false
        → (e : Event F D) (m : Model F D) → is_taken p e ≡ true
        → (happen e m).sensors.bno055 ≡ m.sensors.bno055
    unfolding happen is_taken
    keeps_orientation n (commanded c) m k = refl
    keeps_orientation n (configured c) m k = refl
    keeps_orientation n (oriented c) m k = cc
    keeps_orientation n (sounded c) m k = refl
    keeps_orientation n (elapsed c) m k = refl

    pub keeps_depth :
        (e : Event F D) (m : Model F D)
        → is_taken p e ≡ true
        → (happen e m).sensors.ms5837 ≡ m.sensors.ms5837
    unfolding happen is_taken
    keeps_depth (sounded c) m k = cc
    keeps_depth (commanded c) m k = refl
    keeps_depth (configured c) m k = refl
    keeps_depth (oriented c) m k = refl
    keeps_depth (elapsed c) m k = refl

    pub keeps_pids :
        (e : Event F D) (m : Model F D) → is_taken p e ≡ true → (happen e m).pids ≡ m.pids
    unfolding happen is_taken
    keeps_pids (elapsed c) m k = cc
    keeps_pids (commanded c) m k = refl
    keeps_pids (configured c) m k = refl
    keeps_pids (oriented c) m k = refl
    keeps_pids (sounded c) m k = refl

  -- The regulators are not touched by what is pending.
  pub replay-pids :
      (p : Point F D) (es : List (Event F D)) (m : Model F D) (pids : PidArray F)
      → Taken p es
      → (replay (record m { pids = pids }) es).0 ≡ record (replay m es).0 { pids = pids }
  unfolding replay happen is_taken
  replay-pids p [] m pids h = refl
  replay-pids p (commanded c ∷ es) m pids (h, hs) =
      ap (happen (commanded c)) (replay-pids p es m pids hs)
  replay-pids p (configured c ∷ es) m pids (h, hs) =
      ap (happen (configured c)) (replay-pids p es m pids hs)
  replay-pids p (oriented c ∷ es) m pids (h, hs) =
      ap (happen (oriented c)) (replay-pids p es m pids hs)
  replay-pids p (sounded c ∷ es) m pids (h, hs) = cc
  replay-pids p (elapsed c ∷ es) m pids (h, hs) = cc

  module _ (start : Model F D) (labels : List (Event F D)) (sent : List MotorsStruct)
      (s : RobotState F D) (dt : F) where
    pub take_commands-Midway :
        Midway start waiting labels sent s
        → (let (p, s') = take_commands dt s in Midway start p labels sent s')
    unfolding take_commands aged requests commands_at settings_at orientation_at replay
    take_commands-Midway h =
        let m = (replay start h.events).0 in
        let e = none_pending h.pending h.taken in
        let v : Shows s m = subst (λ es. Shows s (replay (aged waiting m) es).0) e h.shown in
        let o : SameOrder h.events labels =
          subst (λ es. SameOrder (es ++ h.events) labels) e h.ordered in
        record {
          events = h.events;
          pending = [];
          taken = tt;
          saved = record {
            commands_saved =
                ap (λ q. (get_commands q).0) v.queue_shown
                ∙ get_commands-add_commands m.commands new_queue m.age;
            settings_saved = tt;
            orientation_saved = tt;
          };
          shown = record {
            settings_shown = v.settings_shown;
            sensors_shown = v.sensors_shown;
            pids_shown = v.pids_shown;
            queue_shown = ap (λ q. (get_commands q).1) v.queue_shown;
          };
          outputs = h.outputs;
          ordered = o;
        }

    pub take_settings-Midway :
        (c : CommandsStruct F)
        → Midway start (has_commands dt c) labels sent s
        → Midway start (has_settings dt c s.settings.settings) labels sent s
    unfolding aged is_taken commands_at settings_at orientation_at
    take_settings-Midway c h =
        let p : Point F D = has_commands dt c in
        let q : Point F D = has_settings dt c s.settings.settings in
        let m = (replay start h.events).0 in
        record {
          events = h.events;
          pending = h.pending;
          taken = Taken-later p q (λ e k. ground arith) h.pending h.taken;
          saved = record {
            commands_saved = h.saved.commands_saved;
            settings_saved =
                h.shown.settings_shown
                ∙ replay-keeps p (λ m. m.settings) h.pending (aged p m) h.taken
                    (keeps_settings p refl);
            orientation_saved = tt;
          };
          shown = h.shown;
          outputs = h.outputs;
          ordered = h.ordered;
        }

    pub take_orientation-Midway :
        (c : CommandsStruct F) (settings : RobotSettingsStruct F)
        → Midway start (has_settings dt c settings) labels sent s
        → Midway start (has_orientation dt c settings s.sensors.bno055.stored) labels sent s
    unfolding aged is_taken commands_at settings_at orientation_at
    take_orientation-Midway c settings h =
        let p : Point F D = has_settings dt c settings in
        let q : Point F D = has_orientation dt c settings s.sensors.bno055.stored in
        let m = (replay start h.events).0 in
        record {
          events = h.events;
          pending = h.pending;
          taken = Taken-later p q (λ e k. ground arith) h.pending h.taken;
          saved = record {
            commands_saved = h.saved.commands_saved;
            settings_saved = h.saved.settings_saved;
            orientation_saved =
                ap (λ x. x.bno055.stored) h.shown.sensors_shown
                ∙ ap (λ x. x.stored)
                    (replay-keeps p (λ m. m.sensors.bno055) h.pending (aged p m) h.taken
                      (keeps_orientation p refl));
          };
          shown = h.shown;
          outputs = h.outputs;
          ordered = h.ordered;
        }
