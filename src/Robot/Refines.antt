-- ===== src/Robot/Refines.antt =====
-- The robot as it runs does what its model does: src/Lib/TcpSession/TcpSession.cpp with the services of
-- src/Robot, and the loop of src/Robot/Features/Commands/CommandsCycle.cpp, against Model.
use polar_uv_robot.Prelude.{◌≡◌, refl, true, false, Bool-cases, inl, inr, List, [], ◌∷◌, ◌++◌, ◌++◌}
use polar_uv_robot.Real.{Real, Convert}
use polar_uv_robot.Commands.Queue.{new_queue, add_commands, requests}
use polar_uv_robot.Commands.Motors.{MotorsStruct}
use polar_uv_robot.Robot.{RobotState}
use polar_uv_robot.Robot.Loop.{Point, commands_at, settings_at, orientation_at}
use polar_uv_robot.Robot.Commute.{
  Holding, Holding-none, is_taken, is_outside, Taken, aged, before_round, same_order,
}
use polar_uv_robot.Robot.Order.{SameOrder, SameOrder-cons, SameOrder-trans}
use polar_uv_robot.Robot.Model.{
  Model, Event, commanded, configured, oriented, sounded, happen, output, replay, elapsed, in_force,
}

module _ {ℓ κ} {F : Type ℓ} {D : Type κ} ⦃f : Real F⦄ ⦃d : Real D⦄ ⦃conv : Convert F D⦄ where
  -- The model's view of a state: the counter of requests is the age of the commands, until it wraps.
  pub record Shows (s : RobotState F D) (m : Model F D) : Type (ℓ ⊔ κ) where
    pub settings_shown : s.settings.settings ≡ m.settings
    pub sensors_shown : s.sensors ≡ m.sensors
    pub pids_shown : s.pids ≡ m.pids
    pub queue_shown : s.queue ≡ requests m.age (add_commands m.commands new_queue)

  -- What the loop has taken is what the model has at the time of the round.
  pub record Saved (p : Point F D) (m : Model F D) : Type (ℓ ⊔ κ) where
    pub commands_saved : Holding (commands_at p) (in_force m)
    pub settings_saved : Holding (settings_at p) m.settings
    pub orientation_saved : Holding (orientation_at p) m.sensors.bno055.stored

  Saved-happen :
      (p : Point F D) (e : Event F D) (m : Model F D)
      → is_taken p e ≡ false
      → is_outside e ≡ true
      → Saved p m
      → Saved p (happen e m)
  unfolding happen is_taken is_outside commands_at settings_at orientation_at
  Saved-happen p (commanded c) m k o h = record {
    commands_saved = Holding-none (commands_at p) _ k;
    settings_saved = h.settings_saved;
    orientation_saved = h.orientation_saved;
  }
  Saved-happen p (configured c) m k o h = record {
    commands_saved = h.commands_saved;
    settings_saved = Holding-none (settings_at p) _ k;
    orientation_saved = h.orientation_saved;
  }
  Saved-happen p (oriented c) m k o h = record {
    commands_saved = h.commands_saved;
    settings_saved = h.settings_saved;
    orientation_saved = Holding-none (orientation_at p) _ k;
  }
  Saved-happen p (sounded c) m k o h = record {
    commands_saved = h.commands_saved;
    settings_saved = h.settings_saved;
    orientation_saved = h.orientation_saved;
  }
  Saved-happen p (elapsed c) m k o h = cc

  -- The state is one that the model shows after events, of each kind those of the labels: the events
  -- before the round that the loop is in, by which the model sends these values to the motors, and behind them those that
  -- the round comes too early for.
  pub record Midway (start : Model F D) (p : Point F D) (labels : List (Event F D))
      (sent : List MotorsStruct) (s : RobotState F D) : Type (ℓ ⊔ κ) where
    pub events : List (Event F D)
    pub pending : List (Event F D)
    pub taken : Taken p pending
    pub saved : Saved p (replay start events).0
    pub shown : Shows s (replay (aged p (replay start events).0) pending).0
    pub outputs : (replay start events).1 ≡ sent
    pub ordered : SameOrder (pending ++ events) labels

  quiet : (e : Event F D) (m : Model F D) → is_outside e ≡ true → output e m ≡ []
  unfolding output is_outside
  quiet (elapsed dt) m o = cc
  quiet (commanded c) m o = refl
  quiet (configured c) m o = refl
  quiet (oriented c) m o = refl
  quiet (sounded c) m o = refl

  -- One more event from outside.
  pub insert :
      (start : Model F D) (p : Point F D) (labels : List (Event F D)) (sent : List MotorsStruct)
      (s s' : RobotState F D) (e : Event F D)
      → Midway start p labels sent s
      → is_outside e ≡ true
      → ((m : Model F D) → Shows s m → Shows s' (happen e m))
      → Midway start p (e ∷ labels) sent s'
  unfolding replay
  insert start p labels sent s s' e h o step =
      let m = (replay start h.events).0 in
      let order = SameOrder-cons e (h.pending ++ h.events) labels h.ordered in
      elim (Bool-cases (is_taken p e)) [
        | inl late ↦ record {
          events = h.events;
          pending = e ∷ h.pending;
          taken = (late, h.taken);
          saved = h.saved;
          shown = step _ h.shown;
          outputs = h.outputs;
          ordered = order;
        }
        | inr early ↦ record {
          events = e ∷ h.events;
          pending = h.pending;
          taken = h.taken;
          saved = Saved-happen p e m early o h.saved;
          shown =
              rw (← before_round p h.pending e m h.taken early o)
                (step (replay (aged p m) h.pending).0 h.shown);
          outputs = rw (quiet e m o) h.outputs;
          ordered =
              SameOrder-trans (h.pending ++ e ∷ h.events) (e ∷ (h.pending ++ h.events)) (e ∷ labels)
                (same_order p h.pending h.events e h.taken early) order;
        }
      ]

  -- A change that the model does not show.
  pub same_view :
      (start : Model F D) (p : Point F D) (labels : List (Event F D)) (sent : List MotorsStruct)
      (s s' : RobotState F D)
      → ((m : Model F D) → Shows s m → Shows s' m)
      → Midway start p labels sent s
      → Midway start p labels sent s'
  same_view start p labels sent s s' view h = record {
    events = h.events;
    pending = h.pending;
    taken = h.taken;
    saved = h.saved;
    shown = view _ h.shown;
    outputs = h.outputs;
    ordered = h.ordered;
  }
