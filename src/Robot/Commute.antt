-- ===== src/Robot/Commute.antt =====
-- What a round has taken already, what happens to it afterwards counts only after the round: the order
-- of the events of src/Robot/Features/Commands/CommandsCycle.cpp in the model.
use polar_uv_robot.Prelude.{
  suc, ◌≡◌, refl, ap, sym, ◌∙◌, Bool, true, false, Option, none, some, List, [], ◌∷◌, ◌++◌,
  append_assoc, All, if◌then◌else◌,
}
use polar_uv_robot.Real.{Real, Convert}
use polar_uv_robot.Robot.Loop.{Point, commands_at, settings_at, orientation_at}
use polar_uv_robot.Robot.Order.{
  SameOrder, same_lists, SameOrder-refl, SameOrder-trans, SameOrder-cons,
}
use polar_uv_robot.Robot.Model.{
  Model, Event, commanded, configured, oriented, sounded, elapsed, happen, output, replay, orders,
  messages, orientations, soundings, times,
}

abbrev pub is_some {ℓ} : {A : Type ℓ} → Option A → Bool
is_some none = false
is_some (some a) = true

-- If there is something, it is `x`.
abbrev pub Holding {ℓ} : {A : Type ℓ} → Option A → A → Type ℓ
Holding none x = Unit
Holding (some a) x = a ≡ x

pub Holding-none {ℓ} : {A : Type ℓ} (o : Option A) (x : A) → is_some o ≡ false → Holding o x
Holding-none none x h = tt
Holding-none (some a) x h = cc

module _ {ℓ κ} {F : Type ℓ} {D : Type κ} where
  -- Whether an event is about something that the round has taken.
  unfoldable pub is_taken : Point F D → Event F D → Bool
  unfolding commands_at settings_at orientation_at
  is_taken p (commanded c) = is_some (commands_at p)
  is_taken p (configured x) = is_some (settings_at p)
  is_taken p (oriented x) = is_some (orientation_at p)
  is_taken p (sounded x) = false
  is_taken p (elapsed dt) = false

  unfoldable pub is_outside : Event F D → Bool
  is_outside (elapsed dt) = false
  is_outside _ = true

module _ {ℓ κ} {F : Type ℓ} {D : Type κ} ⦃f : Real F⦄ ⦃d : Real D⦄ ⦃conv : Convert F D⦄
    (p : Point F D) where
  abbrev pub Taken : List (Event F D) → Type 0
  Taken = All (λ e. is_taken p e ≡ true)

  -- Such an event changes places with one about anything else.
  happen_comm :
      (e g : Event F D) (m : Model F D)
      → is_taken p e ≡ true
      → is_taken p g ≡ false
      → is_outside g ≡ true
      → happen g (happen e m) ≡ happen e (happen g m)
  unfolding happen is_taken is_outside
  happen_comm (commanded c) (commanded c') m h k o = cc
  happen_comm (commanded c) (configured x) m h k o = refl
  happen_comm (commanded c) (oriented x) m h k o = refl
  happen_comm (commanded c) (sounded x) m h k o = refl
  happen_comm (configured c) (commanded x) m h k o = refl
  happen_comm (configured c) (configured x) m h k o = cc
  happen_comm (configured c) (oriented x) m h k o = refl
  happen_comm (configured c) (sounded x) m h k o = refl
  happen_comm (oriented c) (commanded x) m h k o = refl
  happen_comm (oriented c) (configured x) m h k o = refl
  happen_comm (oriented c) (oriented x) m h k o = cc
  happen_comm (oriented c) (sounded x) m h k o = refl
  happen_comm (sounded c) g m h k o = cc
  happen_comm (elapsed c) g m h k o = cc
  happen_comm e (elapsed c) m h k o = cc

  replay_comm :
      (es : List (Event F D)) (g : Event F D) (m : Model F D)
      → Taken es
      → is_taken p g ≡ false
      → is_outside g ≡ true
      → happen g (replay m es).0 ≡ (replay (happen g m) es).0
  unfolding replay
  replay_comm [] g m h k o = refl
  replay_comm (e ∷ es) g m (h, hs) k o =
      happen_comm e g (replay m es).0 h k o ∙ ap (happen e) (replay_comm es g m hs k o)

  -- What such events leave alone.
  pub replay-keeps {μ} :
      {X : Type μ} (view : Model F D → X) (es : List (Event F D)) (m : Model F D)
      → Taken es
      → ((e : Event F D) (m : Model F D) → is_taken p e ≡ true → view (happen e m) ≡ view m)
      → view (replay m es).0 ≡ view m
  unfolding replay
  replay-keeps view [] m h keep = refl
  replay-keeps view (e ∷ es) m (h, hs) keep =
      keep e (replay m es).0 h ∙ replay-keeps view es m hs keep

  pub silent : (es : List (Event F D)) (m : Model F D) → Taken es → (replay m es).1 ≡ []
  unfolding replay output is_taken
  silent [] m h = refl
  silent (commanded c ∷ es) m (h, hs) = silent es m hs
  silent (configured c ∷ es) m (h, hs) = silent es m hs
  silent (oriented c ∷ es) m (h, hs) = silent es m hs
  silent (sounded c ∷ es) m (h, hs) = cc
  silent (elapsed c ∷ es) m (h, hs) = cc

  pub replay-append :
      (xs ys : List (Event F D)) (m : Model F D)
      → replay m (xs ++ ys)
        ≡ ((replay (replay m ys).0 xs).0, (replay (replay m ys).0 xs).1 ++ (replay m ys).1)
  unfolding replay
  replay-append [] ys m = refl
  replay-append (x ∷ xs) ys m =
      rw
        (
          replay-append xs ys m,
          append_assoc (output x (replay (replay m ys).0 xs).0) (replay (replay m ys).0 xs).1
              (replay m ys).1,
        )
        refl

  -- The model when the commands are taken for this round.
  unfoldable pub aged : Model F D → Model F D
  unfolding commands_at
  aged m = record m { age = if is_some (commands_at p) then suc m.age else m.age }

  aged-happen :
      (g : Event F D) (m : Model F D)
      → is_taken p g ≡ false
      → is_outside g ≡ true
      → aged (happen g m) ≡ happen g (aged m)
  unfolding aged happen is_taken is_outside
  aged-happen (commanded c) m k o = rw k refl
  aged-happen (configured x) m k o = refl
  aged-happen (oriented x) m k o = refl
  aged-happen (sounded x) m k o = refl
  aged-happen (elapsed dt) m k o = cc

  -- An event about something that the round has not taken is one before the round.
  pub before_round :
      (es : List (Event F D)) (g : Event F D) (m : Model F D)
      → Taken es
      → is_taken p g ≡ false
      → is_outside g ≡ true
      → happen g (replay (aged m) es).0 ≡ (replay (aged (happen g m)) es).0
  before_round es g m h k o =
      replay_comm es g (aged m) h k o ∙ ap (λ x. (replay x es).0) (sym (aged-happen g m k o))

  swapped :
      (e g : Event F D) (es : List (Event F D))
      → is_taken p e ≡ true
      → is_taken p g ≡ false
      → SameOrder (e ∷ g ∷ es) (g ∷ e ∷ es)
  unfolding orders messages orientations soundings times is_taken
  swapped (commanded c) (commanded c') es h k = cc
  swapped (commanded c) (configured g) es h k = same_lists _ _ refl refl refl refl refl
  swapped (commanded c) (oriented g) es h k = same_lists _ _ refl refl refl refl refl
  swapped (commanded c) (sounded g) es h k = same_lists _ _ refl refl refl refl refl
  swapped (commanded c) (elapsed g) es h k = same_lists _ _ refl refl refl refl refl
  swapped (configured c) (commanded g) es h k = same_lists _ _ refl refl refl refl refl
  swapped (configured c) (configured c') es h k = cc
  swapped (configured c) (oriented g) es h k = same_lists _ _ refl refl refl refl refl
  swapped (configured c) (sounded g) es h k = same_lists _ _ refl refl refl refl refl
  swapped (configured c) (elapsed g) es h k = same_lists _ _ refl refl refl refl refl
  swapped (oriented c) (commanded g) es h k = same_lists _ _ refl refl refl refl refl
  swapped (oriented c) (configured g) es h k = same_lists _ _ refl refl refl refl refl
  swapped (oriented c) (oriented c') es h k = cc
  swapped (oriented c) (sounded g) es h k = same_lists _ _ refl refl refl refl refl
  swapped (oriented c) (elapsed g) es h k = same_lists _ _ refl refl refl refl refl
  swapped (sounded x) g es h k = cc
  swapped (elapsed x) g es h k = cc

  -- Where such events are put last, the events of each kind keep their order.
  pub same_order :
      (es gs : List (Event F D)) (g : Event F D)
      → Taken es
      → is_taken p g ≡ false
      → SameOrder (es ++ g ∷ gs) (g ∷ (es ++ gs))
  same_order [] gs g h k = SameOrder-refl (g ∷ gs)
  same_order (e ∷ es) gs g (h, hs) k =
      SameOrder-trans (e ∷ (es ++ g ∷ gs)) (e ∷ g ∷ (es ++ gs)) (g ∷ e ∷ (es ++ gs))
        (SameOrder-cons e (es ++ g ∷ gs) (g ∷ (es ++ gs)) (same_order es gs g hs k))
        (swapped e g (es ++ gs) h k)
