-- ===== src/Robot/Order.antt =====
-- The events of each kind, and their order: what src/Robot/Features/Commands/CommandsCycle.cpp does not mix
-- up.
use polar_uv_robot.Prelude.{◌≡◌, refl, ap, ◌∙◌, List, ◌∷◌}
use polar_uv_robot.Real.{Real, Convert}
use polar_uv_robot.Robot.Model.{
  Event, commanded, configured, oriented, sounded, elapsed, orders, messages, orientations,
  soundings, times,
}

module _ {ℓ κ} {F : Type ℓ} {D : Type κ} ⦃f : Real F⦄ ⦃d : Real D⦄ ⦃conv : Convert F D⦄ where
  -- Two lists have the same events of each kind, in the same order.
  pub record SameOrder (es gs : List (Event F D)) : Type (ℓ ⊔ κ) where
    pub same_orders : orders es ≡ orders gs
    pub same_messages : messages es ≡ messages gs
    pub same_orientations : orientations es ≡ orientations gs
    pub same_soundings : soundings es ≡ soundings gs
    pub same_times : times es ≡ times gs

  pub same_lists :
      (es gs : List (Event F D))
      → orders es ≡ orders gs
      → messages es ≡ messages gs
      → orientations es ≡ orientations gs
      → soundings es ≡ soundings gs
      → times es ≡ times gs
      → SameOrder es gs
  same_lists es gs a b c d e = record {
    same_orders = a;
    same_messages = b;
    same_orientations = c;
    same_soundings = d;
    same_times = e;
  }

  pub SameOrder-refl : (es : List (Event F D)) → SameOrder es es
  SameOrder-refl es = same_lists es es refl refl refl refl refl

  pub SameOrder-trans :
      (es fs gs : List (Event F D)) → SameOrder es fs → SameOrder fs gs → SameOrder es gs
  SameOrder-trans es fs gs h k =
      same_lists es gs (h.same_orders ∙ k.same_orders) (h.same_messages ∙ k.same_messages)
        (h.same_orientations ∙ k.same_orientations) (h.same_soundings ∙ k.same_soundings)
        (h.same_times ∙ k.same_times)

  pub SameOrder-cons :
      (e : Event F D) (es gs : List (Event F D)) → SameOrder es gs → SameOrder (e ∷ es) (e ∷ gs)
  unfolding orders messages orientations soundings times
  SameOrder-cons (commanded c) es gs h =
      same_lists _ _ (ap (λ xs. c ∷ xs) h.same_orders) h.same_messages h.same_orientations
        h.same_soundings h.same_times
  SameOrder-cons (configured m) es gs h =
      same_lists _ _ h.same_orders (ap (λ xs. m ∷ xs) h.same_messages) h.same_orientations
        h.same_soundings h.same_times
  SameOrder-cons (oriented x) es gs h =
      same_lists _ _ h.same_orders h.same_messages (ap (λ xs. x ∷ xs) h.same_orientations)
        h.same_soundings h.same_times
  SameOrder-cons (sounded x) es gs h =
      same_lists _ _ h.same_orders h.same_messages h.same_orientations
        (ap (λ xs. x ∷ xs) h.same_soundings) h.same_times
  SameOrder-cons (elapsed dt) es gs h =
      same_lists _ _ h.same_orders h.same_messages h.same_orientations h.same_soundings
        (ap (λ xs. dt ∷ xs) h.same_times)
