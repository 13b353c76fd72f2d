-- ===== src/Filters/Window.antt =====
-- The filters of src/Lib/Filters against a sliding window of the last values.
use polar_uv_robot.Prelude.{
  ℕ, suc, ◌+◌, ◌*◌, ◌≤◌, ◌<◌, ◌≡◌, ◌∙◌, ap, refl, List, [], ◌∷◌, ◌++◌, arith, length, set, take,
  drop, replicate, ◌%◌, append-nil, append_assoc, length-append, length-drop, length-take,
  Bool-cases, sym, ◌==◌, if◌then◌else◌, length-set, length-replicate, inl, inr,
}
use native.Mathlib.Numerals.{add-one}
use polar_uv_robot.Real.{Real, whole}
use polar_uv_robot.Filters.{Ring, empty_ring, store, store_angle}
use polar_uv_robot.Filters.Circular.{from_index, from_index-set, from_index_wrap}

module _ {ℓ} {R : Type ℓ} where
  -- The values that the ring holds, oldest first.
  abbrev pub window : Ring R → List R
  window r = from_index r.index r.elements

  pub record IsValid (size : ℕ) (r : Ring R) : Type 0 where
    pub full : length r.elements ≡ size
    pub within : r.index ≤ size

  -- The ring with its index wrapped.
  wrap : ℕ → Ring R → Ring R
  wrap size r = record r { index = if r.index == size then 0 else r.index }

  wrap_lem :
      (size : ℕ) (r : Ring R)
      → 0 < size
      → IsValid size r
      → ((wrap size r).index < size) × (window (wrap size r) ≡ window r)
  unfolding wrap
  wrap_lem size r h valid = elim (Bool-cases (r.index == size)) [
    | inl e ↦
        let at : r.index ≡ length r.elements = ground arith in
        rw (e, at) (h, sym (from_index_wrap r.elements))
    | inr e ↦ rw e (ground arith, refl)
  ]

  put : R → Ring R → Ring R
  put v r = record { elements = set r.elements r.index v; index = r.index + 1 }

  put-window :
      (size : ℕ) (v : R) (r : Ring R)
      → IsValid size r
      → r.index < size
      → IsValid size (put v r) × (window (put v r) ≡ drop 1 (window r) ++ (v ∷ []))
  unfolding put
  put-window size v r valid h = (
    record { full = length-set r.elements r.index v ∙ valid.full; within = omega arith },
    rw add-one (from_index-set r.index r.elements v (omega arith)),
  )

  module _ ⦃f : Real R⦄ where
    -- A filter of a positive size never writes outside its array, and holds after each value the
    -- values that it held before without the oldest, and the new one.
    pub store-window :
        (size : ℕ) (v : R) (r : Ring R)
        → 0 < size
        → IsValid size r
        → IsValid size (store size v r) × (window (store size v r) ≡ drop 1 (window r) ++ (v ∷ []))
    unfolding store wrap put
    store-window size v r h valid =
        let (lt, same) = wrap_lem size r h valid in
        let wrapped : IsValid size (wrap size r) = record {
          full = valid.full;
          within = omega arith;
        } in
        let (kept, moved) = put-window size v (wrap size r) wrapped lt in
        (kept, moved ∙ ap (λ w. drop 1 w ++ (v ∷ [])) same)

    -- The ring after a list of values.
    unfoldable pub store_all : ℕ → List R → Ring R → Ring R
    store_all size [] r = r
    store_all size (v ∷ vs) r = store_all size vs (store size v r)

    length-window : (size : ℕ) (r : Ring R) → IsValid size r → length (window r) ≡ size
    length-window size r valid = omega (
      arith,
      length-append (drop r.index r.elements) (take r.index r.elements),
      length-drop r.index r.elements,
      length-take r.index r.elements,
    )

    shift :
        (w : List R) (v : R) (vs : List R)
        → 0 < length w
        → drop (length vs) ((drop 1 w ++ (v ∷ [])) ++ vs) ≡ drop (suc (length vs)) (w ++ (v ∷ vs))
    shift [] v vs h = elim h [ ]
    shift (x ∷ w) v vs h = rw append_assoc

    store_all-window :
        (size : ℕ) (vs : List R) (r : Ring R)
        → 0 < size
        → IsValid size r
        → window (store_all size vs r) ≡ drop (length vs) (window r ++ vs)
    unfolding store_all
    store_all-window size [] r h valid = rw append-nil
    store_all-window size (v ∷ vs) r h valid =
        let (kept, moved) = store-window size v r h valid in
        store_all-window size vs (store size v r) h kept
        ∙ (ap (λ w. drop (length vs) (w ++ vs)) moved
            ∙ shift (window r) v vs (omega (arith, length-window size r valid)))

    -- A new filter of a positive size that was given the values `vs` holds exactly the last `size` of
    -- them, oldest first, with zeros before the first.
    pub store_all-empty_ring :
        (size : ℕ) (vs : List R)
        → 0 < size
        → window (store_all size vs (empty_ring size))
          ≡ drop (length vs) (replicate size (whole 0) ++ vs)
    unfolding empty_ring
    store_all-empty_ring size vs h =
        store_all-window size vs (empty_ring size) h
          (record { full = length-replicate size (whole 0); within = omega arith })
        ∙ ap (λ w. drop (length vs) (w ++ vs)) (append-nil (replicate size (whole 0)))

    -- The pairs of a `CircleMovingAverage` stand at even places.
    pub record IsPaired (size : ℕ) (r : Ring R) : Type 0 where
      pub full : length r.elements ≡ 2 * size
      pub within : r.index ≤ 2 * size
      pub even : r.index % 2 ≡ 0

    -- A `CircleMovingAverage` of a positive size never writes outside its array, and holds after each
    -- angle the cosines and sines that it held before without the oldest pair, and the new pair.
    pub store_angle-window :
        (size : ℕ) (v : R) (r : Ring R)
        → 0 < size
        → IsPaired size r
        → IsPaired size (store_angle size v r)
          × (window (store_angle size v r)
              ≡ drop 1 (drop 1 (window r) ++ (f.cos v ∷ [])) ++ (f.sin v ∷ []))
    unfolding store_angle wrap put
    store_angle-window size v r h valid =
        let double : IsValid (2 * size) r = record { full = valid.full; within = valid.within } in
        let (lt, same) = wrap_lem (2 * size) r (omega arith) double in
        let wrapped : IsValid (2 * size) (wrap (2 * size) r) = record {
          full = valid.full;
          within = omega arith;
        } in
        let even : (wrap (2 * size) r).index % 2 ≡ 0 = ground (arith, valid.even) in
        let (kept, moved) = put-window (2 * size) (f.cos v) (wrap (2 * size) r) wrapped lt in
        let (kept', moved') =
          put-window (2 * size) (f.sin v) (put (f.cos v) (wrap (2 * size) r)) kept (omega arith) in
        (
          record { full = kept'.full; within = kept'.within; even = omega arith },
          moved'
              ∙ ap (λ w. drop 1 w ++ (f.sin v ∷ []))
                  (moved ∙ ap (λ w. drop 1 w ++ (f.cos v ∷ [])) same),
        )
