-- ===== src/Filters.antt =====
-- src/Lib/Filters: the moving averages that smooth what the sensors report, and a group of them. A
-- filter keeps its last values in an array that is written in a circle.
pub mod Circular
pub mod Window
mod Tests
use polar_uv_robot.Prelude.{
  ℕ, ◌+◌, ◌*◌, Bool, Option, none, some, List, [], ◌∷◌, ◌==◌, if◌then◌else◌, get_elem?, set,
  replicate,
}
use polar_uv_robot.Real.{Real, ◌⊕◌, ◌⊖◌, ◌⊗◌, ◌⊘◌, whole}

-- `_elements` and `_index` of either filter.
pub record Ring {ℓ} (R : Type ℓ) : Type ℓ where
  pub elements : List R
  pub index : ℕ

module _ {ℓ} {R : Type ℓ} ⦃f : Real R⦄ where
  unfoldable pub empty_ring : ℕ → Ring R
  empty_ring size = record { elements = replicate size (whole 0); index = 0 }

  -- `MovingAverage<size>::Filter`: the write.
  unfoldable pub store : ℕ → R → Ring R → Ring R
  store size value r =
      let i = if r.index == size then 0 else r.index in
      record { elements = set r.elements i value; index = i + 1 }

  -- The sum: `vaddvq_f64` adds the two lanes of a vector, and an odd last element is added alone.
  unfoldable pub sum_lanes : R → List R → R
  sum_lanes acc [] = acc
  sum_lanes acc (a ∷ []) = acc ⊕ a
  sum_lanes acc (a ∷ b ∷ xs) = sum_lanes (acc ⊕ (a ⊕ b)) xs

  unfoldable pub moving_average : ℕ → R → Ring R → R × Ring R
  unfolding store sum_lanes
  moving_average size value r =
      let r' = store size value r in (sum_lanes (whole 0) r'.elements ⊘ whole size, r')

  -- `CircleMovingAverage<size>::Filter`: a cosine and a sine for each angle.
  unfoldable pub store_angle : ℕ → R → Ring R → Ring R
  store_angle size value r =
      let i = if r.index == 2 * size then 0 else r.index in
      record {
        elements = set (set r.elements i (f.cos value)) (i + 1) (f.sin value);
        index = i + 1 + 1;
      }

  -- `vaddq_f64` adds the cosines and the sines apart.
  unfoldable pub sum_angles : R × R → List R → R × R
  sum_angles acc [] = acc
  sum_angles acc (c ∷ []) = acc
  sum_angles (x, y) (c ∷ s ∷ xs) = sum_angles (c ⊕ x, s ⊕ y) xs

  unfoldable pub circle_moving_average : R → ℕ → R → Ring R → R × Ring R
  unfolding store_angle sum_angles
  circle_moving_average pi size value r =
      let r' = store_angle size value r in
      let (c, s) = sum_angles (whole 0, whole 0) r'.elements in
      let x = c ⊘ whole size in
      let y = s ⊘ whole size in
      (
        if f.lt (whole 0) y
            then f.acos x
            else if f.lt y (whole 0)
            then whole 2 ⊗ pi ⊖ f.acos x
            else whole 0,
        r',
      )

-- The classes that derive from `IFilter`, with their sizes.
pub data Filter {ℓ} (R : Type ℓ) : Type ℓ where
  nothing : Filter R
  moving : ℕ → Ring R → Filter R
  circle : ℕ → Ring R → Filter R

module _ {ℓ} {R : Type ℓ} ⦃f : Real R⦄ where
  unfoldable pub new_moving : ℕ → Filter R
  unfolding empty_ring
  new_moving size = moving size (empty_ring size)

  unfoldable pub new_circle : ℕ → Filter R
  unfolding empty_ring
  new_circle size = circle size (empty_ring (2 * size))

  -- `IFilter::operator()`
  unfoldable pub filter_value : R → Filter R → R → R × Filter R
  unfolding moving_average circle_moving_average
  filter_value pi nothing value = (value, nothing)
  filter_value pi (moving size r) value =
      let (out, r') = moving_average size value r in (out, moving size r')
  filter_value pi (circle size r) value =
      let (out, r') = circle_moving_average pi size value r in (out, circle size r')

  -- `FiltersGroup::operator[]` and the call of the filter. Out of range is undefined behaviour, which
  -- the sensors rule out: they index groups of a fixed size by constants.
  unfoldable pub filter_at : R → ℕ → R → List (Filter R) → R × List (Filter R)
  unfolding filter_value
  filter_at pi i value group = elim (get_elem? group i) [
    | none ↦ (value, group)
    | some x ↦ let (out, x') = filter_value pi x value in (out, set group i x')
  ]
