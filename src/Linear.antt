-- ===== src/Linear.antt =====
-- src/Lib/Math/Static and src/Lib/Math/TypeTraits.hpp: vectors and matrices of a static size, with
-- loops that take four lanes at a time. A vector is the list of its elements.
pub mod Lanes
pub mod Plain
pub mod Product
pub mod Dynamic
mod Tests
use polar_uv_robot.Prelude.{
  ℕ, zero, suc, ◌+◌, ◌-◌, ◌*◌, ◌/◌, ◌%◌, ◌^◌, Bool, Option, none, some, List, [], ◌∷◌, map, ltb,
  ◌==◌, if◌then◌else◌, length, get_elem?, set, replicate,
}
use polar_uv_robot.Real.{Real, Convert, ◌⊕◌, ◌⊗◌, ◌⊘◌, whole}

-- `GetIterationCount<float>` and `GetAlignment<float>`; a float has four bytes.
unfoldable pub get_iteration_count : ℕ → ℕ
get_iteration_count size = size * 4 / 16

unfoldable pub get_alignment : ℕ → ℕ
get_alignment size = size * 4 % 16 / 4

module _ {ℓ} {A : Type ℓ} where
  -- `for (i = 0; i < count; ++i) array[i] = op(array[i])` over vectors of four lanes.
  unfoldable pub map_lanes : ℕ → (A → A) → List A → List A
  map_lanes (suc n) op (a ∷ b ∷ c ∷ d ∷ xs) = op a ∷ op b ∷ op c ∷ op d ∷ map_lanes n op xs
  map_lanes _ op xs = xs

  -- `for (i = from; i < size; ++i) elements_[i] = op(elements_[i])`
  unfoldable pub map_from : ℕ → (A → A) → List A → List A
  map_from _ op [] = []
  map_from zero op (x ∷ xs) = op x ∷ map_from zero op xs
  map_from (suc n) op (x ∷ xs) = x ∷ map_from n op xs

  -- Both loops, one behind the other.
  unfoldable pub map_simd : (A → A) → List A → List A
  unfolding map_lanes map_from get_iteration_count get_alignment
  map_simd op xs =
      let size = length xs in
      let lanes = map_lanes (get_iteration_count size) op xs in
      if get_alignment size == 0 then lanes else map_from (size - get_alignment size) op lanes

module _ {ℓ} {F : Type ℓ} ⦃f : Real F⦄ where
  -- `operator*=` and `operator+=` of a vector of floats.
  unfoldable pub scale : F → List F → List F
  unfolding map_simd
  scale value = map_simd (λ x. x ⊗ value)

  unfoldable pub offset : F → List F → List F
  unfolding map_simd
  offset value = map_simd (λ x. x ⊕ value)

  -- `operator*` of a row and a column: `vaddvq_f32` adds the lanes in pairs, and the rest is added one
  -- by one.
  unfoldable pub dot_from : ℕ → F → List F → List F → F
  dot_from (suc n) acc (a ∷ b ∷ c ∷ d ∷ xs) (a' ∷ b' ∷ c' ∷ d' ∷ ys) =
      dot_from n (acc ⊕ (a ⊗ a' ⊕ b ⊗ b' ⊕ (c ⊗ c' ⊕ d ⊗ d'))) xs ys
  dot_from zero acc (x ∷ xs) (y ∷ ys) = dot_from zero (acc ⊕ x ⊗ y) xs ys
  dot_from _ acc xs ys = acc

  unfoldable pub dot : List F → List F → F
  unfolding dot_from get_iteration_count
  dot l r = dot_from (get_iteration_count (length l)) (whole 0) l r

  -- `Matrix::operator*` with a column; a matrix is the list of its rows.
  unfoldable pub apply : List (List F) → List F → List F
  unfolding dot
  apply rows v = map (λ row. dot row v) rows

  -- `Matrix::operator*=`: all elements by lanes, and the rest by `rows_[i] *= value` for the indices
  -- of the last elements; none where such an index is no row.
  unfoldable pub scale_rows : ℕ → ℕ → F → List (List F) → Option (List (List F))
  unfolding scale
  scale_rows zero i value rows = some rows
  scale_rows (suc n) i value rows =
      let rest = scale_rows n (i + 1) value in
      elim (get_elem? rows i) [ none ↦ none | some row ↦ rest (set rows i (scale value row)) ]

  -- The largest absolute value, in `double`, by lanes and then one by one.
  module _ {κ} (D : Type κ) ⦃d : Real D⦄ ⦃conv : Convert F D⦄ where
    unfoldable pub larger : D → F → D
    larger most x = if d.lt most (conv.widen x) then conv.widen x else most

    unfoldable pub max_abs_from : ℕ → D → List F → D
    unfolding larger
    max_abs_from (suc n) most (a ∷ b ∷ c ∷ e ∷ xs) =
        max_abs_from n
          (larger most (f.maxnm (f.maxnm (f.abs a) (f.abs b)) (f.maxnm (f.abs c) (f.abs e)))) xs
    max_abs_from zero most (x ∷ xs) = max_abs_from zero (larger most (f.abs x)) xs
    max_abs_from _ most xs = most

    unfoldable pub max_abs : List F → D
    unfolding max_abs_from get_iteration_count
    max_abs xs = max_abs_from (get_iteration_count (length xs)) (whole 0) xs

    unfoldable pub coefficient : F → List F → F
    unfolding max_abs
    coefficient amplitude xs = conv.narrow (conv.widen amplitude ⊘ max_abs xs)

    -- `Normalize` of a vector of floats.
    unfoldable pub normalize : F → List F → List F
    unfolding coefficient map_simd
    normalize amplitude xs =
        let c = coefficient amplitude xs in
        if f.le (whole 1) c then xs else map_simd (λ x. x ⊗ c) xs
