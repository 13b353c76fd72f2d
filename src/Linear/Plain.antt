-- ===== src/Linear/Plain.antt =====
-- src/Lib/Math/Static: the loops of vectors and matrices of any element type, one element at a time,
-- and the product of two matrices.
use polar_uv_robot.Prelude.{
  ℕ, zero, suc, Option, none, some, List, [], ◌∷◌, map, get_elem?, set, ◌+◌, replicate,
  if◌then◌else◌,
}
use polar_uv_robot.Real.{Real, Convert, ◌⊕◌, ◌⊗◌, ◌⊘◌, whole}
use polar_uv_robot.Linear.{offset}

-- `for (i = 0; i < size; ++i) elements_[i] = op(elements_[i])`
unfoldable pub each {ℓ} : {A : Type ℓ} → (A → A) → List A → List A
each op [] = []
each op (x ∷ xs) = op x ∷ each op xs

-- The constructor from a list takes the first `n` elements; none where there are fewer.
unfoldable pub from_list {ℓ} : {A : Type ℓ} → ℕ → List A → Option (List A)
from_list zero xs = some []
from_list (suc n) [] = none
from_list (suc n) (x ∷ xs) = elim (from_list n xs) [ none ↦ none | some rest ↦ some (x ∷ rest) ]

module _ {ℓ} {F : Type ℓ} ⦃f : Real F⦄ where
  unfoldable pub scale_each : F → List F → List F
  unfolding each
  scale_each value = each (λ x. x ⊗ value)

  -- `operator/=`, which returns nothing where it should return the vector.
  unfoldable pub divide_each : F → List F → List F
  unfolding each
  divide_each value = each (λ x. x ⊘ value)

  unfoldable pub offset_each : F → List F → List F
  unfolding each
  offset_each value = each (λ x. x ⊕ value)

  -- `Matrix::operator+=` of floats: all elements by lanes, and the rest by `rows_[i] += value` for
  -- the indices of the last elements; none where such an index is no row.
  unfoldable pub offset_rows : ℕ → ℕ → F → List (List F) → Option (List (List F))
  unfolding offset
  offset_rows zero i value rows = some rows
  offset_rows (suc n) i value rows =
      let rest = offset_rows n (i + 1) value in
      elim (get_elem? rows i) [ none ↦ none | some row ↦ rest (set rows i (offset value row)) ]

  -- `newMatrix[i][k] += a * matrix[j][k]` for every `k`.
  unfoldable pub add_multiple : F → List F → List F → List F
  add_multiple a (m ∷ row) (x ∷ acc) = (x ⊕ a ⊗ m) ∷ add_multiple a row acc
  add_multiple _ _ acc = acc

  -- The same for every `j`: one row of the product.
  unfoldable pub row_product : List F → List (List F) → List F → List F
  unfolding add_multiple
  row_product (a ∷ row) (m ∷ matrix) acc = row_product row matrix (add_multiple a m acc)
  row_product _ _ acc = acc

  -- The product with a matrix of `columns` columns.
  unfoldable pub product : ℕ → List (List F) → List (List F) → List (List F)
  unfolding row_product
  product columns rows matrix =
      map (λ row. row_product row matrix (replicate columns (whole 0))) rows

  -- `Normalize`, which works in `double`.
  module _ {κ} (D : Type κ) ⦃d : Real D⦄ ⦃conv : Convert F D⦄ where
    unfoldable pub max_abs_each : D → List F → D
    max_abs_each most [] = most
    max_abs_each most (x ∷ xs) =
        let a = conv.widen (f.abs x) in max_abs_each (if d.lt most a then a else most) xs

    unfoldable pub normalize_each : F → List F → List F
    unfolding max_abs_each each
    normalize_each amplitude xs =
        let c = conv.widen amplitude ⊘ max_abs_each (whole 0) xs in
        if d.lt c (whole 1) then each (λ x. conv.narrow (conv.widen x ⊗ c)) xs else xs
