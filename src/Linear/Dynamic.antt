-- ===== src/Linear/Dynamic.antt =====
-- src/Lib/Math/Vector.hpp and src/Lib/Math/Matrix.hpp: vectors and matrices whose sizes are known when
-- the program runs. Copying, and moving a vector, name a member that the class does not have or assign
-- to constants, and so cannot be compiled; they and what returns a vector are left out.
use mathlib.Core.Path.{subst}
use polar_uv_robot.Prelude.{
  ℕ, zero, suc, ◌+◌, ◌*◌, ◌%◌, ◌^◌, ◌≡◌, ◌∙◌, refl, ap, true, Option, none, some, List, [], ◌∷◌,
  ◌++◌, ltb, ◌==◌, if◌then◌else◌, length, take, drop, set, replicate, length-replicate, take-append,
  drop-append, arith,
}
use polar_uv_robot.Prelude.Int.{ℤ}
use polar_uv_robot.Real.{Real, Convert, ◌⊕◌, ◌⊗◌, ◌⊘◌, whole}
use polar_uv_robot.Linear.Plain.{
  each, from_list, add_multiple, row_product, product, normalize_each,
}
use polar_uv_robot.Linear.Product.{length-add_multiple}

-- `Vector`, with its size that of the list.
pub record Vector {ℓ} (F : Type ℓ) : Type ℓ where
  pub elements : List F

-- `Matrix`, with its elements row after row.
pub record Matrix {ℓ} (F : Type ℓ) : Type ℓ where
  pub elements : List F
  pub row : ℕ
  pub column : ℕ

module _ {ℓ} {F : Type ℓ} ⦃f : Real F⦄ where
  unfoldable pub new_vector : ℕ → Vector F
  new_vector size = record { elements = replicate size (whole 0) }

  unfoldable pub vector_of : List F → Vector F
  vector_of list = record { elements = list }

  -- `operator=` of an array; none where the array is shorter.
  unfoldable pub assign_vector : List F → Vector F → Option (Vector F)
  unfolding from_list
  assign_vector array v = elim (from_list (length v.elements) array) [
    | none ↦ none
    | some xs ↦ some (record { elements = xs })
  ]

  unfoldable pub scale_vector : F → Vector F → Vector F
  unfolding each
  scale_vector value v = record { elements = each (λ x. x ⊗ value) v.elements }

  -- `operator/=`, which returns nothing where it should return the vector.
  unfoldable pub divide_vector : F → Vector F → Vector F
  unfolding each
  divide_vector value v = record { elements = each (λ x. x ⊘ value) v.elements }

  unfoldable pub offset_vector : F → Vector F → Vector F
  unfolding each
  offset_vector value v = record { elements = each (λ x. x ⊕ value) v.elements }

  unfoldable pub normalize_vector {κ} :
      (D : Type κ) ⦃d : Real D⦄ ⦃conv : Convert F D⦄ → F → Vector F → Vector F
  unfolding normalize_each
  normalize_vector D amplitude v = record { elements = normalize_each D amplitude v.elements }

  -- `FillArray`: from `i` on, each element as a word of 16 bits; none where the array ends before.
  unfoldable pub fill_from : ℕ → List F → List ℕ → Option (List ℕ)
  fill_from i [] array = some array
  fill_from i (x ∷ xs) array =
      let rest = fill_from (i + 1) xs (set array i (f.to_size x % 2 ^ 16)) in
      if ltb i (length array) then rest else none

  unfoldable pub fill_array : Vector F → List ℕ → ℕ → Option (List ℕ)
  unfolding fill_from
  fill_array v array at = fill_from at v.elements array

  unfoldable pub new_matrix : ℕ → ℕ → Matrix F
  new_matrix row column = record {
    elements = replicate (row * column) (whole 0);
    row = row;
    column = column;
  }

  -- The pointers that `operator[]` returns, for `n` rows from the first on: each row's elements.
  unfoldable pub rows_from : ℕ → ℕ → List F → List (List F)
  rows_from zero column xs = []
  rows_from (suc n) column xs = take column xs ∷ rows_from n column (drop column xs)

  unfoldable pub rows_of : Matrix F → List (List F)
  unfolding rows_from
  rows_of m = rows_from m.row m.column m.elements

  unfoldable pub assign_matrix : List F → Matrix F → Option (Matrix F)
  unfolding from_list
  assign_matrix array m = elim (from_list (m.row * m.column) array) [
    | none ↦ none
    | some xs ↦ some (record m { elements = xs })
  ]

  unfoldable pub scale_matrix : ℤ → Matrix F → Matrix F
  unfolding each
  scale_matrix value m = record m { elements = each (λ x. x ⊗ f.of_int value) m.elements }

  unfoldable pub divide_matrix : ℤ → Matrix F → Matrix F
  unfolding each
  divide_matrix value m = record m { elements = each (λ x. x ⊘ f.of_int value) m.elements }

  -- The loops of the product: the elements of the new matrix, row after row.
  unfoldable pub product_rows : ℕ → List (List F) → List (List F) → List F
  unfolding row_product
  product_rows columns [] matrix = []
  product_rows columns (row ∷ rows) matrix =
      row_product row matrix (replicate columns (whole 0)) ++ product_rows columns rows matrix

  -- `operator*` of two matrices; an empty one where their sizes do not fit.
  unfoldable pub multiply : Matrix F → Matrix F → Matrix F
  unfolding rows_of product_rows new_matrix
  multiply m matrix =
      if m.column == matrix.row
      then (record {
        elements = product_rows matrix.column (rows_of m) (rows_of matrix);
        row = m.row;
        column = matrix.column;
      })
      else new_matrix 0 0

  length-row_product :
      (row : List F) (matrix : List (List F)) (acc : List F)
      → length (row_product row matrix acc) ≡ length acc
  unfolding row_product
  length-row_product (a ∷ row) (m ∷ matrix) acc =
      length-row_product row matrix (add_multiple a m acc) ∙ length-add_multiple a m acc
  length-row_product [] matrix acc = refl
  length-row_product (a ∷ row) [] acc = refl

  length-rows_from : (n column : ℕ) (xs : List F) → length (rows_from n column xs) ≡ n
  unfolding rows_from
  length-rows_from zero column xs = refl
  length-rows_from (suc n) column xs = ap suc (length-rows_from n column (drop column xs))

  rows_from-product_rows :
      (columns : ℕ) (rows matrix : List (List F))
      → rows_from (length rows) columns (product_rows columns rows matrix)
        ≡ product columns rows matrix
  unfolding rows_from product_rows product
  rows_from-product_rows columns [] matrix = refl
  rows_from-product_rows columns (row ∷ rows) matrix =
      let first = row_product row matrix (replicate columns (whole 0)) in
      let rest = product_rows columns rows matrix in
      let size : length first ≡ columns =
        length-row_product row matrix (replicate columns (whole 0))
        ∙ length-replicate columns (whole 0) in
      let e1 : take columns (first ++ rest) ≡ first =
        subst (λ n. take n (first ++ rest) ≡ first) size (take-append first rest) in
      let e2 : drop columns (first ++ rest) ≡ rest =
        subst (λ n. drop n (first ++ rest) ≡ rest) size (drop-append first rest) in
      rw (e1, e2, rows_from-product_rows columns rows matrix) refl

  -- Where the sizes fit, the product of two such matrices has the rows of the product of matrices of a
  -- static size.
  pub rows_of-multiply :
      (m matrix : Matrix F)
      → m.column ≡ matrix.row
      → rows_of (multiply m matrix) ≡ product matrix.column (rows_of m) (rows_of matrix)
  unfolding rows_of multiply
  rows_of-multiply m matrix h =
      let fits : (m.column == matrix.row) ≡ true = grind arith in
      let columns = matrix.column in
      let all = length-rows_from m.row m.column m.elements in
      rw (multiply, fits)
        (subst
          (λ n.
            rows_from n columns (product_rows columns (rows_of m) (rows_of matrix))
            ≡ product columns (rows_of m) (rows_of matrix))
          all (rows_from-product_rows columns (rows_of m) (rows_of matrix)))
