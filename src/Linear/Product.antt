-- ===== src/Linear/Product.antt =====
-- The product of matrices of src/Lib/Math/Static/Matrix.hpp, element by element.
use polar_uv_robot.Prelude.{
  ℕ, zero, suc, ◌<◌, ◌≡◌, refl, ap, Option, none, some, List, [], ◌∷◌, map, length, get_elem?,
  get_or, replicate, All, arith,
}
use polar_uv_robot.Prelude.Options.{◌>>=◌}
use polar_uv_robot.Real.{Real, ◌⊕◌, ◌⊗◌, whole}
use polar_uv_robot.Linear.Plain.{add_multiple, row_product, product}

get_elem?-map {ℓ κ} :
    {A : Type ℓ} {B : Type κ} (g : A → B) (xs : List A) (i : ℕ) (x : A)
    → get_elem? xs i ≡ some x
    → get_elem? (map g xs) i ≡ some (g x)
get_elem?-map g [] i x e = cc
get_elem?-map g (y ∷ xs) zero x e = ap (λ o. elim o [ none ↦ none | some a ↦ some (g a) ]) e
get_elem?-map g (y ∷ xs) (suc i) x e = get_elem?-map g xs i x e

get_elem?-replicate {ℓ} :
    {A : Type ℓ} (n k : ℕ) (a : A) → k < n → get_elem? (replicate n a) k ≡ some a
get_elem?-replicate zero k a h = elim h [ ]
get_elem?-replicate (suc n) zero a h = refl
get_elem?-replicate (suc n) (suc k) a h = get_elem?-replicate n k a (omega arith)

module _ {ℓ} {F : Type ℓ} ⦃f : Real F⦄ where
  -- The element of a matrix in row `i` and column `k`.
  abbrev pub entry : List (List F) → ℕ → ℕ → Option F
  entry rows i k = get_elem? rows i >>= λ row. get_elem? row k

  abbrev pub column : ℕ → List (List F) → List F
  column k = map (λ row. get_or row k (whole 0))

  -- The products of two vectors, added up from the first on.
  unfoldable pub sum_products : F → List F → List F → F
  sum_products acc (x ∷ xs) (y ∷ ys) = sum_products (acc ⊕ x ⊗ y) xs ys
  sum_products acc _ _ = acc

  pub length-add_multiple :
      (a : F) (row acc : List F) → length (add_multiple a row acc) ≡ length acc
  unfolding add_multiple
  length-add_multiple a (m ∷ row) (x ∷ acc) = ap suc (length-add_multiple a row acc)
  length-add_multiple a [] acc = refl
  length-add_multiple a (m ∷ row) [] = refl

  get_elem?-add_multiple :
      (a : F) (row acc : List F) (k : ℕ) (x : F)
      → k < length row
      → get_elem? acc k ≡ some x
      → get_elem? (add_multiple a row acc) k ≡ some (x ⊕ a ⊗ get_or row k (whole 0))
  unfolding add_multiple
  get_elem?-add_multiple a [] acc k x h e = elim h [ ]
  get_elem?-add_multiple a (m ∷ row) [] k x h e = cc
  get_elem?-add_multiple a (m ∷ row) (y ∷ acc) zero x h e =
      let same : y ≡ x = ground arith in rw same refl
  get_elem?-add_multiple a (m ∷ row) (y ∷ acc) (suc k) x h e =
      get_elem?-add_multiple a row acc k x (omega arith) e

  get_elem?-row_product :
      (row : List F) (matrix : List (List F)) (acc : List F) (n k : ℕ) (x : F)
      → All (λ r. length r ≡ n) matrix
      → k < n
      → get_elem? acc k ≡ some x
      → get_elem? (row_product row matrix acc) k ≡ some (sum_products x row (column k matrix))
  unfolding row_product sum_products
  get_elem?-row_product (a ∷ row) (m ∷ matrix) acc n k x (h, hs) l e =
      get_elem?-row_product row matrix (add_multiple a m acc) n k (x ⊕ a ⊗ get_or m k (whole 0)) hs
        l (get_elem?-add_multiple a m acc k x (omega arith) e)
  get_elem?-row_product [] matrix acc n k x h l e = e
  get_elem?-row_product (a ∷ row) [] acc n k x h l e = e

  -- For a second matrix whose rows all have `n` elements, the element of the product in row `i` and
  -- column `k` is the sum of the products of that row of the first matrix and that column of the
  -- second, from zero on and in their order, although the loops go through the second matrix row by
  -- row.
  pub entry-product :
      (rows matrix : List (List F)) (row : List F) (n i k : ℕ)
      → All (λ r. length r ≡ n) matrix
      → get_elem? rows i ≡ some row
      → k < n
      → entry (product n rows matrix) i k ≡ some (sum_products (whole 0) row (column k matrix))
  unfolding product
  entry-product rows matrix row n i k h e l =
      let zeros = replicate n (whole 0) in
      rw (get_elem?-map (λ r. row_product r matrix zeros) rows i row e) (
        get_elem?-row_product row matrix zeros n k (whole 0) h l
          (get_elem?-replicate n k (whole 0) l))
