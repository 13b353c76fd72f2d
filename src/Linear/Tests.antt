-- ===== src/Linear/Tests.antt =====
-- Tests of the loops over lanes on whole numbers.
use polar_uv_robot.Prelude.{◌≡◌, refl, some, List, [], ◌∷◌, suc, arith}
use polar_uv_robot.Prelude.Int.{ℤ, pos, ◌+ℤ◌, ◌*ℤ◌}
use polar_uv_robot.Real.{int_real}
use polar_uv_robot.Linear.{map_simd}
use polar_uv_robot.Linear.Lanes.{map_simd_lem}
use polar_uv_robot.Linear.Plain.{product}
use polar_uv_robot.Linear.Product.{entry, column, sum_products, entry-product}

-- Six elements: one vector of four, and two.
map_simd_lem_example : map_simd suc (1 ∷ 2 ∷ 3 ∷ 4 ∷ 5 ∷ 6 ∷ []) ≡ 2 ∷ 3 ∷ 4 ∷ 5 ∷ 6 ∷ 7 ∷ []
map_simd_lem_example = map_simd_lem suc (1 ∷ 2 ∷ 3 ∷ 4 ∷ 5 ∷ 6 ∷ [])

abbrev rows : List (List ℤ)
rows = (pos 1 ∷ pos 2 ∷ []) ∷ (pos 3 ∷ pos 4 ∷ []) ∷ []

abbrev matrix : List (List ℤ)
matrix = (pos 5 ∷ pos 6 ∷ pos 7 ∷ []) ∷ (pos 8 ∷ pos 9 ∷ pos 0 ∷ []) ∷ []

-- 3 * 6 + 4 * 9
one_entry : sum_products (pos 0) (pos 3 ∷ pos 4 ∷ []) (column 1 matrix) ≡ pos 54
unfolding sum_products ◌+ℤ◌ ◌*ℤ◌
one_entry = refl

entry-product_example :
    entry (product 3 rows matrix) 1 1
    ≡ some (sum_products (pos 0) (pos 3 ∷ pos 4 ∷ []) (column 1 matrix))
entry-product_example =
    entry-product rows matrix (pos 3 ∷ pos 4 ∷ []) 3 1 1 (refl, (refl, tt)) refl (omega arith)
