-- ===== src/Filters/Tests.antt =====
-- Tests of the filters on whole numbers.
use polar_uv_robot.Prelude.{◌≡◌, [], ◌∷◌, arith}
use polar_uv_robot.Prelude.Int.{ℤ, pos}
use polar_uv_robot.Real.{int_real}
use polar_uv_robot.Filters.{Ring, empty_ring}
use polar_uv_robot.Filters.Window.{window, store_all, store_all-empty_ring}

-- A full ring whose index stands at the end.
abbrev ring : Ring ℤ
ring = record { elements = pos 1 ∷ pos 2 ∷ pos 3 ∷ pos 4 ∷ []; index = 4 }

store_all-empty_ring_example :
    window (store_all 3 (pos 5 ∷ pos 6 ∷ []) (empty_ring 3)) ≡ pos 0 ∷ pos 5 ∷ pos 6 ∷ []
store_all-empty_ring_example = store_all-empty_ring 3 (pos 5 ∷ pos 6 ∷ []) (omega arith)
