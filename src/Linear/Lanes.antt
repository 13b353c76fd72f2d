-- ===== src/Linear/Lanes.antt =====
-- The loops over lanes of src/Lib/Math/Static are the plain element-wise ones.
use polar_uv_robot.Prelude.{
  ℕ, zero, suc, ◌+◌, ◌-◌, ◌*◌, ◌≤◌, ◌≡◌, refl, ap, List, [], ◌∷◌, map, arith, length, length-map,
  ◌==◌, if◌then◌else◌, Bool-cases, inl, inr,
}
use polar_uv_robot.Real.{Real, Convert, ◌⊗◌, whole}
use polar_uv_robot.Linear.{
  get_iteration_count, get_alignment, map_lanes, map_from, map_simd, coefficient, normalize,
}

-- Four lanes for each round, and the rest.
iterations : (size : ℕ) → 4 * get_iteration_count size + get_alignment size ≡ size
unfolding get_iteration_count get_alignment
iterations size = omega arith

module _ {ℓ} {A : Type ℓ} (op : A → A) where
  length-map_lanes : (n : ℕ) (xs : List A) → length (map_lanes n op xs) ≡ length xs
  unfolding map_lanes
  length-map_lanes zero xs = refl
  length-map_lanes (suc n) (a ∷ b ∷ c ∷ d ∷ xs) = omega (arith, length-map_lanes n xs)
  length-map_lanes (suc n) [] = refl
  length-map_lanes (suc n) (a ∷ []) = refl
  length-map_lanes (suc n) (a ∷ b ∷ []) = refl
  length-map_lanes (suc n) (a ∷ b ∷ c ∷ []) = refl

  map_from-zero : (xs : List A) → map_from zero op xs ≡ map op xs
  unfolding map_from
  map_from-zero [] = refl
  map_from-zero (x ∷ xs) = ap (λ ys. op x ∷ ys) (map_from-zero xs)

  four : (n : ℕ) → 4 * suc n ≡ suc (suc (suc (suc (4 * n))))
  four n = omega arith

  -- The lanes and the rest together are all elements, each once.
  map_from-map_lanes :
      (n : ℕ) (xs : List A)
      → 4 * n ≤ length xs
      → map_from (4 * n) op (map_lanes n op xs) ≡ map op xs
  unfolding map_lanes map_from
  map_from-map_lanes zero xs h = map_from-zero xs
  map_from-map_lanes (suc n) (a ∷ b ∷ c ∷ d ∷ xs) h =
      rw (four n, map_from-map_lanes n xs (omega arith))
  map_from-map_lanes (suc n) [] h = absurd (omega arith)
  map_from-map_lanes (suc n) (a ∷ []) h = absurd (omega arith)
  map_from-map_lanes (suc n) (a ∷ b ∷ []) h = absurd (omega arith)
  map_from-map_lanes (suc n) (a ∷ b ∷ c ∷ []) h = absurd (omega arith)

  map_lanes_all : (n : ℕ) (xs : List A) → length xs ≡ 4 * n → map_lanes n op xs ≡ map op xs
  unfolding map_lanes
  map_lanes_all zero [] h = refl
  map_lanes_all zero (x ∷ xs) h = absurd (omega arith)
  map_lanes_all (suc n) (a ∷ b ∷ c ∷ d ∷ xs) h =
      ap (λ ys. op a ∷ op b ∷ op c ∷ op d ∷ ys) (map_lanes_all n xs (omega arith))
  map_lanes_all (suc n) [] h = absurd (omega arith)
  map_lanes_all (suc n) (a ∷ []) h = absurd (omega arith)
  map_lanes_all (suc n) (a ∷ b ∷ []) h = absurd (omega arith)
  map_lanes_all (suc n) (a ∷ b ∷ c ∷ []) h = absurd (omega arith)

  -- For every size, the loop over lanes and the loop over the rest apply the operation to each element
  -- once.
  pub map_simd_lem : (xs : List A) → map_simd op xs ≡ map op xs
  unfolding map_simd
  map_simd_lem xs =
      let its = get_iteration_count (length xs) in
      let h = iterations (length xs) in
      let e4 : length xs - get_alignment (length xs) ≡ 4 * its = omega arith in
      elim (Bool-cases (get_alignment (length xs) == 0)) [
        | inl e ↦ rw (e, map_lanes_all its xs (grind arith))
        | inr e ↦ rw (e, e4, map_from-map_lanes its xs (omega arith))
      ]

module _ {ℓ κ} {F : Type ℓ} (D : Type κ) ⦃f : Real F⦄ ⦃d : Real D⦄ ⦃conv : Convert F D⦄ where
  -- For every size of a vector, `Normalize` leaves the vector as it is if the quotient of the amplitude
  -- and the largest absolute value is at least one, and else multiplies each element once by it.
  pub normalize_lem :
      (amplitude : F) (xs : List F)
      → normalize D amplitude xs ≡ (
          if f.le (whole 1) (coefficient D amplitude xs)
          then xs
          else map (λ x. x ⊗ coefficient D amplitude xs) xs)
  unfolding normalize
  normalize_lem amplitude xs = rw (map_simd_lem (λ x. x ⊗ coefficient D amplitude xs) xs)

  pub length-normalize :
      (amplitude : F) (xs : List F) → length (normalize D amplitude xs) ≡ length xs
  length-normalize amplitude xs =
      let c = coefficient D amplitude xs in
      rw (normalize_lem amplitude xs) (elim (Bool-cases (f.le (whole 1) c)) [
        | inl e ↦ rw e
        | inr e ↦ rw (e, length-map xs (λ x. x ⊗ c))
      ])
