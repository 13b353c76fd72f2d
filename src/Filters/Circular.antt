-- ===== src/Filters/Circular.antt =====
-- An array that is written in a circle: the element at the index is the oldest.
use polar_uv_robot.Prelude.{
  ℕ, zero, suc, ◌<◌, ◌≡◌, ap, refl, List, [], ◌∷◌, ◌++◌, append-nil, append_assoc, arith, length,
  set, take, drop,
}

module _ {ℓ} {A : Type ℓ} where
  -- The elements from the oldest to the newest, where `i` is the next to be written.
  abbrev pub from_index : ℕ → List A → List A
  from_index i xs = drop i xs ++ take i xs

  take-suc-set :
      (i : ℕ) (xs : List A) (v : A)
      → i < length xs
      → take (suc i) (set xs i v) ≡ take i xs ++ (v ∷ [])
  take-suc-set i [] v h = elim h [ ]
  take-suc-set zero (x ∷ xs) v h = refl
  take-suc-set (suc i) (x ∷ xs) v h = ap (λ ys. x ∷ ys) (take-suc-set i xs v (omega arith))

  drop-suc-set : (i : ℕ) (xs : List A) (v : A) → drop (suc i) (set xs i v) ≡ drop (suc i) xs
  drop-suc-set i [] v = refl
  drop-suc-set zero (x ∷ xs) v = refl
  drop-suc-set (suc i) (x ∷ xs) v = drop-suc-set i xs v

  drop_one :
      (i : ℕ) (xs ys : List A) → i < length xs → drop 1 (drop i xs ++ ys) ≡ drop (suc i) xs ++ ys
  drop_one i [] ys h = elim h [ ]
  drop_one zero (x ∷ xs) ys h = refl
  drop_one (suc i) (x ∷ xs) ys h = drop_one i xs ys (omega arith)

  -- A write drops the oldest element and appends the new one.
  pub from_index-set :
      (i : ℕ) (xs : List A) (v : A)
      → i < length xs
      → from_index (suc i) (set xs i v) ≡ drop 1 (from_index i xs) ++ (v ∷ [])
  from_index-set i xs v h =
      rw (take-suc-set i xs v h, drop-suc-set i xs v, drop_one i xs (take i xs) h)
        (sym_assoc (drop (suc i) xs) (take i xs) (v ∷ []))
    where
      sym_assoc : (a b c : List A) → a ++ (b ++ c) ≡ (a ++ b) ++ c
      sym_assoc a b c = rw append_assoc

  drop_all : (xs : List A) → drop (length xs) xs ≡ []
  drop_all [] = refl
  drop_all (x ∷ xs) = drop_all xs

  take_whole : (xs : List A) → take (length xs) xs ≡ xs
  take_whole [] = refl
  take_whole (x ∷ xs) = ap (λ ys. x ∷ ys) (take_whole xs)

  -- At the end of the array the next index is its start.
  pub from_index_wrap : (xs : List A) → from_index (length xs) xs ≡ from_index 0 xs
  from_index_wrap xs = rw (drop_all xs, take_whole xs, append-nil)
