-- ===== src/Real.antt =====
-- The floating-point types. All that the program does with `float` and `double` is taken as a record
-- of operations, so that no theorem rests on a rounding mode.
use polar_uv_robot.Prelude.{ℕ, ◌+◌, ◌/◌, Bool, not, if◌then◌else◌}
use polar_uv_robot.Prelude.Int.{ℤ, pos, ◌+ℤ◌, ◌-ℤ◌, ◌*ℤ◌, ltb_ℤ, pos_part, neg_part}

pub record Real {ℓ} (R : Type ℓ) : Type ℓ where
  -- The literal `n / d`.
  pub lit : ℕ → ℕ → R
  pub add : R → R → R
  pub sub : R → R → R
  pub mul : R → R → R
  pub div : R → R → R
  pub neg : R → R
  pub abs : R → R
  -- `<` and `<=`, which are false at a NaN.
  pub lt : R → R → Bool
  pub le : R → R → Bool
  pub sin : R → R
  pub cos : R → R
  pub acos : R → R
  pub ceil : R → R
  pub round : R → R
  -- The larger of two values; the other one if one is NaN.
  pub maxnm : R → R → R
  -- The conversions from an integer and to an unsigned integer.
  pub of_int : ℤ → R
  pub to_size : R → ℕ

module _ {ℓ} {R : Type ℓ} ⦃f : Real R⦄ where
  infixl 65 ◌⊕◌ ◌⊖◌
  infixl 70 ◌⊗◌ ◌⊘◌
  abbrev pub ◌⊕◌ : R → R → R
  a ⊕ b = f.add a b

  abbrev pub ◌⊖◌ : R → R → R
  a ⊖ b = f.sub a b

  abbrev pub ◌⊗◌ : R → R → R
  a ⊗ b = f.mul a b

  abbrev pub ◌⊘◌ : R → R → R
  a ⊘ b = f.div a b

  abbrev pub whole : ℕ → R
  whole n = f.lit n 1

-- The conversions between `float` and `double`.
pub record Convert {ℓ κ} (F : Type ℓ) (D : Type κ) : Type (ℓ ⊔ κ) where
  pub widen : F → D
  pub narrow : D → F

-- Whole numbers with these operations, for tests. Division is towards zero, and a function that has no
-- whole value is the identity.
unfoldable pub div_ℤ : ℤ → ℤ → ℤ
unfolding ◌-ℤ◌
div_ℤ a b =
    pos (pos_part a / pos_part b + neg_part a / neg_part b)
    -ℤ pos (pos_part a / neg_part b + neg_part a / pos_part b)

instance abbrev pub int_real : Real ℤ
int_real = record {
  lit = λ n d. pos (n / d);
  add = ◌+ℤ◌;
  sub = ◌-ℤ◌;
  mul = ◌*ℤ◌;
  div = div_ℤ;
  neg = λ a. pos 0 -ℤ a;
  abs = λ a. pos (pos_part a + neg_part a);
  lt = ltb_ℤ;
  le = λ a b. not (ltb_ℤ b a);
  sin = λ a. a;
  cos = λ a. a;
  acos = λ a. a;
  ceil = λ a. a;
  round = λ a. a;
  maxnm = λ a b. if ltb_ℤ a b then b else a;
  of_int = λ a. a;
  to_size = pos_part;
}

instance abbrev pub int_convert : Convert ℤ ℤ
int_convert = record { widen = λ a. a; narrow = λ a. a }
