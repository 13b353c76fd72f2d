-- ===== src/Commands/Pid.antt =====
-- src/Robot/Features/Commands/PID.hpp for arrays of four elements, the only size the program uses: an
-- array is one vector of four lanes, and every loop over lanes has one round and no rest.
pub mod History
pub mod Timer
use polar_uv_robot.Prelude.{if◌then◌else◌}
use polar_uv_robot.Real.{Real, ◌⊕◌, ◌⊖◌, ◌⊗◌, ◌⊘◌, whole}

-- `float32x4_t`, and `ArrayType<4>`
pub record Quad {ℓ} (F : Type ℓ) : Type ℓ where
  pub e0 : F
  pub e1 : F
  pub e2 : F
  pub e3 : F

unfoldable pub lanewise {ℓ} : {F : Type ℓ} → (F → F → F) → Quad F → Quad F → Quad F
lanewise op a b = record {
  e0 = op a.e0 b.e0;
  e1 = op a.e1 b.e1;
  e2 = op a.e2 b.e2;
  e3 = op a.e3 b.e3;
}

unfoldable pub same {ℓ} : {F : Type ℓ} → F → Quad F
same x = record { e0 = x; e1 = x; e2 = x; e3 = x }

-- The terms of the regulator; the pointers to the coefficients are the arrays they point to.
pub record IArray {ℓ} (F : Type ℓ) : Type ℓ where
  pub coefficients : Quad F
  pub is : Quad F

pub record DArray {ℓ} (F : Type ℓ) : Type ℓ where
  pub coefficients : Quad F
  pub prev_errors : Quad F
  pub values : Quad F

pub record PidArray {ℓ} (F : Type ℓ) : Type ℓ where
  pub p_array : Quad F
  pub i_array : IArray F
  pub d_array : DArray F

module _ {ℓ} {F : Type ℓ} ⦃f : Real F⦄ where
  unfoldable pub add_p : Quad F → Quad F → Quad F → Quad F
  unfolding lanewise
  add_p coefficients errors out = lanewise f.add out (lanewise f.mul coefficients errors)

  unfoldable pub add_i : F → Quad F → Quad F → IArray F → Quad F × IArray F
  unfolding lanewise same
  add_i dt errors out a =
      let tmp = lanewise f.mul a.coefficients (lanewise f.mul (same dt) errors) in
      let is = lanewise f.add a.is tmp in
      (lanewise f.add out is, record { coefficients = a.coefficients; is = is })

  -- The derivative is computed again only under the condition on the third error.
  unfoldable pub add_d : F → Quad F → Quad F → DArray F → Quad F × DArray F
  unfolding lanewise same
  add_d dt errors out a =
      let fresh =
        lanewise f.mul a.coefficients
          (lanewise f.div (lanewise f.sub errors a.prev_errors) (same dt)) in
      let values =
        if f.lt (a.prev_errors.e2 ⊖ errors.e2) (f.lit 1 1000000) then fresh else a.values in
      (
        lanewise f.add out values,
        record { coefficients = a.coefficients; prev_errors = errors; values = values },
      )

  unfoldable pub calculate : F → Quad F → PidArray F → Quad F × PidArray F
  unfolding add_p add_i add_d same
  calculate dt errors a =
      let output = add_p a.p_array errors (same (whole 0)) in
      let (output_i, i) = add_i dt errors output a.i_array in
      let (output_d, d) = add_d dt errors output_i a.d_array in
      (output_d, record { p_array = a.p_array; i_array = i; d_array = d })

  unfoldable pub get_errors : Quad F → Quad F → Quad F
  unfolding lanewise
  get_errors setting measurements = lanewise f.sub setting measurements

  -- `SetPCoefficients`, `SetICoefficients` and `SetDCoefficients`
  unfoldable pub set_coefficients : Quad F → Quad F → Quad F → PidArray F → PidArray F
  set_coefficients p i d a = record {
    p_array = p;
    i_array = record { coefficients = i; is = a.i_array.is };
    d_array = record {
      coefficients = d;
      prev_errors = a.d_array.prev_errors;
      values = a.d_array.values;
    };
  }

  unfoldable pub reset : PidArray F → PidArray F
  unfolding same
  reset a = record {
    p_array = a.p_array;
    i_array = record { coefficients = a.i_array.coefficients; is = same (whole 0) };
    d_array = record {
      coefficients = a.d_array.coefficients;
      prev_errors = same (whole 0);
      values = a.d_array.values;
    };
  }

  unfoldable pub new_pid : PidArray F
  unfolding same
  new_pid = record {
    p_array = same (whole 0);
    i_array = record { coefficients = same (whole 0); is = same (whole 0) };
    d_array = record {
      coefficients = same (whole 0);
      prev_errors = same (whole 0);
      values = same (whole 0);
    };
  }
