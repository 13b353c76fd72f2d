-- ===== src/Sensors/Layout.antt =====
-- The bytes that `Read` of src/Robot/Features/Sensors/Sensors.cpp answers with, by their places.
use polar_uv_robot.Prelude.{
  ℕ, zero, suc, ◌*◌, ◌<◌, ◌≡◌, refl, ap, ◌∙◌, sym, List, [], ◌∷◌, ◌++◌, append_assoc, Bytes, length,
  take, drop, get_or, if◌then◌else◌, length-append, take-append, drop-append, arith,
}
use polar_uv_robot.Real.{Real, Convert, whole}
use polar_uv_robot.Network.Exec.{returned}
use polar_uv_robot.Commands.Struct.{SensorsStruct}
use polar_uv_robot.Sensors.{SensorsState, get_sensors_struct, floats_bytes, sensors_bytes, read}
use mathlib.Core.Path.{subst}

drop-nil {ℓ} : {A : Type ℓ} (n : ℕ) → drop {A = A} n [] ≡ []
drop-nil zero = refl
drop-nil (suc n) = refl

drop_four {ℓ} :
    {A : Type ℓ} (n : ℕ) (xs : List A) → drop (suc (suc (suc (suc n)))) xs ≡ drop n (drop 4 xs)
drop_four n (a ∷ b ∷ c ∷ d ∷ xs) = refl
drop_four n [] = sym (drop-nil n)
drop_four n (a ∷ []) = sym (drop-nil n)
drop_four n (a ∷ b ∷ []) = sym (drop-nil n)
drop_four n (a ∷ b ∷ c ∷ []) = sym (drop-nil n)

module _ {ℓ} {F : Type ℓ} (bytes_of : F → Bytes) (four : (x : F) → length (bytes_of x) ≡ 4) where
  floats_bytes-append :
      (xs ys : List F)
      → floats_bytes bytes_of (xs ++ ys) ≡ floats_bytes bytes_of xs ++ floats_bytes bytes_of ys
  unfolding floats_bytes
  floats_bytes-append [] ys = refl
  floats_bytes-append (x ∷ xs) ys =
      rw
        (
          floats_bytes-append xs ys,
          append_assoc (bytes_of x) (floats_bytes bytes_of xs) (floats_bytes bytes_of ys),
        )
        refl

  length-floats_bytes : (xs : List F) → length (floats_bytes bytes_of xs) ≡ 4 * length xs
  unfolding floats_bytes
  length-floats_bytes [] = refl
  length-floats_bytes (x ∷ xs) =
      omega (
        arith,
        length-append (bytes_of x) (floats_bytes bytes_of xs),
        four x,
        length-floats_bytes xs,
      )

  -- The four bytes of the value at place `i`.
  floats_bytes_lem :
      (xs : List F) (i : ℕ) (rest : Bytes) (d : F)
      → i < length xs
      → take 4 (drop (4 * i) (floats_bytes bytes_of xs ++ rest)) ≡ bytes_of (get_or xs i d)
  unfolding floats_bytes
  floats_bytes_lem [] i rest d h = elim h [ ]
  floats_bytes_lem (x ∷ xs) zero rest d h =
      rw (append_assoc (bytes_of x) (floats_bytes bytes_of xs) rest) (
        subst (λ n. take n (bytes_of x ++ (floats_bytes bytes_of xs ++ rest)) ≡ bytes_of x) (four x)
          (take-append (bytes_of x) (floats_bytes bytes_of xs ++ rest)))
  floats_bytes_lem (x ∷ xs) (suc i) rest d h =
      let tail = floats_bytes bytes_of xs ++ rest in
      let skip : drop 4 (bytes_of x ++ tail) ≡ tail =
        subst (λ n. drop n (bytes_of x ++ tail) ≡ tail) (four x) (drop-append (bytes_of x) tail) in
      let e : 4 * suc i ≡ suc (suc (suc (suc (4 * i)))) = omega arith in
      rw
        (
          append_assoc (bytes_of x) (floats_bytes bytes_of xs) rest,
          e,
          drop_four (4 * i) (bytes_of x ++ tail),
          skip,
        )
        (floats_bytes_lem xs i rest d (omega arith))

  -- The ten values of the struct, in their order.
  unfoldable pub values : SensorsStruct F → List F
  values s =
      let q = s.rotation in
      (q.e0 ∷ q.e1 ∷ q.e2 ∷ q.e3 ∷ [])
      ++ (s.acceleration ++ (s.depth ∷ s.pressure ∷ s.battery_voltage ∷ []))

  -- The struct is the ten values, and the bytes behind them.
  sensors_bytes_lem :
      (pad : Bytes) (s : SensorsStruct F)
      → sensors_bytes bytes_of pad s
        ≡ floats_bytes bytes_of (values s)
          ++ (s.motion_calibration ++ ((if s.euler then 1 else 0) ∷ pad))
  unfolding sensors_bytes values
  sensors_bytes_lem pad s =
      let q = s.rotation in
      let turn = q.e0 ∷ q.e1 ∷ q.e2 ∷ q.e3 ∷ [] in
      let others = s.depth ∷ s.pressure ∷ s.battery_voltage ∷ [] in
      let end = s.motion_calibration ++ ((if s.euler then 1 else 0) ∷ pad) in
      let b = floats_bytes bytes_of in
      rw
        (
          floats_bytes-append turn (s.acceleration ++ others),
          floats_bytes-append s.acceleration others,
          append_assoc (b turn) (b s.acceleration ++ b others) end,
          append_assoc (b s.acceleration) (b others) end,
        )
        refl

module _ {ℓ κ} {F : Type ℓ} {D : Type κ} ⦃f : Real F⦄ ⦃conv : Convert F D⦄ where
  -- What the two sensors last published, and zeros for what no sensor measures.
  abbrev pub published : SensorsState D → List F
  published s =
      let bno = s.bno055.stored in
      conv.narrow bno.euler_angle.x
      ∷ conv.narrow bno.euler_angle.y
      ∷ conv.narrow bno.euler_angle.z
      ∷ whole 0
      ∷ conv.narrow bno.linear_acceleration.x
      ∷ conv.narrow bno.linear_acceleration.y
      ∷ conv.narrow bno.linear_acceleration.z
      ∷ conv.narrow s.ms5837.stored.depth
      ∷ whole 0
      ∷ whole 0
      ∷ []

module _ {ℓ κ} {F : Type ℓ} {D : Type κ} ⦃f : Real F⦄ ⦃conv : Convert F D⦄ (bytes_of : F → Bytes)
    (four : (x : F) → length (bytes_of x) ≡ 4) (pad : Bytes) (three : length pad ≡ 3)
    (s : SensorsState D) where
  -- `Read` answers with 48 bytes and changes nothing. From the first byte on there are ten values of
  -- four bytes: the three angles, zero, the three accelerations, the depth, and two zeros, as the
  -- sensors last published them.
  pub read_lem :
      (i : ℕ)
      → i < 10
      → (bs : Bytes) × (read D bytes_of pad s ≡ (returned bs, s))
        × (length bs ≡ 48)
        × (take 4 (drop (4 * i) bs) ≡ bytes_of (get_or (published s) i (whole 0)))
  unfolding read get_sensors_struct values
  read_lem i h =
      let x = get_sensors_struct s in
      let calibration = x.motion_calibration in
      let end = calibration ++ (1 ∷ pad) in
      let e = sensors_bytes_lem bytes_of four pad x in
      (
        sensors_bytes bytes_of pad x,
        refl,
        ap length e
            ∙ omega (
              arith,
              length-append (floats_bytes bytes_of (published s)) end,
              length-floats_bytes bytes_of four (published s),
            ),
        ap (λ bs. take 4 (drop (4 * i) bs)) e
            ∙ floats_bytes_lem bytes_of four (published s) i end (whole 0) (omega arith),
      )
