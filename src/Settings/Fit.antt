-- ===== src/Settings/Fit.antt =====
-- src/Robot/Features/RobotSettings/RobotSettings.cpp: whatever message or file the settings come from,
-- the hand has no more motors than its array has coefficients.
use polar_uv_robot.Prelude.{
  ℕ, ◌+◌, ◌≤◌, ◌≡◌, refl, some, List, [], ◌∷◌, Bytes, ◌==◌, ltb, length, set, length-set,
  Bool-cases, Option-cases, inl, inr, replicate, arith,
}
use polar_uv_robot.Real.{Real, whole}
use polar_uv_robot.Network.Buffer.{StringView}
use polar_uv_robot.Network.Service.{not_empty, base_service, no_such_method}
use polar_uv_robot.Network.Session.Keeps.{Safe}
use polar_uv_robot.Network.Session.Invariant.{IsSafe}
use polar_uv_robot.Settings.{
  Protobuf, Message, RobotSettingsStruct, SettingsState, copy_from, read_pids, no_settings,
  parse_settings, get_settings_from_disk, new_settings, validate, write_validate, write, read,
  settings_service,
}
use polar_uv_robot.Settings.Validation.{validate_lem}

copy_from-some {ℓ} :
    {A : Type ℓ} (values array out : List A) (i : ℕ)
    → i ≤ length array
    → copy_from i values array ≡ some out
    → (length out ≡ length array) × (i + length values ≤ length array)
unfolding copy_from
copy_from-some [] array out i h e =
    let same : array ≡ out = ground arith in rw (← same) (refl, omega arith)
copy_from-some (v ∷ values) array out i h e = elim (Bool-cases (ltb i (length array))) [
  | inl t ↦
      let next : copy_from (i + 1) values (set array i v) ≡ some out = ground arith in
      let ih =
        copy_from-some values (set array i v) out (i + 1) (grind (arith, length-set array i v))
          next in
      grind (arith, length-set array i v)
  | inr t ↦ ground arith
]

module _ {ℓ} {F : Type ℓ} where
  abbrev pub Fits : RobotSettingsStruct F → Type 0
  Fits s = (length s.hand_coefficients ≡ 6) × (s.hand_freedom ≤ 6)

  abbrev pub HasFit : SettingsState F → Type 0
  HasFit s = Fits s.settings

module _ {ℓ} {F : Type ℓ} ⦃f : Real F⦄ where
  parse_settings-Fits :
      (m : Message F) (s : RobotSettingsStruct F) → parse_settings m ≡ some s → Fits s
  unfolding parse_settings no_settings
  parse_settings-Fits m s e =
      let zeros : List F = replicate 6 (whole 0) in
      let matrix : List F = replicate 72 (whole 0) in
      elim (Option-cases (copy_from 0 m.hand_coefficient zeros)) [
        | inl n ↦ ground arith
        | inr hand ↦ elim (Option-cases (copy_from 0 m.thrusters_coefficient matrix)) [
          | inl n ↦ ground arith
          | inr thrusters ↦ elim (Option-cases (read_pids 4 0 m.pid)) [
            | inl n ↦ ground arith
            | inr pids ↦
                let start : 0 ≤ length zeros = omega arith in
                let sizes = copy_from-some m.hand_coefficient zeros hand.0 0 start hand.1 in
                ground arith
          ]
        ]
      ]

  get_settings_from_disk-Fits :
      (pb : Protobuf F) (file : Bytes) (s : RobotSettingsStruct F)
      → get_settings_from_disk pb file ≡ some s
      → Fits s
  unfolding get_settings_from_disk no_settings
  get_settings_from_disk-Fits pb file s e = elim (Bool-cases (length file == 0)) [
    | inl t ↦ ground arith
    | inr t ↦
        let parsed : parse_settings (pb.parse file) ≡ some s = ground arith in
        parse_settings-Fits (pb.parse file) s parsed
  ]

  pub new_settings-Fits :
      (pb : Protobuf F) (file : Bytes) (s : SettingsState F)
      → new_settings pb file ≡ some s
      → Fits s.settings
  unfolding new_settings
  new_settings-Fits pb file s e = elim (Option-cases (get_settings_from_disk pb file)) [
    | inl n ↦ ground arith
    | inr r ↦
        let fits = get_settings_from_disk-Fits pb file r.0 r.1 in
        let same : r.0 ≡ s.settings = ground arith in rw (← same) fits
  ]

  validate-Safe : (m : Message F) → Safe HasFit (validate m)
  validate-Safe m s h = elim (validate_lem m s) [ inl v ↦ rw v.1 h | inr v ↦ rw v.1.1 h ]

  write_validate-Safe : (pb : Protobuf F) (v : StringView) → Safe HasFit (write_validate pb v)
  unfolding write_validate
  write_validate-Safe pb v s h = elim (Option-cases v.bytes) [
    | inl n ↦ rw n h
    | inr bs ↦ rw bs.1 (validate-Safe (pb.parse bs.0) s h)
  ]

  write-Safe : (pb : Protobuf F) (v : StringView) → Safe HasFit (write pb v)
  unfolding write
  write-Safe pb v s h = elim (Option-cases v.bytes) [
    | inl n ↦ rw n h
    | inr bs ↦ elim (Option-cases (parse_settings (pb.parse bs.0))) [
      | inl n ↦ rw (bs.1, write, n) h
      | inr new ↦ rw (bs.1, write, new.1) (parse_settings-Fits (pb.parse bs.0) new.0 new.1)
    ]
  ]

  -- Every operation of the service leaves settings that fit, for every message.
  pub settings_service-IsSafe : (pb : Protobuf F) (id : ℕ) → IsSafe HasFit (settings_service pb id)
  unfolding settings_service base_service not_empty no_such_method read
  settings_service-IsSafe pb id = record {
    read_validate = λ s h. h;
    write_validate = λ v. write_validate-Safe pb v;
    write_read_validate = λ v s h. ground arith;
    read = λ s h. ground arith;
    write = λ v. write-Safe pb v;
    write_read = λ v s h. h;
    connection_lost = λ s h. h;
  }
