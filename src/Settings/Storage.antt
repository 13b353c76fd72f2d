-- ===== src/Settings/Storage.antt =====
-- src/Robot/Features/RobotSettings/RobotSettings.cpp: settings that a client writes are in force, are
-- what a client reads, and are in force again after a restart.
use polar_uv_robot.Prelude.{
  ℕ, ◌≤◌, ◌<◌, ◌≡◌, inl, inr, false, ◌==◌, some, Bytes, utf8, length, arith,
}
use polar_uv_robot.Real.{Real}
use polar_uv_robot.Network.Packet.{response, ok, no_content}
use polar_uv_robot.Network.Exec.{returned, thrown}
use polar_uv_robot.Network.Exceptions.{Exception}
use polar_uv_robot.Network.Buffer.{view_of}
use polar_uv_robot.Network.Service.{read_data, write_data}
use polar_uv_robot.Settings.{
  Protobuf, SettingsState, new_settings, settings_service, write_validate, write, read,
  get_settings_from_disk,
}
use polar_uv_robot.Settings.Validation.{
  Accepted, settings_of, validate_lem, parse_settings-Accepted,
}

module _ {ℓ} {F : Type ℓ} ⦃f : Real F⦄ (pb : Protobuf F) (id : ℕ) where
  -- A write request with an accepted message and four sets of PID coefficients stores its bytes in the
  -- file, puts the settings in force and answers without content. From then on a read request answers
  -- with these bytes, and a service that is started with that file has the same settings.
  pub write_data-read_data :
      (bs : Bytes) (s : SettingsState F)
      → Accepted (pb.parse bs)
      → 4 ≤ length (pb.parse bs).pid
      → 0 < length bs
      → (let svc = settings_service pb id in
          let after : SettingsState F = record {
            file = bs;
            settings = settings_of (pb.parse bs);
          } in
          (write_data svc (view_of bs) s ≡ (returned (response (utf8 "") no_content id), after))
          × (read_data svc after ≡ (returned (response bs ok id), after))
          × (new_settings pb bs ≡ some after))
  unfolding write_data read_data settings_service write_validate write read new_settings
      get_settings_from_disk
  write_data-read_data bs s a h l =
      let p = parse_settings-Accepted (pb.parse bs) a h in
      let nonempty : (length bs == 0) ≡ false = grind arith in
      elim (validate_lem (pb.parse bs) s) [
        | inl v ↦ (rw (v.1, write, p), rw nonempty, rw (nonempty, p))
        | inr v ↦ absurd (v.0 a)
      ]

  -- A write request with a message that is not accepted is answered by an exception and changes neither
  -- the file nor the settings.
  pub write_data_refused :
      (bs : Bytes) (s : SettingsState F)
      → ¬ Accepted (pb.parse bs)
      → (e : Exception) × (write_data (settings_service pb id) (view_of bs) s ≡ (thrown e, s))
  unfolding write_data settings_service write_validate
  write_data_refused bs s h = elim (validate_lem (pb.parse bs) s) [
    | inl v ↦ absurd (h v.0)
    | inr v ↦ (v.1.0, rw v.1.1)
  ]
