-- ===== src/Robot/Configures.antt =====
-- The change that the service of src/Robot/Features/RobotSettings/RobotSettings.cpp makes, for every request.
use polar_uv_robot.Prelude.{
  ℕ, ◌<◌, ◌≤◌, ◌≡◌, refl, sym, ◌∙◌, inl, inr, none, some, Option-cases, List, [], ◌∷◌, Bytes, utf8,
  length, leb, Option, if◌then◌else◌, Bool-cases, arith,
}
use mathlib.Core.Path.{subst}
use polar_uv_robot.Real.{Real}
use polar_uv_robot.Network.Packet.{RequestType, r, w, wr, undefined, response, no_content}
use polar_uv_robot.Network.Exec.{Outcome, returned, thrown, fault, pure, continue}
use polar_uv_robot.Network.Buffer.{StringView}
use polar_uv_robot.Network.Service.{
  do_action, read_data, write_data, write_read_data, base_service, not_empty, no_such_method,
}
use polar_uv_robot.Settings.{
  Protobuf, Message, PidMessage, SettingsState, read_pids, parse_settings, validate, write_validate,
  write, read, settings_service,
}
use polar_uv_robot.Settings.Validation.{
  Accepted, settings_of, validate_lem, parse_settings-Accepted,
}
use polar_uv_robot.Settings.Accepts.{accepts, Accepted-accepts, accepts_not, accepts-short}
use polar_uv_robot.Robot.Effects.{HasEffect}

-- What is answered changes nothing.
after {ℓ κ μ} :
    {S : Type ℓ} {A : Type κ} {B : Type μ} (o : Outcome A) (s : S) (x : B)
    → (continue o (λ _. pure x) s).1 ≡ s
after (returned a) s x = refl
after (thrown e) s x = refl
after fault s x = refl

module _ {ℓ} {F : Type ℓ} ⦃f : Real F⦄ where
  -- The message of a request: it writes, and the message obeys the rules.
  unfoldable pub message_in : Protobuf F → RequestType → StringView → Option (Message F)
  message_in pb w v = elim v.bytes [
    | none ↦ none
    | some bs ↦ if accepts (pb.parse bs) then some (pb.parse bs) else none
  ]
  message_in pb _ v = none

  -- The settings of a message take effect, and nothing else changes the settings.
  abbrev pub PutsSettings : Option (Message F) → SettingsState F → SettingsState F → Type ℓ
  PutsSettings none s s' = s'.settings ≡ s.settings
  PutsSettings (some m) s s' = s'.settings ≡ settings_of m

  abbrev pub ReplacesSettings :
      Protobuf F → RequestType → StringView → SettingsState F → SettingsState F → Type ℓ
  ReplacesSettings pb k v = PutsSettings (message_in pb k v)

  read_pids-short : (pids : List (PidMessage F)) → length pids < 4 → read_pids 4 0 pids ≡ none
  unfolding read_pids
  read_pids-short [] h = refl
  read_pids-short (a ∷ []) h = refl
  read_pids-short (a ∷ b ∷ []) h = refl
  read_pids-short (a ∷ b ∷ c ∷ []) h = refl
  read_pids-short (a ∷ b ∷ c ∷ d ∷ pids) h = absurd (omega arith)

  parse_settings-short : (m : Message F) → length m.pid < 4 → parse_settings m ≡ none
  unfolding parse_settings
  parse_settings-short m h = ground (arith, read_pids-short m.pid h)

  write_short :
      (pb : Protobuf F) (v : StringView) (bs : Bytes) (s : SettingsState F)
      → v.bytes ≡ some bs
      → length (pb.parse bs).pid < 4
      → (write pb v s).1.settings ≡ s.settings
  unfolding write
  write_short pb v bs s e short = rw (e, write, parse_settings-short (pb.parse bs) short) refl

  write_long :
      (pb : Protobuf F) (v : StringView) (bs : Bytes) (s : SettingsState F)
      → v.bytes ≡ some bs
      → Accepted (pb.parse bs)
      → 4 ≤ length (pb.parse bs).pid
      → (write pb v s).1.settings ≡ settings_of (pb.parse bs)
  unfolding write
  write_long pb v bs s e a long = rw (e, write, parse_settings-Accepted (pb.parse bs) a long) refl

  write_validate-fault :
      (pb : Protobuf F) (v : StringView) (s : SettingsState F)
      → v.bytes ≡ none
      → write_validate pb v s ≡ (fault, s)
  unfolding write_validate
  write_validate-fault pb v s e = rw (e, write_validate) refl

  write_validate_lem :
      (pb : Protobuf F) (v : StringView) (bs : Bytes) (s : SettingsState F)
      → v.bytes ≡ some bs
      → write_validate pb v s ≡ validate (pb.parse bs) s
  unfolding write_validate
  write_validate_lem pb v bs s e = rw (e, write_validate) refl

  message_in_lem :
      (pb : Protobuf F) (v : StringView) (bs : Bytes)
      → v.bytes ≡ some bs
      → message_in pb w v ≡ (if accepts (pb.parse bs) then some (pb.parse bs) else none)
  unfolding message_in
  message_in_lem pb v bs e = rw (e, message_in) refl

  message_in-none : (pb : Protobuf F) (v : StringView) → v.bytes ≡ none → message_in pb w v ≡ none
  unfolding message_in
  message_in-none pb v e = rw (e, message_in) refl

  -- A message that obeys the rules of the validation.
  write-PutsSettings :
      (pb : Protobuf F) (v : StringView) (bs : Bytes) (s : SettingsState F)
      → v.bytes ≡ some bs
      → Accepted (pb.parse bs)
      → PutsSettings (if accepts (pb.parse bs) then some (pb.parse bs) else none) s (write pb v s).1
  write-PutsSettings pb v bs s e a = elim (Bool-cases (leb 4 (length (pb.parse bs).pid))) [
    | inl long ↦
        let four : 4 ≤ length (pb.parse bs).pid = grind arith in
        subst (λ o. PutsSettings (if o then some (pb.parse bs) else none) s (write pb v s).1)
          (sym (Accepted-accepts (pb.parse bs) a four)) (write_long pb v bs s e a four)
    | inr few ↦
        let short : length (pb.parse bs).pid < 4 = grind arith in
        subst (λ o. PutsSettings (if o then some (pb.parse bs) else none) s (write pb v s).1)
          (sym (accepts-short (pb.parse bs) short)) (write_short pb v bs s e short)
  ]

  write-ReplacesSettings :
      (pb : Protobuf F) (id : ℕ) (v : StringView) (bs : Bytes) (s : SettingsState F)
      → v.bytes ≡ some bs
      → ReplacesSettings pb w v s (do_action (settings_service pb id) w v s).1
  unfolding do_action write_data settings_service
  write-ReplacesSettings pb id v bs s e =
      let s' = (do_action (settings_service pb id) w v s).1 in
      subst (λ o. PutsSettings o s s') (sym (message_in_lem pb v bs e))
        (elim (validate_lem (pb.parse bs) s) [
          | inr (other, (x, refused)) ↦
              subst (λ o. PutsSettings (if o then some (pb.parse bs) else none) s s')
                (sym (accepts_not (pb.parse bs) other))
                (rw (write_validate_lem pb v bs s e ∙ refused) refl)
          | inl (a, valid) ↦
              rw
                (
                  write_validate_lem pb v bs s e ∙ valid,
                  after (write pb v s).0 (write pb v s).1 (response (utf8 "") no_content id),
                )
                (write-PutsSettings pb v bs s e a)
        ])

  write_fault-ReplacesSettings :
      (pb : Protobuf F) (id : ℕ) (v : StringView) (s : SettingsState F)
      → v.bytes ≡ none
      → ReplacesSettings pb w v s (do_action (settings_service pb id) w v s).1
  unfolding do_action write_data settings_service message_in
  write_fault-ReplacesSettings pb id v s n =
      subst (λ o. PutsSettings o s (do_action (settings_service pb id) w v s).1)
        (sym (message_in-none pb v n)) (rw (write_validate-fault pb v s n) refl)

  settings-do_action :
      (pb : Protobuf F) (id : ℕ) (k : RequestType) (v : StringView) (s : SettingsState F)
      → ReplacesSettings pb k v s (do_action (settings_service pb id) k v s).1
  unfolding do_action read_data write_data write_read_data settings_service base_service not_empty
      no_such_method read message_in
  settings-do_action pb id r v s = ground arith
  settings-do_action pb id w v s = elim (Option-cases v.bytes) [
    | inl n ↦ write_fault-ReplacesSettings pb id v s n
    | inr (bs, e) ↦ write-ReplacesSettings pb id v bs s e
  ]
  settings-do_action pb id wr v s = ground arith
  settings-do_action pb id (undefined n) v s = refl

  pub settings_service-HasEffect :
      (pb : Protobuf F) (id : ℕ) → HasEffect (ReplacesSettings pb) (settings_service pb id)
  unfolding settings_service base_service
  settings_service-HasEffect pb id = record { do_action = settings-do_action pb id }
