-- ===== src/Robot/Changes.antt =====
-- The changes that the services of src/Robot/Robot.cpp make, for every request: the commands, the sensors and
-- the video. Configures has those of the settings.
use polar_uv_robot.Prelude.{
  ℕ, ◌≡◌, refl, sym, inl, inr, none, some, Option-cases, Bytes, Option, if◌then◌else◌, true, false,
  ◌==◌, Bool-cases, arith,
}
use mathlib.Core.Path.{subst}
use polar_uv_robot.Real.{Real, Convert}
use polar_uv_robot.Network.Packet.{RequestType, r, w, wr, undefined}
use polar_uv_robot.Network.Buffer.{StringView}
use polar_uv_robot.Network.Service.{
  IService, do_action, read_data, write_data, write_read_data, base_service, not_empty,
  no_such_method,
}
use polar_uv_robot.Commands.Struct.{CommandsStruct}
use polar_uv_robot.Commands.Queue.{CommandsQueue, add_commands}
use polar_uv_robot.Commands.Service as Commands
use polar_uv_robot.Commands.Service.{commands_service, commands_struct_size, commands_of}
use polar_uv_robot.Sensors as Sensors
use polar_uv_robot.Sensors.{SensorsState, sensors_service}
use polar_uv_robot.Robot.Effects.{HasEffect}

-- A service that changes nothing.
abbrev pub Unchanged {ℓ} : {T : Type ℓ} → RequestType → StringView → T → T → Type ℓ
Unchanged k v t t' = t' ≡ t

abbrev pub Changed {ℓ} : {T : Type ℓ} → RequestType → StringView → T → T → Type 0
Changed k v t t' = Unit

pub any-HasEffect {ℓ} : {T : Type ℓ} (svc : IService T) → HasEffect Changed svc
any-HasEffect svc = record { do_action = λ k v t. tt }

module _ {ℓ κ} {F : Type ℓ} (D : Type κ) ⦃f : Real F⦄ ⦃d : Real D⦄ ⦃conv : Convert F D⦄
    (bytes_of : F → Bytes) (pad : Bytes) (id : ℕ) where
  sensors-do_action :
      (k : RequestType) (v : StringView) (s : SensorsState D)
      → (do_action (sensors_service D bytes_of pad id) k v s).1 ≡ s
  unfolding do_action read_data write_data write_read_data sensors_service base_service not_empty
      no_such_method Sensors.read
  sensors-do_action r v s = refl
  sensors-do_action w v s = ground arith
  sensors-do_action wr v s = ground arith
  sensors-do_action (undefined n) v s = refl

  pub sensors_service-HasEffect : HasEffect Unchanged (sensors_service D bytes_of pad id)
  unfolding sensors_service base_service
  sensors_service-HasEffect = record { do_action = sensors-do_action }

module _ {ℓ} {F : Type ℓ} ⦃f : Real F⦄ where
  -- The commands of a request: it writes, and its data have the size of the struct.
  unfoldable pub commands_in : (Bytes → F) → RequestType → StringView → Option (CommandsStruct F)
  commands_in float_of w v =
      if v.size == commands_struct_size
      then elim v.bytes [ none ↦ none | some bs ↦ some (commands_of float_of bs) ]
      else none
  commands_in float_of _ v = none

  -- Commands are put into the queue, and nothing else changes it.
  abbrev pub PutsCommands : Option (CommandsStruct F) → CommandsQueue F → CommandsQueue F → Type ℓ
  PutsCommands none q q' = q' ≡ q
  PutsCommands (some c) q q' = q' ≡ add_commands c q

  abbrev pub ReplacesCommands :
      (Bytes → F) → RequestType → StringView → CommandsQueue F → CommandsQueue F → Type ℓ
  ReplacesCommands float_of k v = PutsCommands (commands_in float_of k v)

  commands_in-none :
      (float_of : Bytes → F) (v : StringView)
      → (v.size == commands_struct_size) ≡ false
      → commands_in float_of w v ≡ none
  unfolding commands_in
  commands_in-none float_of v e = rw e refl

  commands_in_lem :
      (float_of : Bytes → F) (v : StringView)
      → (v.size == commands_struct_size) ≡ true
      → commands_in float_of w v
        ≡ elim v.bytes [ none ↦ none | some bs ↦ some (commands_of float_of bs) ]
  unfolding commands_in
  commands_in_lem float_of v e = rw e refl

  commands-do_action :
      (float_of : Bytes → F) (id : ℕ) (k : RequestType) (v : StringView) (q : CommandsQueue F)
      → ReplacesCommands float_of k v q (do_action (commands_service float_of id) k v q).1
  unfolding do_action read_data write_data write_read_data commands_service base_service not_empty
      no_such_method Commands.write commands_in
  commands-do_action float_of id r v q = refl
  commands-do_action float_of id w v q =
      let q' = (do_action (commands_service float_of id) w v q).1 in
      elim (Bool-cases (v.size == 0)) [
        | inl empty ↦
            subst (λ o. PutsCommands o q q') (sym (commands_in-none float_of v (grind arith)))
              (rw empty refl)
        | inr some_bytes ↦ elim (Bool-cases (v.size == commands_struct_size)) [
          | inr other ↦
              subst (λ o. PutsCommands o q q') (sym (commands_in-none float_of v other))
                (rw (some_bytes, other) refl)
          | inl fits ↦
              subst (λ o. PutsCommands o q q') (sym (commands_in_lem float_of v fits))
                (elim (Option-cases v.bytes) [
                  | inl n ↦ rw (some_bytes, fits, n) refl
                  | inr (bs, e) ↦ rw (some_bytes, fits, e) refl
                ])
        ]
      ]
  commands-do_action float_of id wr v q = ground arith
  commands-do_action float_of id (undefined n) v q = refl

  pub commands_service-HasEffect :
      (float_of : Bytes → F) (id : ℕ)
      → HasEffect (ReplacesCommands float_of) (commands_service float_of id)
  unfolding commands_service base_service
  commands_service-HasEffect float_of id = record { do_action = commands-do_action float_of id }
