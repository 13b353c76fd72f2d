-- ===== src/Settings.antt =====
-- src/Robot/Features/RobotSettings: the service that checks, stores and hands out the settings. The
-- generated parser and serialiser of the message are parameters; the message itself has the fields of
-- RobotSettingsMessage.proto.
pub mod Validation
pub mod Accepts
pub mod Storage
pub mod Motion
pub mod Fit
mod Tests
use polar_uv_robot.Prelude.{
  ℕ, zero, suc, ◌+◌, ◌/◌, ◌%◌, ◌^◌, Bool, true, not, Option, none, some, List, [], ◌∷◌, Bytes, utf8,
  ltb, ◌==◌, if◌then◌else◌, length, get_elem?, set, replicate,
}
use polar_uv_robot.Prelude.Options.{◌>>=◌}
use polar_uv_robot.Real.{Real, whole}
use polar_uv_robot.Network.Exceptions.{Exception, invalid_operation}
use polar_uv_robot.Network.Exec.{Exec, pure, throw, crash, ◌>>◌}
use polar_uv_robot.Network.Buffer.{StringView}
use polar_uv_robot.Network.Service.{IService, base_service}
use polar_uv_robot.Commands.Stabilization.{Enabled}

-- `message PID`
pub record PidMessage {ℓ} (F : Type ℓ) : Type ℓ where
  pub p : F
  pub i : F
  pub d : F

-- `RobotSettingsMessage`; the protocol by its number.
pub record Message {ℓ} (F : Type ℓ) : Type ℓ where
  pub thrusters_coefficient : List F
  pub hand_coefficient : List F
  pub maximum_motor_speed : ℕ
  pub motors_protocol : ℕ
  pub pid : List (PidMessage F)
  pub pid_enabled : Enabled

-- The fields of the message that `Read` sets, where there is no file. It leaves `pid_enabled` unset,
-- although it is required.
pub record PartMessage {ℓ} (F : Type ℓ) : Type ℓ where
  pub thrusters_coefficient : List F
  pub hand_coefficient : List F
  pub maximum_motor_speed : ℕ
  pub motors_protocol : ℕ

-- The generated code: `ParseFromArray` and `ParseFromIstream`, which leave what they read in the
-- message and whose result the program drops, and `SerializeAsString`.
pub record Protobuf {ℓ} (F : Type ℓ) : Type ℓ where
  pub parse : Bytes → Message F
  pub serialize : PartMessage F → Bytes

-- `RobotSettingsStruct`; the matrix of 12 rows and 6 columns is its 72 elements, row after row.
pub record RobotSettingsStruct {ℓ} (F : Type ℓ) : Type ℓ where
  pub thrusters_coefficients : List F
  pub hand_coefficients : List F
  pub thrusters_number : ℕ
  pub hand_freedom : ℕ
  pub pid_coefficients : List (PidMessage F)
  pub pid_enabled : Enabled

-- The service's state: the file it keeps the message in, empty if there is none, and `settings_`.
pub record SettingsState {ℓ} (F : Type ℓ) : Type ℓ where
  pub file : Bytes
  pub settings : RobotSettingsStruct F

abbrev pub all_off : Enabled
all_off = record { x = Bool.false; y = Bool.false; z = Bool.false; h = Bool.false }

-- `array[i + k] = values[k]` for every `k`; none where an index is out of bounds.
unfoldable pub copy_from {ℓ} : {A : Type ℓ} → ℕ → List A → List A → Option (List A)
copy_from i [] array = some array
copy_from i (v ∷ values) array =
    let rest = copy_from (i + 1) values (set array i v) in
    if ltb i (length array) then rest else none

-- What `WriteValidate` throws.
abbrev pub bad_coefficient : Exception
bad_coefficient = invalid_operation (utf8 "Неверное значение коэффициента")

abbrev pub bad_hand : Exception
bad_hand = invalid_operation (utf8 "Неверное количество степеней свободы руки")

abbrev pub bad_matrix : Exception
bad_matrix = invalid_operation (utf8 "Неправильно задана матрица")

abbrev pub bad_motors : Exception
bad_motors = invalid_operation (utf8 "количество двигателей должно быть меньше 12")

module _ {ℓ} {F : Type ℓ} ⦃f : Real F⦄ where
  unfoldable pub no_settings : RobotSettingsStruct F
  no_settings = record {
    thrusters_coefficients = replicate 72 (whole 0);
    hand_coefficients = replicate 6 (whole 0);
    thrusters_number = 0;
    hand_freedom = 0;
    pid_coefficients = replicate 4 (record { p = whole 0; i = whole 0; d = whole 0 });
    pid_enabled = all_off;
  }

  -- `message.pid()[i]` for the first `n` indices from `i` on; none where there is no such element.
  unfoldable pub read_pids : ℕ → ℕ → List (PidMessage F) → Option (List (PidMessage F))
  read_pids zero i pids = some []
  read_pids (suc n) i pids = do
    p ← get_elem? pids i
    rest ← read_pids n (i + 1) pids
    some (p ∷ rest)

  -- None where the loops leave an array: undefined behaviour.
  unfoldable pub parse_settings : Message F → Option (RobotSettingsStruct F)
  unfolding copy_from read_pids no_settings
  parse_settings m = do
    hand ← copy_from 0 m.hand_coefficient no_settings.hand_coefficients
    thrusters ← copy_from 0 m.thrusters_coefficient no_settings.thrusters_coefficients
    pids ← read_pids 4 0 m.pid
    some (record {
      thrusters_coefficients = thrusters;
      hand_coefficients = hand;
      thrusters_number = length m.thrusters_coefficient / 6;
      hand_freedom = length m.hand_coefficient;
      pid_coefficients = pids;
      pid_enabled = m.pid_enabled;
    })

  unfoldable pub get_settings_from_disk : Protobuf F → Bytes → Option (RobotSettingsStruct F)
  unfolding parse_settings no_settings
  get_settings_from_disk pb file =
      if length file == 0 then some no_settings else parse_settings (pb.parse file)

  -- `RobotSettings::RobotSettings`
  unfoldable pub new_settings : Protobuf F → Bytes → Option (SettingsState F)
  unfolding get_settings_from_disk
  new_settings pb file = do
    s ← get_settings_from_disk pb file
    some (record { file = file; settings = s })

  -- The loop over coefficients, `std::abs(value) > 100`.
  unfoldable pub check_coefficients : List F → Exec (SettingsState F) (Unit {0})
  check_coefficients [] = pure tt
  check_coefficients (v ∷ values) =
      let rest = check_coefficients values in
      if f.lt (whole 100) (f.abs v) then throw bad_coefficient else rest

  unfoldable pub validate : Message F → Exec (SettingsState F) Bool
  unfolding check_coefficients
  validate m =
      let hand = length m.hand_coefficient in
      let thrusters = length m.thrusters_coefficient in
      if ltb 4 hand
      then throw bad_hand
      else if not (thrusters % 6 == 0)
      then throw bad_matrix
      else if ltb 12 (hand + thrusters / 6)
      then throw bad_motors
      else (check_coefficients m.thrusters_coefficient
          >> check_coefficients m.hand_coefficient
          >> pure true)

  unfoldable pub write_validate : Protobuf F → StringView → Exec (SettingsState F) Bool
  unfolding validate
  write_validate pb v = elim v.bytes [ none ↦ crash | some bs ↦ validate (pb.parse bs) ]

  -- The file is written first, and then the message is read.
  unfoldable pub write : Protobuf F → StringView → Exec (SettingsState F) (Unit {0})
  unfolding parse_settings
  write pb v s = elim v.bytes [
    | none ↦ crash s
    | some bs ↦ elim (parse_settings (pb.parse bs)) [
      | none ↦ crash (record { file = bs; settings = s.settings })
      | some new ↦ pure tt (record { file = bs; settings = new })
    ]
  ]

  -- What `Read` sends where there is no file.
  unfoldable pub default_message : PartMessage F
  default_message = record {
    thrusters_coefficient = replicate 48 (whole 0);
    hand_coefficient = whole 0 ∷ [];
    maximum_motor_speed = 4000;
    motors_protocol = 1;
  }

  unfoldable pub read : Protobuf F → Exec (SettingsState F) Bytes
  unfolding default_message
  read pb s = if length s.file == 0 then pure (pb.serialize default_message) s else pure s.file s

  unfoldable pub settings_service : Protobuf F → ℕ → IService (SettingsState F)
  unfolding write_validate write read base_service
  settings_service pb id = record {
    service_id = id;
    read_validate = (base_service id).read_validate;
    write_validate = write_validate pb;
    write_read_validate = (base_service id).write_read_validate;
    read = read pb;
    write = write pb;
    write_read = (base_service id).write_read;
    connection_lost = (base_service id).connection_lost;
  }
