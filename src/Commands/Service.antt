-- ===== src/Commands/Service.antt =====
-- src/Robot/Features/Commands/Commands.cpp: the service that takes the operator's commands. A value
-- of type `float` is read from its four bytes by a parameter.
use polar_uv_robot.Prelude.{
  ℕ, zero, suc, ◌+◌, ◌≡◌, ◌≢◌, none, some, false, refl, not, List, [], ◌∷◌, Bytes, utf8, ltb, ◌==◌,
  if◌then◌else◌, length, get_or, take, drop, arith,
}
use polar_uv_robot.Real.{Real}
use polar_uv_robot.Network.Packet.{response, no_content}
use polar_uv_robot.Network.Exceptions.{Exception, transfer_error}
use polar_uv_robot.Network.Exec.{Exec, returned, thrown, pure, throw, crash}
use polar_uv_robot.Network.Buffer.{StringView, view_of}
use polar_uv_robot.Network.Service.{IService, base_service, not_empty, write_data}
use polar_uv_robot.Commands.Struct.{CommandsStruct, no_commands}
use polar_uv_robot.Commands.Pid.{Quad}
use polar_uv_robot.Commands.Queue.{
  CommandsQueue, add_commands, get_commands, requests, max_count, get_commands-add_commands,
}

-- `sizeof(CommandsStruct)`: 6 + 6 + 4 floats, the Boolean with three bytes of padding, and 4 floats.
abbrev pub commands_struct_size : ℕ
commands_struct_size = 84

abbrev pub size_mismatch : Exception
unfolding utf8
size_mismatch = transfer_error (utf8 "data.size() and sizeof(CommandsStruct) mismatch")

module _ {ℓ} {F : Type ℓ} ⦃f : Real F⦄ (float_of : Bytes → F) where
  unfoldable pub floats_of : ℕ → Bytes → List F
  floats_of zero bs = []
  floats_of (suc n) bs = float_of (take 4 bs) ∷ floats_of n (drop 4 bs)

  unfoldable pub quad_of : Bytes → Quad F
  quad_of bs = record {
    e0 = float_of (take 4 bs);
    e1 = float_of (take 4 (drop 4 bs));
    e2 = float_of (take 4 (drop 8 bs));
    e3 = float_of (take 4 (drop 12 bs));
  }

  -- `*((const CommandsStruct *) data.data())`
  unfoldable pub commands_of : Bytes → CommandsStruct F
  unfolding floats_of quad_of
  commands_of bs = record {
    move = floats_of 6 bs;
    hand = floats_of 6 (drop 24 bs);
    low_pwm = floats_of 4 (drop 48 bs);
    stabilization = not (get_or bs 64 0 == 0);
    stabilization_target = quad_of (drop 68 bs);
  }

  unfoldable pub write : StringView → Exec (CommandsQueue F) (Unit {0})
  unfolding commands_of add_commands
  write v q =
      if v.size == commands_struct_size
      then elim v.bytes [ none ↦ crash q | some bs ↦ pure tt (add_commands (commands_of bs) q) ]
      else throw size_mismatch q

  unfoldable pub commands_service : ℕ → IService (CommandsQueue F)
  unfolding write base_service
  commands_service id = record {
    service_id = id;
    read_validate = (base_service id).read_validate;
    write_validate = (base_service id).write_validate;
    write_read_validate = (base_service id).write_read_validate;
    read = (base_service id).read;
    write = write;
    write_read = (base_service id).write_read;
    connection_lost = (base_service id).connection_lost;
  }

  -- A write request of the size of the struct is answered without content, and the next 399 requests of
  -- the loop get the commands in it, whatever was in the queue; from the 400th on the loop gets the
  -- commands that stand still.
  pub get_commands-write_data :
      (id : ℕ) (bs : Bytes) (q : CommandsQueue F) (n : ℕ)
      → length bs ≡ commands_struct_size
      → (let after = write_data (commands_service id) (view_of bs) q in
          (after.0 ≡ returned (response (utf8 "") no_content id))
          × ((get_commands (requests n after.1)).0
              ≡ (if ltb (n + 1) max_count then commands_of bs else no_commands)))
  unfolding write_data commands_service write base_service not_empty
  get_commands-write_data id bs q n h =
      rw (h, get_commands-add_commands (commands_of bs) q n) (refl, refl)

  -- A write request of any other size throws and leaves the queue as it is.
  pub write_data_mismatch :
      (id : ℕ) (bs : Bytes) (q : CommandsQueue F)
      → length bs ≢ commands_struct_size
      → length bs ≢ 0
      → write_data (commands_service id) (view_of bs) q ≡ (thrown size_mismatch, q)
  unfolding write_data commands_service write base_service not_empty
  write_data_mismatch id bs q h k =
      let e1 : (length bs == 0) ≡ false = grind arith in
      let e2 : (length bs == commands_struct_size) ≡ false = grind arith in rw (e1, e2)
