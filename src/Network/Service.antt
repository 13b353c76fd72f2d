-- ===== src/Network/Service.antt =====
-- src/Lib/TcpSession/TcpSession.hpp and TcpSession.cpp: the interface `IService`, with its virtual
-- functions as fields over a state of type `S`, and the calls that the session makes through it.
use polar_uv_robot.Prelude.{ℕ, Bool, true, Bytes, utf8, ◌==◌, if◌then◌else◌}
use polar_uv_robot.Network.Packet.{
  RequestType, r, w, wr, undefined, Response, response, ok, no_content,
}
use polar_uv_robot.Network.Exceptions.{not_fount, transfer_error}
use polar_uv_robot.Network.Exec.{Exec, pure, throw, ◌>>=◌, ◌>>◌}
use polar_uv_robot.Network.Buffer.{StringView}

pub record IService {ℓ} (S : Type ℓ) : Type ℓ where
  pub service_id : ℕ
  pub read_validate : Exec S Bool
  pub write_validate : StringView → Exec S Bool
  pub write_read_validate : StringView → Exec S Bool
  pub read : Exec S Bytes
  pub write : StringView → Exec S (Unit {0})
  pub write_read : StringView → Exec S Bytes
  pub connection_lost : S → S

module _ {ℓ} {S : Type ℓ} where
  unfoldable pub no_such_method {κ} : {A : Type κ} → Exec S A
  unfolding utf8
  no_such_method = throw (not_fount (utf8 "Данный метод не существует"))

  -- `WriteValidate` and `WriteReadValidate` of the base class
  unfoldable pub not_empty : StringView → Exec S Bool
  unfolding utf8
  not_empty v = if v.size == 0 then throw (transfer_error (utf8 "Data is empty")) else pure true

  -- What a service inherits where it overrides nothing.
  unfoldable pub base_service : ℕ → IService S
  unfolding no_such_method not_empty
  base_service id = record {
    service_id = id;
    read_validate = pure true;
    write_validate = not_empty;
    write_read_validate = not_empty;
    read = no_such_method;
    write = λ _. no_such_method;
    write_read = λ _. no_such_method;
    connection_lost = λ s. s;
  }

  -- The result of a validation is dropped; only its exceptions count.
  unfoldable pub read_data : IService S → Exec S Response
  unfolding response
  read_data svc = do svc.read_validate; out ← svc.read; pure (response out ok svc.service_id)

  unfoldable pub write_data : IService S → StringView → Exec S Response
  unfolding response utf8
  write_data svc v = do
    svc.write_validate v
    svc.write v
    pure (response (utf8 "") no_content svc.service_id)

  unfoldable pub write_read_data : IService S → StringView → Exec S Response
  unfolding response
  write_read_data svc v = do
    svc.write_read_validate v
    out ← svc.write_read v
    pure (response out ok svc.service_id)

  unfoldable pub do_action : IService S → RequestType → StringView → Exec S Response
  unfolding read_data write_data write_read_data utf8
  do_action svc r v = read_data svc
  do_action svc w v = write_data svc v
  do_action svc wr v = write_read_data svc v
  do_action svc (undefined t) v = throw (not_fount (utf8 "[REQUEST NOT FOUND]"))
