-- ===== src/Network/Session/Heard.antt =====
-- src/Lib/TcpSession/TcpSession.cpp, `TcpSession::Start` up to the call of a service: the request that a round
-- carries out.
use polar_uv_robot.Prelude.{ℕ, none, some, Option}
use polar_uv_robot.Network.Packet.{RequestType, RequestHeader}
use polar_uv_robot.Network.Exec.{Outcome, returned, thrown, fault, Exec}
use polar_uv_robot.Network.Buffer.{Zstd, StringView, ArrayView, string_view}
use polar_uv_robot.Network.Service.{IService}
use polar_uv_robot.Network.Session.{Session, find_service, read_request}
use polar_uv_robot.Network.Session.Serve.{request_data}
use polar_uv_robot.Network.Exec.{pure, ◌>>=◌}

-- A request that reaches the service of its endpoint, with the data that the service gets.
pub record Request : Type 0 where
  pub endpoint_id : ℕ
  pub type : RequestType
  pub view : StringView

abbrev pub asked : Outcome Request → Option Request
asked (returned q) = some q
asked (thrown e) = none
asked fault = none

module _ {ℓ} {S : Type ℓ} where
  abbrev pub located : RequestHeader → ArrayView → IService S → Exec (Session S) Request
  located header v svc s =
      pure
        (record {
          endpoint_id = header.endpoint_id;
          type = header.type;
          view = string_view s.buffer v;
        })
        s

module _ {ℓ} {S : Type ℓ} (z : Zstd) where
  -- `Start` up to the call of the service.
  unfoldable pub hear : Exec (Session S) Request
  hear = do
    header ← read_request
    v ← request_data z header
    svc ← find_service header.endpoint_id
    located header v svc

  -- The request that the next round carries out.
  unfoldable pub heard : Session S → Option Request
  unfolding hear
  heard s = asked (hear s).0
