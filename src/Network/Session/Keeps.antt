-- ===== src/Network/Session/Keeps.antt =====
-- A statement about the state of the services that the requests of each service leave true, under those of
-- src/Lib/TcpSession/TcpSession.cpp.
use polar_uv_robot.Prelude.{[], ◌∷◌, All}
use polar_uv_robot.Network.Packet.{RequestType}
use polar_uv_robot.Network.Exec.{Exec}
use polar_uv_robot.Network.Buffer.{Zstd, StringView}
use polar_uv_robot.Network.Service as Service
use polar_uv_robot.Network.Service.{IService}
use polar_uv_robot.Network.Session.{Session, ServiceMap}
use polar_uv_robot.Network.Session.Untouched.{Holds}
use polar_uv_robot.Network.Session.Moves.{Moves, serve_one-Moves}
use polar_uv_robot.Network.Session.Serve.{serve_one}

module _ {ℓ κ} {S : Type ℓ} (Q : S → Type κ) where
  -- An operation leaves `Q` true, whatever its outcome.
  abbrev pub Safe {μ} : {A : Type μ} → Exec S A → Type (ℓ ⊔ κ)
  Safe m = (s : S) → Q s → Q (m s).1

  -- A request as a whole, and the loss of a client, leave `Q` true.
  pub record Keeps (svc : IService S) : Type (ℓ ⊔ κ) where
    pub do_action : (t : RequestType) (v : StringView) → Safe (Service.do_action svc t v)
    pub connection_lost : (s : S) → Q s → Q (svc.connection_lost s)

  All-Moves : (services : ServiceMap S) → All (λ e. Keeps e.1) services → Moves Q (λ _. Q) services
  All-Moves [] h = record { unheard = λ x q. q; acted = tt; lost = λ a. tt }
  All-Moves ((k, svc) ∷ m) (h, hs) =
      let rest = All-Moves m hs in
      record {
        unheard = λ x q. q;
        acted = (λ t v x q. h.do_action t v x q, rest.acted);
        lost = λ a. (h.connection_lost, rest.lost a);
      }

  -- Whatever a client sends, and whether or not its request is carried out, a round keeps the services of
  -- the session, and leaves true what the requests of every service, and the loss of a client, leave
  -- true.
  pub serve_one-Keeps :
      (services : ServiceMap S)
      → All (λ e. Keeps e.1) services
      → (z : Zstd) (s : Session S) → Holds Q services s
      → Holds Q services (serve_one z s).1
  serve_one-Keeps services safe z s h =
      serve_one-Moves Q (λ _. Q) services (All-Moves services safe) z s h
