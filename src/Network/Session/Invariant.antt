-- ===== src/Network/Session/Invariant.antt =====
-- A statement about the state of the services that every operation of a service leaves true, under the requests of
-- src/Lib/TcpSession/TcpSession.cpp.
use polar_uv_robot.Prelude.{[], ◌∷◌, All}
use polar_uv_robot.Network.Packet.{RequestType, w, wr, undefined}
use polar_uv_robot.Network.Exec.{Outcome, returned, thrown, fault, Exec, continue}
use polar_uv_robot.Network.Buffer.{Zstd, StringView}
use polar_uv_robot.Network.Service.{IService, read_data, write_data, write_read_data, do_action}
use polar_uv_robot.Network.Session.{Session, ServiceMap}
use polar_uv_robot.Network.Session.Serve.{serve_one}
use polar_uv_robot.Network.Session.Untouched.{Holds}
use polar_uv_robot.Network.Session.Keeps.{Safe, Keeps, serve_one-Keeps}

module _ {ℓ κ} {S : Type ℓ} (Q : S → Type κ) where
  pub record IsSafe (svc : IService S) : Type (ℓ ⊔ κ) where
    pub read_validate : Safe Q svc.read_validate
    pub write_validate : (v : StringView) → Safe Q (svc.write_validate v)
    pub write_read_validate : (v : StringView) → Safe Q (svc.write_read_validate v)
    pub read : Safe Q svc.read
    pub write : (v : StringView) → Safe Q (svc.write v)
    pub write_read : (v : StringView) → Safe Q (svc.write_read v)
    pub connection_lost : (s : S) → Q s → Q (svc.connection_lost s)

  Safe-continue {μ ν} :
      {A : Type μ} {B : Type ν} (o : Outcome A) (f : A → Exec S B)
      → ((a : A) → Safe Q (f a))
      → Safe Q (continue o f)
  Safe-continue (returned a) f h s q = h a s q
  Safe-continue (thrown e) f h s q = q
  Safe-continue fault f h s q = q

  do_action-Safe :
      (svc : IService S)
      → IsSafe svc
      → (t : RequestType) (v : StringView) → Safe Q (do_action svc t v)
  unfolding do_action read_data write_data write_read_data
  do_action-Safe svc h RequestType.r v s q =
      Safe-continue (svc.read_validate s).0 _
        (λ _ s' q'. Safe-continue (svc.read s').0 _ (λ _ _ p. p) (svc.read s').1 (h.read s' q'))
        (svc.read_validate s).1 (h.read_validate s q)
  do_action-Safe svc h w v s q =
      Safe-continue (svc.write_validate v s).0 _
        (λ _ s' q'.
          Safe-continue (svc.write v s').0 _ (λ _ _ p. p) (svc.write v s').1 (h.write v s' q'))
        (svc.write_validate v s).1 (h.write_validate v s q)
  do_action-Safe svc h wr v s q =
      Safe-continue (svc.write_read_validate v s).0 _
        (λ _ s' q'.
          Safe-continue (svc.write_read v s').0 _ (λ _ _ p. p) (svc.write_read v s').1
            (h.write_read v s' q'))
        (svc.write_read_validate v s).1 (h.write_read_validate v s q)
  do_action-Safe svc h (undefined t) v s q = q

  IsSafe-Keeps : (svc : IService S) → IsSafe svc → Keeps Q svc
  IsSafe-Keeps svc h = record {
    do_action = λ t v. do_action-Safe svc h t v;
    connection_lost = h.connection_lost;
  }

  services-Keeps : (m : ServiceMap S) → All (λ e. IsSafe e.1) m → All (λ e. Keeps Q e.1) m
  services-Keeps [] a = tt
  services-Keeps ((k, svc) ∷ m) (h, a) = (IsSafe-Keeps svc h, services-Keeps m a)

  -- Whatever a client sends, and whether or not its request is carried out, a round keeps the
  -- services of the session, and leaves true what every operation of every service leaves true.
  pub serve_one-Holds :
      (services : ServiceMap S) (safe : All (λ e. IsSafe e.1) services) (z : Zstd) (s : Session S)
      → Holds Q services s
      → Holds Q services (serve_one z s).1
  serve_one-Holds services safe z s h =
      serve_one-Keeps Q services (services-Keeps services safe) z s h
