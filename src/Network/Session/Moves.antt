-- ===== src/Network/Session/Moves.antt =====
-- What one request does to the state of the services, under the loop of src/Lib/TcpSession/TcpSession.cpp: what
-- is true before it and after it, by the request that reaches a service, if any does.
use polar_uv_robot.Prelude.{
  ℕ, ◌≡◌, refl, none, some, Option, Option-cases, [], ◌∷◌, ◌==◌, Bool-cases, inl, inr, All, arith,
}
use polar_uv_robot.Network.Packet.{RequestType, RequestHeader}
use polar_uv_robot.Network.Exceptions.{
  connection_timeout, std_exception, unknown, exception_code, exception_message,
}
use polar_uv_robot.Network.Exec.{Outcome, returned, thrown, fault, Exec}
use polar_uv_robot.Network.Buffer.{Zstd, StringView, ArrayView, string_view}
use polar_uv_robot.Network.Service.{IService, do_action}
use polar_uv_robot.Network.Session.{
  Session, ServiceMap, lookup_service, find_service, read_request, notify_lost, catch_exception,
  handle, connection_lost, close_socket,
}
use polar_uv_robot.Network.Session.Preserves.{Preserves-continue}
use polar_uv_robot.Network.Session.Serve.{request_data, perform, reply, try_request, serve_one}
use polar_uv_robot.Network.Session.Heard.{Request, asked, located, heard}
use polar_uv_robot.Network.Session.Untouched.{
  Holds, read_request-Holds, find_service-Holds, report-Holds, request_data-Holds, reply-Holds,
}
use polar_uv_robot.Network.Exec.{pure, continue, ◌>>=◌}

module _ {ℓ κ μ} {S : Type ℓ} (P : S → Type κ) (R : Option Request → S → Type μ) where
  -- What is true before a round, and what is true after it, by the request that it carries out.
  pub record Moves (services : ServiceMap S) : Type (ℓ ⊔ κ ⊔ μ) where
    pub unheard : (x : S) → P x → R none x
    pub acted :
        All
          (λ e.
            (t : RequestType) (v : StringView) (x : S)
            → P x
            → R (some (record { endpoint_id = e.0; type = t; view = v })) (do_action e.1 t v x).1)
          services
    pub lost :
        (a : Option Request) → All (λ e. (x : S) → R a x → R a (e.1.connection_lost x)) services

  module _ (services : ServiceMap S) (h : Moves services) (z : Zstd) where
    lookup_service-acted :
        (k : ℕ) (m : ServiceMap S) (svc : IService S)
        → All
            (λ e.
              (t : RequestType) (v : StringView) (x : S)
              → P x
              → R (some (record { endpoint_id = e.0; type = t; view = v })) (do_action e.1 t v x).1)
            m
        → lookup_service k m ≡ some svc
        → (t : RequestType) (v : StringView) (x : S) → P x
        → R (some (record { endpoint_id = k; type = t; view = v })) (do_action svc t v x).1
    unfolding lookup_service
    lookup_service-acted k [] svc a e t v x q = cc
    lookup_service-acted k ((j, other) ∷ m) svc (here, a) e t v x q = elim (Bool-cases (j == k)) [
      | inl eq ↦
          let same : other ≡ svc = ground arith in
          let key : j ≡ k = grind arith in rw (← same, ← key) (here t v x q)
      | inr ne ↦
          let rest : lookup_service k m ≡ some svc = ground arith in
          lookup_service-acted k m svc a rest t v x q
    ]

    notify_lost-moved :
        (a : Option Request) (m : ServiceMap S)
        → All (λ e. (x : S) → R a x → R a (e.1.connection_lost x)) m
        → (x : S) → R a x
        → R a (notify_lost m x)
    unfolding notify_lost
    notify_lost-moved a [] l x q = q
    notify_lost-moved a ((k, svc) ∷ m) (l, ls) x q =
        notify_lost-moved a m ls (svc.connection_lost x) (l x q)

    handle-moved :
        (a : Option Request) (out : Outcome (Unit {0})) (s : Session S)
        → Holds (R a) services s
        → Holds (R a) services (handle out s).1
    unfolding handle catch_exception connection_lost close_socket
    handle-moved a (returned _) s q = q
    handle-moved a (thrown connection_timeout) s q = q
    handle-moved a (thrown (std_exception m)) s (e, q) =
        (e, rw e (notify_lost-moved a services (h.lost a) s.state q))
    handle-moved a (thrown unknown) s (e, q) =
        (e, rw e (notify_lost-moved a services (h.lost a) s.state q))
    handle-moved a (thrown x) s q =
        report-Holds (R a) services (exception_message x) (exception_code x) s q
    handle-moved a fault s q = q

    nothing : (s : Session S) → Holds P services s → Holds (R none) services s
    nothing s (e, q) = (e, h.unheard s.state q)

    served :
        (k : ℕ) (t : RequestType) (v : ArrayView) (svc : IService S) (s : Session S)
        → lookup_service k services ≡ some svc
        → Holds P services s
        → (let a : Option Request =
              some (record { endpoint_id = k; type = t; view = string_view s.buffer v }) in
            Holds (R a) services ((perform z svc t v >>= reply z t) s).1)
    unfolding perform
    served k t v svc s found (e, q) =
        let a : Option Request =
          some (record { endpoint_id = k; type = t; view = string_view s.buffer v }) in
        let moved =
          lookup_service-acted k services svc h.acted found t (string_view s.buffer v) s.state q in
        Preserves-continue (Holds (R a) services) (perform z svc t v s).0 (reply z t)
          (λ x _. reply-Holds (R a) services z t x) (perform z svc t v s).1 (e, moved)

    after_find :
        (k : ℕ) (t : RequestType) (v : ArrayView) (o : Outcome (IService S)) (s : Session S)
        → ((svc : IService S) → o ≡ returned svc → lookup_service k services ≡ some svc)
        → Holds P services s
        → (let next : IService S → Exec (Session S) Request = λ svc s.
              pure (record { endpoint_id = k; type = t; view = string_view s.buffer v }) s in
            Holds
              (R (asked (continue o next s).0))
              services
              (continue o (λ svc. perform z svc t v >>= reply z t) s).1)
    after_find k t v (returned svc) s found q = served k t v svc s (found svc refl) q
    after_find k t v (thrown e) s found q = nothing s q
    after_find k t v fault s found q = nothing s q

    find_service-returned :
        (k : ℕ) (s : Session S) (svc : IService S)
        → Holds P services s
        → (find_service k s).0 ≡ returned svc
        → lookup_service k services ≡ some svc
    unfolding find_service
    find_service-returned k s svc (e, q) f = elim (Option-cases (lookup_service k s.services)) [
      | inl n ↦ ground arith
      | inr n ↦ ground arith
    ]

    after_data :
        (header : RequestHeader) (o : Outcome ArrayView) (s : Session S)
        → Holds P services s
        → Holds
            (R (asked (continue o (λ v. find_service header.endpoint_id >>= located header v) s).0))
            services
            (continue o
              (λ v. do
                svc ← find_service header.endpoint_id
                x ← perform z svc header.type v
                reply z header.type x)
              s).1
    after_data header (returned v) s q =
        let k = header.endpoint_id in
        after_find k header.type v (find_service k s).0 (find_service k s).1
          (λ svc f. find_service-returned k s svc q f) (find_service-Holds P services k s q)
    after_data header (thrown e) s q = nothing s q
    after_data header fault s q = nothing s q

    after_header :
        (o : Outcome RequestHeader) (s : Session S)
        → Holds P services s
        → Holds
            (R (
              asked
                (continue o
                  (λ header. do
                    v ← request_data z header
                    svc ← find_service header.endpoint_id
                    located header v svc)
                  s).0))
            services
            (continue o
              (λ header. do
                v ← request_data z header
                svc ← find_service header.endpoint_id
                x ← perform z svc header.type v
                reply z header.type x)
              s).1
    after_header (returned header) s q =
        after_data header (request_data z header s).0 (request_data z header s).1
          (request_data-Holds P services z header s q)
    after_header (thrown e) s q = nothing s q
    after_header fault s q = nothing s q

    -- Before a round the state is as it should be. Then the services stay, and the state is as it should
    -- be after the request that the round carries out, or after none, whatever the client sends.
    pub serve_one-Moves :
        (s : Session S) → Holds P services s → Holds (R (heard z s)) services (serve_one z s).1
    unfolding serve_one try_request heard
    serve_one-Moves s q =
        let out = try_request z s in
        handle-moved (heard z s) out.0 out.1
          (after_header (read_request s).0 (read_request s).1 (read_request-Holds P services s q))
