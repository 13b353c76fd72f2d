-- ===== src/Network/Session/Stages.antt =====
-- One round of src/Lib/TcpSession/TcpSession.cpp, put together from the outcomes of its stages.
use polar_uv_robot.Prelude.{ℕ, ◌≡◌, some, none, utf8}
use polar_uv_robot.Network.Packet.{RequestType, RequestHeader, Response}
use polar_uv_robot.Network.Exceptions.{Exception, not_fount}
use polar_uv_robot.Network.Exec.{Outcome, returned, thrown, fault, continue}
use polar_uv_robot.Network.Buffer.{Zstd, ArrayView, string_view}
use polar_uv_robot.Network.Service.{IService, do_action}
use polar_uv_robot.Network.Session.{
  Session, set_state, lookup_service, find_service, read_request, handle,
}
use polar_uv_robot.Network.Session.Heard.{hear, heard}
use polar_uv_robot.Network.Session.Serve.{request_data, perform, reply, try_request, serve_one}

module _ {ℓ} {S : Type ℓ} where
  find_service-none :
      (k : ℕ) (s : Session S)
      → lookup_service k s.services ≡ none
      → find_service k s ≡ (thrown (not_fount (utf8 "Endpoint not found")), s)
  unfolding find_service
  find_service-none k s e = rw (e, find_service)

  find_service-some :
      (k : ℕ) (s : Session S) (svc : IService S)
      → lookup_service k s.services ≡ some svc
      → find_service k s ≡ (returned svc, s)
  unfolding find_service
  find_service-some k s svc e = rw (e, find_service)

  perform_lem :
      (z : Zstd) (svc : IService S) (t : RequestType) (v : ArrayView) (s : Session S)
      (o : Outcome Response) (y : S)
      → do_action svc t (string_view s.buffer v) s.state ≡ (o, y)
      → perform z svc t v s ≡ (o, set_state y s)
  unfolding perform
  perform_lem z svc t v s o y e = rw (e, perform)

module _ {ℓ} {S : Type ℓ} (z : Zstd) (s : Session S) where
  -- The read of the request fails.
  pub serve_one_unread :
      (x : Exception) (s' : Session S)
      → read_request s ≡ (thrown x, s')
      → serve_one z s ≡ handle (thrown x) s'
  unfolding serve_one try_request
  serve_one_unread x s' e = rw (e, continue)

  module _ (h : RequestHeader) (s₁ : Session S) (read : read_request s ≡ (returned h, s₁)) where
    -- The decompression fails.
    pub serve_one_unpacked :
        (x : Exception) (s' : Session S)
        → request_data z h s₁ ≡ (thrown x, s')
        → serve_one z s ≡ handle (thrown x) s'
    unfolding serve_one try_request
    serve_one_unpacked x s' e = rw (read, continue, e, continue)

    module _ (v : ArrayView) (s₂ : Session S)
        (unpacked : request_data z h s₁ ≡ (returned v, s₂)) where
      -- No service has the endpoint.
      pub serve_one_unknown :
          lookup_service h.endpoint_id s₂.services ≡ none
          → serve_one z s ≡ handle (thrown (not_fount (utf8 "Endpoint not found"))) s₂
      unfolding serve_one try_request
      serve_one_unknown e =
          rw (read, continue, unpacked, continue, find_service-none h.endpoint_id s₂ e)

      module _ (svc : IService S)
          (found : lookup_service h.endpoint_id s₂.services ≡ some svc) where
        -- The request that the round carries out.
        pub heard_lem :
            heard z s
            ≡ some (record {
              endpoint_id = h.endpoint_id;
              type = h.type;
              view = string_view s₂.buffer v;
            })
        unfolding heard hear
        heard_lem =
            rw (read, continue, unpacked, continue, find_service-some h.endpoint_id s₂ svc found)

        -- The service throws.
        pub serve_one_thrown :
            (x : Exception) (y : S)
            → do_action svc h.type (string_view s₂.buffer v) s₂.state ≡ (thrown x, y)
            → serve_one z s ≡ handle (thrown x) (set_state y s₂)
        unfolding serve_one try_request
        serve_one_thrown x y e = rw (
          read,
          continue,
          unpacked,
          continue,
          find_service-some h.endpoint_id s₂ svc found,
          continue,
          perform_lem z svc h.type v s₂ (thrown x) y e,
        )

        -- The service reads past the end of its argument.
        pub serve_one_fault :
            (y : S)
            → do_action svc h.type (string_view s₂.buffer v) s₂.state ≡ (fault, y)
            → serve_one z s ≡ (fault, set_state y s₂)
        unfolding serve_one try_request handle
        serve_one_fault y e = rw (
          read,
          continue,
          unpacked,
          continue,
          find_service-some h.endpoint_id s₂ svc found,
          continue,
          perform_lem z svc h.type v s₂ fault y e,
        )

        -- The service returns, and the reply is sent.
        pub serve_one_answered :
            (x : Response) (y : S) (s₃ : Session S)
            → do_action svc h.type (string_view s₂.buffer v) s₂.state ≡ (returned x, y)
            → reply z h.type x (set_state y s₂) ≡ (returned tt, s₃)
            → serve_one z s ≡ (returned tt, s₃)
        unfolding serve_one try_request handle
        serve_one_answered x y s₃ e f = rw (
          read,
          continue,
          unpacked,
          continue,
          find_service-some h.endpoint_id s₂ svc found,
          continue,
          perform_lem z svc h.type v s₂ (returned x) y e,
          continue,
          f,
        )
