-- ===== src/Network/Session/Untouched.antt =====
-- The parts of a round of src/Lib/TcpSession/TcpSession.cpp that touch neither the services of a session
-- nor their state: all but the call of a service and the news that a client is gone.
use polar_uv_robot.Prelude.{ℕ, ◌≡◌, none, some, Option, Bytes, arith}
use polar_uv_robot.Network.Packet.{
  RequestType, w, wr, undefined, RequestHeader, Response, Code, response, parse_request_header,
}
use polar_uv_robot.Network.Buffer.{Zstd, ArrayView}
use polar_uv_robot.Network.Socket.{read_exactly}
use polar_uv_robot.Network.Session.{
  Session, ServiceMap, find_service, read_payload, receive_payload, read_request, send_response,
  copy_view, report, no_endpoint,
}
use polar_uv_robot.Network.Session.Preserves.{Preserves, Preserves-continue, Preserves-bind}
use polar_uv_robot.Network.Session.Serve.{request_data, compressed_body, send_compressed, reply}

module _ {ℓ κ} {S : Type ℓ} (Q : S → Type κ) where
  -- The session has these services, and the state is as it should be.
  abbrev pub Holds : ServiceMap S → Session S → Type (ℓ ⊔ κ)
  Holds services s = (s.services ≡ services) × Q s.state

  module _ (services : ServiceMap S) where
    receive_payload-Holds : (h : RequestHeader) → Preserves (Holds services) (receive_payload h)
    unfolding receive_payload read_payload
    receive_payload-Holds h s (e, q) = ground arith

    send_response-Holds : (x : Response) → Preserves (Holds services) (send_response x)
    unfolding send_response
    send_response-Holds x s (e, q) = ground arith

    copy_view-Holds : (v : ArrayView) → Preserves (Holds services) (copy_view v)
    unfolding copy_view
    copy_view-Holds v s (e, q) = ground arith

    pub find_service-Holds : (k : ℕ) → Preserves (Holds services) (find_service k)
    unfolding find_service
    find_service-Holds k s (e, q) = ground arith

    pub read_request-Holds : Preserves (Holds services) read_request
    unfolding read_request
    read_request-Holds s h =
        let k = read_exactly 24 s.socket in
        Preserves-continue (Holds services) k.0 _
          (λ bytes _.
            Preserves-bind (Holds services) (receive_payload (parse_request_header bytes)) _
              (receive_payload-Holds (parse_request_header bytes)) λ _ s' h'. h')
          (record s { socket = k.1 }) h

    pub report-Holds : (m : Bytes) (c : Option Code) → Preserves (Holds services) (report m c)
    unfolding report
    report-Holds m (some c) s h = send_response-Holds (response m c no_endpoint) s h
    report-Holds m none s h = h

    module _ (z : Zstd) where
      pub request_data-Holds : (h : RequestHeader) → Preserves (Holds services) (request_data z h)
      unfolding request_data
      request_data-Holds h s (e, q) = ground arith

      compressed_body-Holds : (x : Response) → Preserves (Holds services) (compressed_body z x)
      unfolding compressed_body
      compressed_body-Holds x s h = h

      send_compressed-Holds : (x : Response) → Preserves (Holds services) (send_compressed z x)
      unfolding send_compressed
      send_compressed-Holds x =
          Preserves-bind (Holds services) (compressed_body z x) _ (compressed_body-Holds x) λ v.
            Preserves-bind (Holds services) (copy_view v) _ (copy_view-Holds v)
              λ body. send_response-Holds (response body x.header.code x.header.length)

      pub reply-Holds : (t : RequestType) (x : Response) → Preserves (Holds services) (reply z t x)
      unfolding reply
      reply-Holds RequestType.r x = send_compressed-Holds x
      reply-Holds w x = send_response-Holds x
      reply-Holds wr x = send_compressed-Holds x
      reply-Holds (undefined n) x = send_response-Holds x
