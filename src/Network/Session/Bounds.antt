-- ===== src/Network/Session/Bounds.antt =====
-- No round of src/Lib/TcpSession/TcpSession.cpp writes past the end of its buffer. In the model such a
-- write would make the list longer than the array.
use polar_uv_robot.Prelude.{ℕ, ◌-◌, ◌≤◌, ◌≡◌, arith, length, take, length-take}
use polar_uv_robot.Network.Packet.{
  RequestType, w, wr, undefined, RequestHeader, parse_request_header, Response, response,
}
use polar_uv_robot.Network.Exceptions.{connection_timeout}
use polar_uv_robot.Network.Exec.{Outcome, returned, thrown, fault, Exec}
use polar_uv_robot.Network.Buffer.{Zstd, buffer_size, capacity, ArrayView, decompress, compress}
use polar_uv_robot.Network.Buffer.Zlaws.{IsZstd, length-write_at}
use polar_uv_robot.Network.Service.{IService}
use polar_uv_robot.Network.Socket.{read_exactly}
use polar_uv_robot.Network.Session.{
  Session, find_service, read_payload, receive_payload, read_request, send_response, copy_view,
  catch_exception, handle,
}
use polar_uv_robot.Network.Session.Preserves.{Preserves, Preserves-continue, Preserves-bind}
use polar_uv_robot.Network.Session.Serve.{
  request_data, perform, compressed_body, send_compressed, reply, try_request, serve_one,
}

module _ {ℓ} {S : Type ℓ} where
  -- The buffer has the size of the array.
  abbrev pub IsFull : Session S → Type 0
  IsFull s = length s.buffer ≡ capacity

  abbrev Keeps {κ} : {A : Type κ} → Exec (Session S) A → Type ℓ
  Keeps m = Preserves IsFull m

  find_service-Keeps : (k : ℕ) → Keeps (find_service k)
  unfolding find_service
  find_service-Keeps k s full = ground arith

  send_response-Keeps : (x : Response) → Keeps (send_response x)
  unfolding send_response
  send_response-Keeps x s full = ground arith

  copy_view-Keeps : (v : ArrayView) → Keeps (copy_view v)
  unfolding copy_view
  copy_view-Keeps v s full = ground arith

  handle-Keeps : (out : Outcome (Unit {0})) → Keeps (handle out)
  unfolding handle catch_exception
  handle-Keeps (returned _) s full = full
  handle-Keeps (thrown connection_timeout) s full = full
  handle-Keeps (thrown x) s full = ground arith
  handle-Keeps fault s full = full

  receive_payload-Keeps : (h : RequestHeader) → Keeps (receive_payload h)
  unfolding receive_payload read_payload
  receive_payload-Keeps h s full = ground (
    arith,
    length-write_at 0 (take h.length s.socket.input) s.buffer,
    length-take h.length s.socket.input,
  )

  read_request-Keeps : Keeps read_request
  unfolding read_request
  read_request-Keeps s full =
      let k = read_exactly 24 s.socket in
      Preserves-continue IsFull k.0 _
        (λ bytes _.
          Preserves-bind IsFull (receive_payload (parse_request_header bytes)) _
            (receive_payload-Keeps (parse_request_header bytes)) λ _ s' full'. full')
        (record s { socket = k.1 }) full

  -- A header that was accepted names a payload that fits.
  read_request-small :
      (s : Session S) (h : RequestHeader) → (read_request s).0 ≡ returned h → h.length ≤ buffer_size
  unfolding read_request receive_payload
  read_request-small s h e = ground arith

module _ {ℓ} {S : Type ℓ} (z : Zstd) (laws : IsZstd z) where
  request_data-Keeps :
      (h : RequestHeader) → h.length ≤ buffer_size → Keeps {S = S} (request_data z h)
  unfolding request_data decompress
  request_data-Keeps h l s full =
      let input = take h.length s.buffer in
      ground (
        arith,
        laws.decompress_fits (capacity - h.length) input,
        length-write_at h.length (z.decompress (capacity - h.length) input).0 s.buffer,
      )

  compressed_body-Keeps : (x : Response) → Keeps {S = S} (compressed_body z x)
  unfolding compressed_body compress
  compressed_body-Keeps x s full = ground (
    arith,
    laws.compress_fits capacity x.body 22,
    length-write_at 0 (z.compress capacity x.body 22).0 s.buffer,
  )

  send_compressed-Keeps : (x : Response) → Keeps {S = S} (send_compressed z x)
  unfolding send_compressed
  send_compressed-Keeps x =
      Preserves-bind IsFull (compressed_body z x) _ (compressed_body-Keeps x) λ v.
        Preserves-bind IsFull (copy_view v) _ (copy_view-Keeps v)
          λ body. send_response-Keeps (response body x.header.code x.header.length)

  reply-Keeps : (t : RequestType) (x : Response) → Keeps {S = S} (reply z t x)
  unfolding reply
  reply-Keeps RequestType.r x = send_compressed-Keeps x
  reply-Keeps w x = send_response-Keeps x
  reply-Keeps wr x = send_compressed-Keeps x
  reply-Keeps (undefined n) x = send_response-Keeps x

  perform-Keeps : (svc : IService S) (t : RequestType) (v : ArrayView) → Keeps (perform z svc t v)
  unfolding perform
  perform-Keeps svc t v s full = full

  try_request-Keeps : Keeps {S = S} (try_request z)
  unfolding try_request
  try_request-Keeps s full =
      Preserves-continue IsFull (read_request s).0 _
        (λ h e.
          Preserves-bind IsFull (request_data z h) _
            (request_data-Keeps h (read_request-small s h e))
            λ v.
              Preserves-bind IsFull (find_service h.endpoint_id) _
                (find_service-Keeps h.endpoint_id)
                λ svc.
                  Preserves-bind IsFull (perform z svc h.type v) _ (perform-Keeps svc h.type v)
                    (reply-Keeps h.type))
        (read_request s).1 (read_request-Keeps s full)

  -- Whatever comes in, and whatever a service does or throws, a round leaves the buffer with its size,
  -- if it had it before and zstd keeps to the capacity that it is given.
  pub serve_one-IsFull : (s : Session S) → IsFull s → IsFull (serve_one z s).1
  unfolding serve_one
  serve_one-IsFull s full =
      handle-Keeps (try_request z s).0 (try_request z s).1 (try_request-Keeps s full)
