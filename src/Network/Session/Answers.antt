-- ===== src/Network/Session/Answers.antt =====
-- The answers of src/Lib/TcpSession/TcpSession.cpp to requests that a service accepts, byte by byte.
use polar_uv_robot.Prelude.{
  ap, ℕ, suc, ◌+◌, ◌≤◌, ◌<◌, ◌≡◌, ◌∙◌, refl, Bool, some, [], ◌++◌, arith, Bytes, utf8, length, drop,
}
use polar_uv_robot.Network.Packet.{
  size_mod, response, ok, no_content, request_type, RequestHeader, r, w, wr,
}
use polar_uv_robot.Network.Packet.Layout.{request_bytes}
use polar_uv_robot.Network.Exec.{returned, continue}
use polar_uv_robot.Network.Buffer.{
  Zstd, buffer_size, capacity, decompress, string_view, view_of, write_at, ArrayView,
}
use polar_uv_robot.Network.Buffer.Zlaws.{
  IsZstd, length-write_at, string_view-write_at, decompress_lem,
}
use polar_uv_robot.Network.Service.{IService, do_action, read_data, write_data, write_read_data}
use polar_uv_robot.Network.Session.{Session, set_state, lookup_service}
use polar_uv_robot.Network.Session.Heard.{heard}
use polar_uv_robot.Network.Session.Serve.{request_data, reply, serve_one}
use polar_uv_robot.Network.Session.Stages.{serve_one_answered, heard_lem}
use polar_uv_robot.Network.Session.Requests.{
  received, read_request_lem, answered, send_response_lem, packed, send_compressed_lem,
}

-- The state in which the service is called for a payload that is the compressed form of `x`: the
-- payload and, behind it, `x` in the buffer.
unfoldable pub unpacked {ℓ} : {S : Type ℓ} → Zstd → Bytes → Bytes → Session S → Session S
unfolding received
unpacked z x rest s = record (received (packed z x) rest s) {
  buffer = write_at (length (packed z x)) x (write_at 0 (packed z x) s.buffer);
}

module _ {ℓ} {S : Type ℓ} (z : Zstd) (laws : IsZstd z) (s : Session S) (svc : IService S) (e : ℕ)
    (rest : Bytes) (n : ℕ) (id_fits : e < size_mod) (found : lookup_service e s.services ≡ some svc)
    (can_write : s.socket.writes_left ≡ suc n) where
  -- A read request: if the endpoint is registered, its validation and its `Read` succeed, and the
  -- result can be compressed, and the client still takes a write, then the header is consumed,
  -- the service is called once, and the client is sent the header and the compressed result. The
  -- field for the endpoint holds the length of the result before compression.
  pub serve_one-read :
      (v : Bool) (out : Bytes) (x y : S)
      → s.socket.input ≡ request_bytes 0 e 0 ++ rest
      → svc.read_validate s.state ≡ (returned v, x)
      → svc.read x ≡ (returned out, y)
      → z.compress_bound (length out) ≤ capacity
      → serve_one z s ≡ (
        returned tt,
        answered
            (response (packed z out) ok (length out))
            n
            (record (received (packed z out) rest s) { state = y }),
      )
  unfolding received response request_type answered reply do_action read_data request_data write_at
  serve_one-read v out x y input valid read bound =
      let h : RequestHeader = record { type = r; endpoint_id = e; length = 0 } in
      let s₁ : Session S = received [] rest s in
      let none_yet : ArrayView = record { offset = 0; size = 0 } in
      serve_one_answered z s h s₁
        (read_request_lem s 0 e [] rest (omega arith) id_fits (omega arith) input) none_yet s₁ refl
        svc found (response out ok svc.service_id) y _ (rw (valid, continue, read))
        (send_compressed_lem z laws (response out ok svc.service_id) (set_state y s₁) n bound
          can_write)

  -- A payload that is the compressed form of `x`, and what the round knows of it.
  module _ (x : Bytes) (full : length s.buffer ≡ capacity)
      (bound : z.compress_bound (length x) ≤ capacity) (small : length (packed z x) ≤ buffer_size)
      (fits : length x + length (packed z x) ≤ capacity) where
    abbrev content : ArrayView
    content = record { offset = length (packed z x); size = length x }

    still_full : length (write_at 0 (packed z x) s.buffer) ≡ capacity
    still_full = length-write_at 0 (packed z x) s.buffer (omega arith) ∙ full

    unpack :
        decompress z (length (packed z x)) (write_at 0 (packed z x) s.buffer)
        ≡ (returned content, write_at (length (packed z x)) x (write_at 0 (packed z x) s.buffer))
    unfolding packed write_at
    unpack =
        decompress_lem z laws x (drop (0 + length (packed z x)) s.buffer)
          (write_at 0 (packed z x) s.buffer) refl still_full bound fits

    view : string_view (unpacked z x rest s).buffer content ≡ view_of x
    unfolding unpacked
    view =
        string_view-write_at (length (packed z x)) x (write_at 0 (packed z x) s.buffer)
          (omega (arith, still_full))

    -- A write request: if the payload is the compressed form of `x`, small enough for the buffer,
    -- and the validation and the `Write` of the registered service accept `x`, and the client
    -- still takes a write, then the service is given exactly `x`, the request is consumed, and
    -- the client is sent `NoContent` with the service's id.
    pub serve_one-write :
        (v : Bool) (y t : S)
        → s.socket.input ≡ request_bytes 1 e (length (packed z x)) ++ (packed z x ++ rest)
        → svc.write_validate (view_of x) s.state ≡ (returned v, y)
        → svc.write (view_of x) y ≡ (returned tt, t)
        → serve_one z s ≡ (
          returned tt,
          answered
              (response (utf8 "") no_content svc.service_id)
              n
              (record (unpacked z x rest s) { state = t }),
        )
    unfolding request_type reply do_action write_data request_data received unpacked
    serve_one-write v y t input valid written =
        let h : RequestHeader = record {
          type = w;
          endpoint_id = e;
          length = length (packed z x);
        } in
        serve_one_answered z s h (received (packed z x) rest s)
          (read_request_lem s 1 e (packed z x) rest (omega arith) id_fits small input) content
          (unpacked z x rest s) (rw unpack) svc found (response (utf8 "") no_content svc.service_id)
          t _ (rw (view, valid, continue, written))
          (send_response_lem (utf8 "") no_content svc.service_id n
            (set_state t (unpacked z x rest s)) can_write)

    -- The request that the round carries out is the one on the socket, with `x` as its data.
    pub heard-write :
        s.socket.input ≡ request_bytes 1 e (length (packed z x)) ++ (packed z x ++ rest)
        → heard z s ≡ some (record { endpoint_id = e; type = w; view = view_of x })
    unfolding request_type request_data received unpacked
    heard-write input =
        let h : RequestHeader = record {
          type = w;
          endpoint_id = e;
          length = length (packed z x);
        } in
        heard_lem z s h (received (packed z x) rest s)
          (read_request_lem s 1 e (packed z x) rest (omega arith) id_fits small input) content
          (unpacked z x rest s) (rw unpack) svc found
        ∙ ap (λ y. some (record { endpoint_id = e; type = w; view = y })) view

    -- A write-read request of a client that still takes a write: if the payload is the compressed
    -- form of `x`, small enough for the buffer, the validation and the `WriteRead` of the
    -- registered service accept `x`, and the result can be compressed, then the service is given
    -- exactly `x`, the request is consumed, and the client is sent the header and the compressed
    -- result. The field for the endpoint holds the length of the result before compression.
    pub serve_one-write_read :
        (v : Bool) (out : Bytes) (y t : S)
        → s.socket.input ≡ request_bytes 2 e (length (packed z x)) ++ (packed z x ++ rest)
        → svc.write_read_validate (view_of x) s.state ≡ (returned v, y)
        → svc.write_read (view_of x) y ≡ (returned out, t)
        → z.compress_bound (length out) ≤ capacity
        → serve_one z s ≡ (
          returned tt,
          answered (response (packed z out) ok (length out)) n (record (unpacked z x rest s) {
            state = t;
            buffer = write_at 0 (packed z out) (unpacked z x rest s).buffer;
          }),
        )
    unfolding request_type reply do_action write_read_data request_data received unpacked response
    serve_one-write_read v out y t input valid written bound_out =
        let h : RequestHeader = record {
          type = wr;
          endpoint_id = e;
          length = length (packed z x);
        } in
        serve_one_answered z s h (received (packed z x) rest s)
          (read_request_lem s 2 e (packed z x) rest (omega arith) id_fits small input) content
          (unpacked z x rest s) (rw unpack) svc found (response out ok svc.service_id) t _
          (rw (view, valid, continue, written))
          (send_compressed_lem z laws (response out ok svc.service_id)
            (set_state t (unpacked z x rest s)) n bound_out can_write)
