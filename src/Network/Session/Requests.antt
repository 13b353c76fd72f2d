-- ===== src/Network/Session/Requests.antt =====
-- What `TcpSession::Start` of src/Lib/TcpSession/TcpSession.cpp does with a whole request: from the
-- bytes on the socket to the bytes of the response.
use polar_uv_robot.Prelude.{
  ℕ, suc, ◌+◌, ◌≤◌, ◌<◌, ◌≡◌, refl, ◌++◌, arith, Bytes, length, drop, length-append, take-append,
  drop-append, take_all,
}
use polar_uv_robot.Network.Packet.{
  size_mod, request_type, RequestHeader, Response, response, Code, response_header_bytes,
}
use polar_uv_robot.Network.Packet.Layout.{
  request_bytes, length-request_bytes, parse_request_header-request_bytes,
}
use polar_uv_robot.Network.Exec.{returned}
use polar_uv_robot.Network.Buffer.{Zstd, compress, buffer_size, capacity, string_view, write_at}
use polar_uv_robot.Network.Buffer.Zlaws.{IsZstd}
use polar_uv_robot.Network.Socket.{Socket, read_exactly}
use polar_uv_robot.Network.Session.{
  Session, receive_payload, read_request, send_response, copy_view,
}
use polar_uv_robot.Network.Session.Serve.{compressed_body, send_compressed}

pub read_exactly_lem :
    (n : ℕ) (k : Socket) (xs rest : Bytes)
    → length xs ≡ n
    → k.input ≡ xs ++ rest
    → read_exactly n k ≡ (returned xs, record k { input = rest })
unfolding read_exactly
read_exactly_lem n k xs rest h e =
    rw (← h) (ground (arith, length-append xs rest, take-append xs rest, drop-append xs rest))

module _ {ℓ} {S : Type ℓ} where
  -- The state after a request was read: the payload is at the start of the buffer.
  unfoldable pub received : Bytes → Bytes → Session S → Session S
  received payload rest s = record s {
    socket = record s.socket { input = rest };
    buffer = write_at 0 payload s.buffer;
  }

  pub receive_payload_lem :
      (h : RequestHeader) (s : Session S) (payload rest : Bytes)
      → h.length ≡ length payload
      → length payload ≤ buffer_size
      → s.socket.input ≡ payload ++ rest
      → receive_payload h s ≡ (returned tt, received payload rest s)
  unfolding receive_payload received read_exactly
  receive_payload_lem h s payload rest e l input =
      ground (arith, length-append payload rest, take-append payload rest, drop-append payload rest)

  pub read_request_lem :
      (s : Session S) (t e : ℕ) (payload rest : Bytes)
      → t < size_mod
      → e < size_mod
      → length payload ≤ buffer_size
      → s.socket.input ≡ request_bytes t e (length payload) ++ (payload ++ rest)
      → read_request s ≡ (
        returned (record { type = request_type t; endpoint_id = e; length = length payload }),
        received payload rest s,
      )
  unfolding read_request received
  read_request_lem s t e payload rest ht he hl input =
      let header = request_bytes t e (length payload) in
      let request : RequestHeader = record {
        type = request_type t;
        endpoint_id = e;
        length = length payload;
      } in
      let arrived : Session S = record s { socket = record s.socket { input = payload ++ rest } } in
      rw
        (
          read_exactly_lem 24 s.socket header (payload ++ rest) (length-request_bytes t e _) input,
          parse_request_header-request_bytes t e (length payload) ht he (omega arith),
          receive_payload_lem request arrived payload rest refl hl refl,
        )
        refl

  -- The state after a response was sent, with `n` writes left.
  unfoldable pub answered : Response → ℕ → Session S → Session S
  answered x n s = record s {
    socket = record s.socket {
      writes_left = n;
      output = s.socket.output ++ (response_header_bytes x.header ++ x.body);
    };
  }

  pub send_response_lem :
      (m : Bytes) (c : Code) (e n : ℕ) (s : Session S)
      → s.socket.writes_left ≡ suc n
      → send_response (response m c e) s ≡ (returned tt, answered (response m c e) n s)
  unfolding send_response answered response
  send_response_lem m c e n s h = ground (arith, take_all (length m) m)

  copy_view_lem :
      (bs tail : Bytes) (s : Session S)
      → length bs ≤ capacity
      → s.buffer ≡ bs ++ tail
      → copy_view (record { offset = 0; size = length bs }) s ≡ (returned bs, s)
  unfolding copy_view string_view
  copy_view_lem bs tail s h e = ground (arith, length-append bs tail, take-append bs tail)

-- The bytes that a body becomes in a response.
unfoldable pub packed : Zstd → Bytes → Bytes
packed z x = (z.compress capacity x 22).0

module _ (z : Zstd) (laws : IsZstd z) where
  compress_lem :
      (x buffer : Bytes)
      → z.compress_bound (length x) ≤ capacity
      → compress z x buffer ≡ (
        returned (record { offset = 0; size = length (packed z x) }),
        write_at 0 (packed z x) buffer,
      )
  unfolding compress packed
  compress_lem x buffer h = ground (arith, laws.compress_result capacity x 22 h)

  module _ {ℓ} {S : Type ℓ} where
    pub send_compressed_lem :
        (x : Response) (s : Session S) (n : ℕ)
        → z.compress_bound (length x.body) ≤ capacity
        → s.socket.writes_left ≡ suc n
        → send_compressed z x s ≡ (
          returned tt,
          answered
              (response (packed z x.body) x.header.code x.header.length)
              n
              (record s { buffer = write_at 0 (packed z x.body) s.buffer }),
        )
    unfolding send_compressed compressed_body write_at packed
    send_compressed_lem x s n hc hw =
        let bs = packed z x.body in
        let s' : Session S = record s { buffer = write_at 0 bs s.buffer } in
        rw
          (
            compress_lem x.body s.buffer hc,
            copy_view_lem bs (drop (0 + length bs) s.buffer) s'
                (laws.compress_fits capacity x.body 22) refl,
            send_response_lem bs x.header.code x.header.length n s' hw,
          )
          refl
