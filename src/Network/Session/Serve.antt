-- ===== src/Network/Session/Serve.antt =====
-- src/Lib/TcpSession/TcpSession.cpp, `TcpSession::Start`: one request, one connection, all of them.
use polar_uv_robot.Prelude.{
  ℕ, zero, suc, ◌+◌, true, false, Option, none, some, List, [], ◌∷◌, length,
}
use polar_uv_robot.Network.Packet.{RequestType, wr, RequestHeader, Response, response}
use polar_uv_robot.Network.Exec.{Outcome, returned, thrown, fault, Exec, pure, ◌>>=◌, zoom}
use polar_uv_robot.Network.Buffer.{Zstd, ArrayView, string_view, decompress, compress}
use polar_uv_robot.Network.Service.{IService, do_action}
use polar_uv_robot.Network.Socket.{Socket}
use polar_uv_robot.Network.Session.{
  Session, find_service, set_buffer, set_state, read_request, send_response, copy_view, handle,
}

module _ {ℓ} {S : Type ℓ} (z : Zstd) where
  -- The payload is decompressed for `W` and `WR`.
  unfoldable pub request_data : RequestHeader → Exec (Session S) ArrayView
  unfolding decompress
  request_data header = elim header.type [
    | RequestType.w ↦ zoom (λ s. s.buffer) set_buffer (decompress z header.length)
    | wr ↦ zoom (λ s. s.buffer) set_buffer (decompress z header.length)
    | _ ↦ pure (record { offset = 0; size = 0 })
  ]

  unfoldable pub perform : IService S → RequestType → ArrayView → Exec (Session S) Response
  unfolding string_view
  perform svc t v s =
      zoom (λ (s : Session S). s.state) set_state (do_action svc t (string_view s.buffer v)) s

  unfoldable pub compressed_body : Response → Exec (Session S) ArrayView
  unfolding compress
  compressed_body x = zoom (λ s. s.buffer) set_buffer (compress z x.body)

  -- `R` and `WR` answer with the compressed body, and pass the length of the body before compression
  -- where the constructor takes the endpoint.
  unfoldable pub send_compressed : Response → Exec (Session S) (Unit {0})
  unfolding response
  send_compressed x = do
    v ← compressed_body x
    body ← copy_view v
    send_response (response body x.header.code x.header.length)

  unfoldable pub reply : RequestType → Response → Exec (Session S) (Unit {0})
  reply RequestType.r x = send_compressed x
  reply wr x = send_compressed x
  reply _ x = send_response x

  -- The body of `try`.
  unfoldable pub try_request : Exec (Session S) (Unit {0})
  try_request = do
    header ← read_request
    v ← request_data header
    svc ← find_service header.endpoint_id
    x ← perform svc header.type v
    reply header.type x

  -- One round of the `while` loop.
  unfoldable pub serve_one : Exec (Session S) (Unit {0})
  unfolding handle
  serve_one s = let (out, s') = try_request s in handle out s'

  -- `while (socket.is_open())`; `none` means that the fuel ran out.
  unfoldable pub serve : ℕ → Session S → Option (Outcome (Unit {0}) × Session S)
  serve zero s = none
  serve (suc fuel) s =
      let next = serve_one s in
      let rest = serve fuel next.1 in
      elim s.socket.is_open [
        | false ↦ some (returned tt, s)
        | true ↦ elim next.0 [ returned _ ↦ rest | thrown e ↦ some next | fault ↦ some next ]
      ]

  -- `for (;;)`, over the connections that are accepted in turn. Each is served to its end.
  unfoldable pub start : List Socket → Session S → Option (Outcome (Unit {0}) × Session S)
  unfolding serve
  start [] s = some (returned tt, s)
  start (k ∷ ks) s = elim (serve (length k.input + 2) (record s { socket = k })) [
    | none ↦ none
    | some (out, s') ↦ elim out [
      | returned _ ↦ start ks s'
      | thrown e ↦ some (thrown e, s')
      | fault ↦ some (fault, s')
    ]
  ]
