-- ===== src/Network/Session/Refusals.antt =====
-- The requests that src/Lib/TcpSession/TcpSession.cpp refuses, and the connections that it gives up.
use polar_uv_robot.Prelude.{
  ℕ, suc, ◌-◌, ◌≤◌, ◌<◌, ◌≡◌, ◌≢◌, ◌∙◌, ap, refl, Bool, false, none, some, [], ◌∷◌, ◌++◌, arith,
  Bytes, utf8, length, take, lt→ltb,
}
use mathlib.Core.List.{foldl}
use polar_uv_robot.Network.Packet.{
  size_mod, Code, not_found, response, request_type, RequestHeader, RequestType, w,
}
use polar_uv_robot.Network.Packet.Layout.{
  request_bytes, length-request_bytes, parse_request_header-request_bytes,
}
use polar_uv_robot.Network.Exceptions.{
  Exception, buffer_overflow, connection_timeout, not_fount, std_exception, unknown, exception_code,
  exception_message,
}
use polar_uv_robot.Network.Exec.{returned, thrown, continue}
use polar_uv_robot.Network.Buffer.{
  Zstd, buffer_size, capacity, decompress, string_view, write_at, ArrayView,
}
use polar_uv_robot.Network.Buffer.Zlaws.{IsZstd, length-write_at}
use polar_uv_robot.Network.Service.{IService, do_action, read_data}
use polar_uv_robot.Network.Socket.{read_exactly}
use polar_uv_robot.Network.Session.{
  Session, ServiceMap, no_endpoint, set_state, lookup_service, notify_lost, read_request,
  receive_payload, handle, catch_exception, report, send_response,
}
use polar_uv_robot.Network.Session.Serve.{request_data, serve_one}
use polar_uv_robot.Network.Session.Stages.{serve_one_unread, serve_one_unknown, serve_one_thrown}
use polar_uv_robot.Network.Session.Requests.{
  received, read_exactly_lem, read_request_lem, answered, send_response_lem,
}

module _ {ℓ} {S : Type ℓ} where
  caught :
      (x : Exception) (c : Code) (s : Session S)
      → exception_code x ≡ some c
      → x ≢ connection_timeout
      → handle (thrown x) s ≡ report (exception_message x) (some c) s
  unfolding handle catch_exception
  caught connection_timeout c s e ne = absurd (ne refl)
  caught (std_exception m) c s e ne = cc
  caught unknown c s e ne = cc
  caught x c s e ne = ap (λ o. report (exception_message x) o s) e

  -- An exception of the library, but for a timeout, is reported to the client under its code and with
  -- its message, if the client still takes a write; the connection stays as it is.
  pub handle_reported :
      (x : Exception) (c : Code) (n : ℕ) (s : Session S)
      → exception_code x ≡ some c
      → x ≢ connection_timeout
      → s.socket.writes_left ≡ suc n
      → handle (thrown x) s
        ≡ (returned tt, answered (response (exception_message x) c no_endpoint) n s)
  unfolding report
  handle_reported x c n s e ne hw =
      caught x c s e ne ∙ send_response_lem (exception_message x) c no_endpoint n s hw

  -- If the report cannot be sent because the client is gone, the exception of the failed write leaves
  -- the `catch` clause.
  pub handle_escapes :
      (x : Exception) (c : Code) (s : Session S)
      → exception_code x ≡ some c
      → x ≢ connection_timeout
      → s.socket.writes_left ≡ 0
      → handle (thrown x) s ≡ (thrown (std_exception (utf8 "Broken pipe")), s)
  unfolding report send_response
  handle_escapes x c s e ne hw = caught x c s e ne ∙ rw (hw, report, send_response)

  -- Every service is told once, in the order of the keys.
  notify_lost-foldl :
      (m : ServiceMap S) (x : S) → notify_lost m x ≡ foldl (λ x e. e.1.connection_lost x) x m
  unfolding notify_lost
  notify_lost-foldl [] x = refl
  notify_lost-foldl ((k, svc) ∷ m) x = notify_lost-foldl m (svc.connection_lost x)

  disconnected :
      (s : Session S)
      → length s.socket.input < 24
      → (m : Bytes) × (read_request s
          ≡ (thrown (std_exception m), record s { socket = record s.socket { input = [] } }))
  unfolding read_request read_exactly
  disconnected s h = (utf8 "End of file", ground arith)

  pub oversized :
      (s : Session S) (t e l : ℕ) (rest : Bytes)
      → t < size_mod
      → e < size_mod
      → l < size_mod
      → buffer_size < l
      → s.socket.input ≡ request_bytes t e l ++ rest
      → read_request s ≡ (
        thrown (buffer_overflow (utf8 "Переполнение буфера")),
        record s { socket = record s.socket { input = rest } },
      )
  unfolding read_request receive_payload
  oversized s t e l rest ht he hl big input = rw (
    read_exactly_lem 24 s.socket (request_bytes t e l) rest (length-request_bytes t e l) input,
    parse_request_header-request_bytes t e l ht he hl,
    lt→ltb _ _ big,
  )

module _ {ℓ} {S : Type ℓ} (z : Zstd) (s : Session S) where
  -- A client that goes away before a whole header has come loses the connection: nothing is sent, and
  -- every service is told, in the order of the keys.
  pub serve_one-disconnected :
      length s.socket.input < 24
      → serve_one z s ≡ (
        returned tt,
        record s {
          socket = record s.socket { input = []; is_open = false };
          state = foldl (λ x e. e.1.connection_lost x) s.state s.services;
        },
      )
  unfolding handle catch_exception
  serve_one-disconnected h =
      let (m, e) = disconnected s h in
      serve_one_unread z s (std_exception m) (record s { socket = record s.socket { input = [] } })
        e
      ∙ ap
          (λ x. (
            returned tt,
            record s { socket = record s.socket { input = []; is_open = false }; state = x },
          ))
          (notify_lost-foldl s.services s.state)

  module _ (e : ℕ) (rest : Bytes) (n : ℕ) (id_fits : e < size_mod)
      (can_write : s.socket.writes_left ≡ suc n) where
    -- A request whose length is above the size of the buffer is answered by `BufferOverflow`. No
    -- service is called and the connection stays open, and its payload is still there: the next round
    -- takes the payload for a header.
    pub serve_one-oversized :
        (t l : ℕ)
        → t < size_mod
        → buffer_size < l
        → l < size_mod
        → s.socket.input ≡ request_bytes t e l ++ rest
        → serve_one z s ≡ (
          returned tt,
          answered
              (response (utf8 "Переполнение буфера") Code.buffer_overflow no_endpoint)
              n
              (record s { socket = record s.socket { input = rest } }),
        )
    unfolding exception_message exception_code
    serve_one-oversized t l ht big fits input =
        let x : Exception = buffer_overflow (utf8 "Переполнение буфера") in
        let s' : Session S = record s { socket = record s.socket { input = rest } } in
        serve_one_unread z s x s' (oversized s t e l rest ht id_fits fits big input)
        ∙ handle_reported x Code.buffer_overflow n s' refl (λ p. cc p) can_write

    -- A read request for an endpoint that is not registered is answered by `NotFound` for the endpoint
    -- -1, and nothing else changes.
    pub serve_one-unknown :
        s.socket.input ≡ request_bytes 0 e 0 ++ rest
        → lookup_service e s.services ≡ none
        → serve_one z s ≡ (
          returned tt,
          answered
              (response (utf8 "Endpoint not found") not_found no_endpoint)
              n
              (record s { socket = record s.socket { input = rest } }),
        )
    unfolding exception_message exception_code received request_type request_data write_at
    serve_one-unknown input missing =
        let x : Exception = not_fount (utf8 "Endpoint not found") in
        let h : RequestHeader = record { type = RequestType.r; endpoint_id = e; length = 0 } in
        let s' : Session S = received [] rest s in
        serve_one_unknown z s h s'
          (read_request_lem s 0 e [] rest (omega arith) id_fits (omega arith) input)
          (record { offset = 0; size = 0 }) s' refl missing
        ∙ handle_reported x not_found n s' refl (λ p. cc p) can_write

    -- If the service throws an exception of the library, but for a timeout, while it reads, the client
    -- is told its code and message, the connection stays open, and the service keeps what it had
    -- changed before.
    pub serve_one-thrown :
        (svc : IService S) (v : Bool) (x : Exception) (c : Code) (y t : S)
        → s.socket.input ≡ request_bytes 0 e 0 ++ rest
        → lookup_service e s.services ≡ some svc
        → svc.read_validate s.state ≡ (returned v, y)
        → svc.read y ≡ (thrown x, t)
        → exception_code x ≡ some c
        → x ≢ connection_timeout
        → serve_one z s ≡ (
          returned tt,
          answered
              (response (exception_message x) c no_endpoint)
              n
              (record s { socket = record s.socket { input = rest }; state = t }),
        )
    unfolding received request_type request_data do_action read_data write_at
    serve_one-thrown svc v x c y t input found valid fails code ne =
        let h : RequestHeader = record { type = RequestType.r; endpoint_id = e; length = 0 } in
        let s' : Session S = received [] rest s in
        serve_one_thrown z s h s'
          (read_request_lem s 0 e [] rest (omega arith) id_fits (omega arith) input)
          (record { offset = 0; size = 0 }) s' refl svc found x t (rw (valid, continue, fails))
        ∙ handle_reported x c n (set_state t s') code ne can_write

-- A payload that zstd cannot decompress although its frame names a size that fits: the error code is
-- taken for the size of the data, and the view that the service is given lies outside the buffer.
pub request_data-corrupt {ℓ} :
    {S : Type ℓ} (z : Zstd) (laws : IsZstd z) (s : Session S) (e l : ℕ)
    → l ≤ buffer_size
    → length s.buffer ≡ capacity
    → z.get_frame_content_size (take l s.buffer) ≤ capacity - l
    → capacity < (z.decompress (capacity - l) (take l s.buffer)).1
    → let (out, s') = request_data z (record { type = w; endpoint_id = e; length = l }) s in
      (v : ArrayView) × (out ≡ returned v)
      × (v.size ≡ (z.decompress (capacity - l) (take l s.buffer)).1)
      × ((string_view s'.buffer v).bytes ≡ none)
unfolding request_data decompress string_view
request_data-corrupt z laws s e l h full named error =
    let input = take l s.buffer in
    let (written, result) = z.decompress (capacity - l) input in
    let kept =
      length-write_at l written s.buffer
        (omega (arith, laws.decompress_fits (capacity - l) input)) in
    (record { offset = l; size = result }, ground arith, refl, ground (arith, kept))
