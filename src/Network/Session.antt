-- ===== src/Network/Session.antt =====
-- src/Lib/TcpSession/TcpSession.cpp: the state of the session, the map of services, and what the
-- loop does with them.
pub mod Serve
pub mod Progress
pub mod Stages
pub mod Requests
pub mod Answers
pub mod Refusals
pub mod Escapes
pub mod Preserves
pub mod Bounds
pub mod Untouched
pub mod Heard
pub mod Moves
pub mod Keeps
pub mod Invariant
pub mod Endpoints
use polar_uv_robot.Prelude.{
  ℕ, zero, suc, ◌+◌, ◌-◌, ◌^◌, Bool, true, false, Option, none, some, List, [], ◌∷◌, ◌++◌, Bytes,
  utf8, ltb, ◌==◌, if◌then◌else◌, length, take, drop,
}
use polar_uv_robot.Network.Packet.{
  RequestType, r, w, wr, undefined, RequestHeader, parse_request_header, request_header_size, Code,
  Response, response, response_header_bytes,
}
use polar_uv_robot.Network.Exceptions.{
  Exception, base_exception, buffer_overflow, connection_timeout, invalid_operation, not_fount,
  transfer_error, std_exception, unknown, exception_code, exception_message,
}
use polar_uv_robot.Network.Exec.{
  Outcome, returned, thrown, fault, Exec, pure, throw, crash, ◌>>=◌, ◌>>◌, zoom,
}
use polar_uv_robot.Network.Buffer.{
  Zstd, buffer_size, ArrayView, StringView, string_view, write_at, decompress, compress,
}
use polar_uv_robot.Network.Socket.{Socket, read_exactly}
use polar_uv_robot.Network.Service.{IService, do_action}

-- `flat_map<size_t, IService_ptr>`, as its entries in the order of the keys.
abbrev pub ServiceMap {ℓ} : Type ℓ → Type ℓ
ServiceMap S = List (ℕ × IService S)

pub record Session {ℓ} (S : Type ℓ) : Type ℓ where
  pub socket : Socket
  pub buffer : Bytes
  pub services : ServiceMap S
  pub state : S

-- The endpoint of an error response, `-1`.
abbrev pub no_endpoint : ℕ
no_endpoint = 2 ^ 64 - 1

-- `std::string::max_size()`
abbrev pub max_string : ℕ
max_string = 2 ^ 63 - 1

module _ {ℓ} {S : Type ℓ} where
  -- `insert` keeps an entry that is there.
  unfoldable pub insert_service : IService S → ServiceMap S → ServiceMap S
  insert_service svc [] = (svc.service_id, svc) ∷ []
  insert_service svc ((k, other) ∷ m) =
      let rest = insert_service svc m in
      if svc.service_id == k
      then (k, other) ∷ m
      else if ltb svc.service_id k
      then (svc.service_id, svc) ∷ (k, other) ∷ m
      else (k, other) ∷ rest

  unfoldable pub lookup_service : ℕ → ServiceMap S → Option (IService S)
  lookup_service key [] = none
  lookup_service key ((k, svc) ∷ m) = if k == key then some svc else lookup_service key m

  unfoldable pub find_service : ℕ → Exec (Session S) (IService S)
  unfolding lookup_service utf8
  find_service key s = elim (lookup_service key s.services) [
    | none ↦ (thrown (not_fount (utf8 "Endpoint not found")), s)
    | some svc ↦ (returned svc, s)
  ]

  unfoldable pub create_service : IService S → Session S → Session S
  unfolding insert_service
  create_service svc s = record s { services = insert_service svc s.services }

  abbrev pub set_socket : Socket → Session S → Session S
  set_socket k s = record s { socket = k }

  abbrev pub set_buffer : Bytes → Session S → Session S
  set_buffer b s = record s { buffer = b }

  abbrev pub set_state : S → Session S → Session S
  set_state x s = record s { state = x }

  -- The read of the payload writes what has come into the buffer, also if it then throws.
  unfoldable pub read_payload : ℕ → Exec (Session S) (Unit {0})
  unfolding read_exactly write_at
  read_payload n s =
      let (out, k) = read_exactly n s.socket in
      let s' = record s { socket = k; buffer = write_at 0 (take n s.socket.input) s.buffer } in
      elim out [ returned _ ↦ (returned tt, s') | thrown e ↦ (thrown e, s') | fault ↦ (fault, s') ]

  -- A payload longer than the buffer is refused, and left unread.
  unfoldable pub receive_payload : RequestHeader → Exec (Session S) (Unit {0})
  unfolding read_payload utf8
  receive_payload header =
      if ltb buffer_size header.length
      then throw (buffer_overflow (utf8 "Переполнение буфера"))
      else if ltb 0 header.length
      then read_payload header.length
      else pure tt

  unfoldable pub read_request : Exec (Session S) RequestHeader
  read_request = do
    bytes ← zoom (λ s. s.socket) set_socket (read_exactly request_header_size)
    let header = parse_request_header bytes
    receive_payload header
    pure header

  -- `boost::asio::write` of the header and of the first `Length` bytes of the body.
  unfoldable pub send_response : Response → Exec (Session S) (Unit {0})
  unfolding response_header_bytes utf8
  send_response x s =
      let k = s.socket in
      if k.writes_left == 0
      then (thrown (std_exception (utf8 "Broken pipe")), s)
      else let bytes = response_header_bytes x.header ++ take x.header.length x.body in
        let k' = record k { writes_left = k.writes_left - 1; output = k.output ++ bytes } in
        (returned tt, record s { socket = k' })

  -- `response.Data.resize` and the copy out of the buffer
  unfoldable pub copy_view : ArrayView → Exec (Session S) Bytes
  unfolding string_view utf8
  copy_view v s =
      if ltb max_string v.size
      then (thrown (std_exception (utf8 "length_error")), s)
      else elim (string_view s.buffer v).bytes [ none ↦ (fault, s) | some bs ↦ (returned bs, s) ]

  -- `Socket::close` and `ConnectionLost` of every service, in the order of the keys.
  unfoldable pub notify_lost : ServiceMap S → S → S
  notify_lost [] x = x
  notify_lost ((k, svc) ∷ m) x = notify_lost m (svc.connection_lost x)

  unfoldable pub close_socket : Exec (Session S) (Unit {0})
  close_socket s = (returned tt, record s { socket = record s.socket { is_open = false } })

  unfoldable pub connection_lost : Exec (Session S) (Unit {0})
  unfolding notify_lost
  connection_lost s = (returned tt, record s { state = notify_lost s.services s.state })

  -- The `catch` clauses.
  unfoldable pub report : Bytes → Option Code → Exec (Session S) (Unit {0})
  unfolding send_response response
  report m (some c) = send_response (response m c no_endpoint)
  report m none = pure tt

  unfoldable pub catch_exception : Exception → Exec (Session S) (Unit {0})
  unfolding report close_socket connection_lost exception_message exception_code
  catch_exception connection_timeout = close_socket
  catch_exception (std_exception m) = close_socket >> connection_lost
  catch_exception unknown = close_socket >> connection_lost
  catch_exception e = report (exception_message e) (exception_code e)

  -- The `catch` clauses over the outcome of `try`. An exception of a clause leaves `Start`.
  unfoldable pub handle : Outcome (Unit {0}) → Exec (Session S) (Unit {0})
  handle (returned _) s = (returned tt, s)
  handle (thrown e) s = catch_exception e s
  handle fault s = (fault, s)
