-- ===== src/Network/Session/Progress.antt =====
-- How far a round of src/Lib/TcpSession/TcpSession.cpp gets through what the client sent, and why the
-- loop over one connection ends.
use mathlib.Core.Path.{subst}
use native.Mathlib.Decide.{dec_lt}
use native.Mathlib.Nat.{le_refl, le_trans}
use polar_uv_robot.Prelude.{
  ℕ, zero, suc, ◌+◌, ◌≤◌, ◌<◌, ◌≡◌, sym, ◌≢◌, ◌⊎◌, utf8, inl, inr, refl, false, none, List, [], ◌∷◌,
  arith, Bytes, length, take, drop, length-drop, Option-cases,
}
use polar_uv_robot.Network.Packet.{
  RequestType, w, wr, undefined, RequestHeader, parse_request_header, Response, response,
}
use polar_uv_robot.Network.Exceptions.{Exception, connection_timeout, std_exception}
use polar_uv_robot.Network.Exec.{Outcome, returned, thrown, fault, Exec, continue, ◌>>=◌}
use polar_uv_robot.Network.Buffer.{Zstd, ArrayView}
use polar_uv_robot.Network.Socket.{Socket, read_exactly}
use polar_uv_robot.Network.Service.{IService}
use polar_uv_robot.Network.Session.{
  Session, find_service, receive_payload, read_request, send_response, copy_view, catch_exception,
  handle,
}
use polar_uv_robot.Network.Session.Serve.{
  request_data, perform, compressed_body, send_compressed, reply, try_request, serve_one, serve,
  start,
}

module _ {ℓ} {S : Type ℓ} where
  -- The number of bytes that the client will still send.
  abbrev pub pending : Session S → ℕ
  pending s = length s.socket.input

  abbrev Shrinks {κ} : {A : Type κ} → Exec (Session S) A → Type ℓ
  Shrinks m = (s : Session S) → pending (m s).1 ≤ pending s

  module _ {κ μ} {A : Type κ} {B : Type μ} where
    Shrinks-continue :
        (o : Outcome A) (f : A → Exec (Session S) B)
        → ((a : A) → Shrinks (f a))
        → Shrinks (continue o f)
    Shrinks-continue (returned a) f h s = h a s
    Shrinks-continue (thrown e) f h s = le_refl _
    Shrinks-continue fault f h s = le_refl _

    Shrinks-bind :
        (m : Exec (Session S) A) (f : A → Exec (Session S) B)
        → Shrinks m
        → ((a : A) → Shrinks (f a))
        → Shrinks (m >>= f)
    Shrinks-bind m f hm hf s = le_trans (Shrinks-continue (m s).0 f hf (m s).1) (hm s)

  send_response-Shrinks : (x : Response) → Shrinks (send_response x)
  unfolding send_response
  send_response-Shrinks x s = ground arith

  find_service-Shrinks : (k : ℕ) → Shrinks (find_service k)
  unfolding find_service
  find_service-Shrinks k s = ground arith

  copy_view-Shrinks : (v : ArrayView) → Shrinks (copy_view v)
  unfolding copy_view
  copy_view-Shrinks v s = ground arith

  receive_payload-Shrinks : (h : RequestHeader) → Shrinks (receive_payload h)
  unfolding receive_payload
  receive_payload-Shrinks h s = ground (arith, length-drop h.length s.socket.input)

  catch_exception-Shrinks : (e : Exception) → Shrinks (catch_exception e)
  unfolding catch_exception
  catch_exception-Shrinks connection_timeout s = ground arith
  catch_exception-Shrinks e s = ground arith

  -- With fewer bytes than a header the read fails, and nothing else has happened.
  read_request_short :
      (s : Session S)
      → pending s < 24
      → (m : Bytes) × ((read_request s).0 ≡ thrown (std_exception m))
  unfolding read_request read_exactly
  read_request_short s h = (utf8 "End of file", ground arith)

  -- With a header's worth of bytes the header is consumed, whatever comes of the payload.
  read_request_header :
      (s : Session S) → 24 ≤ pending s → pending (read_request s).1 + 24 ≤ pending s
  unfolding read_request read_exactly
  read_request_header s h =
      let k = s.socket in
      let s' = record s { socket = record k { input = drop 24 k.input } } in
      ground (
        arith,
        receive_payload-Shrinks (parse_request_header (take 24 k.input)) s',
        length-drop 24 k.input,
      )

  close_of_std :
      (m : Bytes) (s : Session S)
      → ((catch_exception (std_exception m) s).0 ≡ returned tt)
        × ((catch_exception (std_exception m) s).1.socket.is_open ≡ false)
  unfolding catch_exception
  close_of_std m s = (refl, refl)

module _ {ℓ} {S : Type ℓ} (z : Zstd) where
  request_data-Shrinks : (h : RequestHeader) → Shrinks {S = S} (request_data z h)
  unfolding request_data
  request_data-Shrinks h s = ground arith

  perform-Shrinks :
      (svc : IService S) (t : RequestType) (v : ArrayView) → Shrinks (perform z svc t v)
  unfolding perform
  perform-Shrinks svc t v s = le_refl _

  compressed_body-Shrinks : (x : Response) → Shrinks {S = S} (compressed_body z x)
  unfolding compressed_body
  compressed_body-Shrinks x s = le_refl _

  send_compressed-Shrinks : (x : Response) → Shrinks {S = S} (send_compressed z x)
  unfolding send_compressed
  send_compressed-Shrinks x = Shrinks-bind (compressed_body z x) _ (compressed_body-Shrinks x) λ v.
      Shrinks-bind (copy_view v) _ (copy_view-Shrinks v)
        λ body. send_response-Shrinks (response body x.header.code x.header.length)

  reply-Shrinks : (t : RequestType) (x : Response) → Shrinks {S = S} (reply z t x)
  unfolding reply
  reply-Shrinks RequestType.r x = send_compressed-Shrinks x
  reply-Shrinks w x = send_response-Shrinks x
  reply-Shrinks wr x = send_compressed-Shrinks x
  reply-Shrinks (undefined n) x = send_response-Shrinks x

  -- What follows the read of the request.
  answer : RequestHeader → Exec (Session S) (Unit {0})
  answer header = do
    v ← request_data z header
    svc ← find_service header.endpoint_id
    x ← perform z svc header.type v
    reply z header.type x

  answer-Shrinks : (h : RequestHeader) → Shrinks (answer h)
  unfolding answer
  answer-Shrinks h = Shrinks-bind (request_data z h) _ (request_data-Shrinks h) λ v.
      Shrinks-bind (find_service h.endpoint_id) _ (find_service-Shrinks h.endpoint_id) λ svc.
        Shrinks-bind (perform z svc h.type v) _ (perform-Shrinks svc h.type v)
          (reply-Shrinks h.type)

  try_request_short :
      (s : Session S)
      → pending s < 24
      → (m : Bytes) × ((try_request z s).0 ≡ thrown (std_exception m))
  unfolding try_request
  try_request_short s h = let (m, e) = read_request_short s h in (m, rw (e, continue) refl)

  try_request_long : (s : Session S) → 24 ≤ pending s → pending (try_request z s).1 + 24 ≤ pending s
  unfolding try_request answer
  try_request_long s h = omega (
    arith,
    read_request_header s h,
    Shrinks-continue (read_request s).0 answer answer-Shrinks (read_request s).1,
  )

  handle-Shrinks : (out : Outcome (Unit {0})) → Shrinks {S = S} (handle out)
  unfolding handle
  handle-Shrinks (returned _) s = le_refl _
  handle-Shrinks (thrown e) s = catch_exception-Shrinks e s
  handle-Shrinks fault s = le_refl _

  -- A round on an open connection consumes at least the 24 bytes of a header or closes the connection,
  -- also where it ends in an exception or in undefined behaviour.
  pub serve_one_progress :
      (s : Session S)
      → ((serve_one z s).1.socket.is_open ≡ false) ⊎ (pending (serve_one z s).1 + 24 ≤ pending s)
  unfolding serve_one handle
  serve_one_progress s = elim (dec_lt (pending s) 24) [
    | yes p ↦
        let (m, e) = try_request_short s p in
        inl (
          subst (λ o. (handle o (try_request z s).1).1.socket.is_open ≡ false) (sym e)
            (close_of_std m (try_request z s).1).1)
    | no p ↦ inr (
        omega (
          arith,
          try_request_long s (omega arith),
          handle-Shrinks (try_request z s).0 (try_request z s).1,
        ))
  ]

  serve_closed :
      (fuel : ℕ) (s : Session S) → s.socket.is_open ≡ false → 0 < fuel → serve z fuel s ≢ none
  unfolding serve
  serve_closed zero s e h = absurd (omega arith)
  serve_closed (suc fuel) s e h = rw (e, serve) (cc)

  -- The fuel that `start` gives is enough: the loop over one connection ends, whatever the client sends
  -- and whatever the services do.
  pub serve_total : (fuel : ℕ) (s : Session S) → pending s + 1 < fuel → serve z fuel s ≢ none
  unfolding serve
  serve_total zero s h = absurd (omega arith)
  serve_total (suc fuel) s h =
      let next : Session S = (serve_one z s).1 in
      let rest : serve z fuel next ≢ none = elim (serve_one_progress s) [
        | inl closed ↦ serve_closed fuel next closed (omega arith)
        | inr less ↦ serve_total fuel next (omega arith)
      ] in
      ground (arith, rest)

  -- So every accepted connection is served to its end, and `start` goes through all of them.
  pub start_total : (ks : List Socket) (s : Session S) → start z ks s ≢ none
  unfolding start
  start_total [] s = ground arith
  start_total (k ∷ ks) s =
      let s' : Session S = record s { socket = k } in
      let served : serve z (length k.input + 2) s' ≢ none = serve_total _ s' (omega arith) in
      elim (Option-cases (serve z (length k.input + 2) s')) [
        | inl e ↦ absurd (served e)
        | inr ((returned _, t), e) ↦ rw (e, start) (start_total ks t)
        | inr ((thrown x, t), e) ↦ rw (e, start) (ground arith)
        | inr ((fault, t), e) ↦ rw (e, start) (ground arith)
      ]
