-- ===== src/Network/Session/Escapes.antt =====
-- An exception that leaves `TcpSession::Start` of src/Lib/TcpSession/TcpSession.cpp.
use polar_uv_robot.Prelude.{
  ℕ, suc, ◌+◌, ◌<◌, ◌≡◌, ◌∙◌, refl, ap, true, Option, none, some, List, ◌∷◌, ◌++◌, Bytes, utf8,
  length, arith,
}
use mathlib.Core.Path.{subst}
use polar_uv_robot.Network.Packet.{size_mod, Code}
use polar_uv_robot.Network.Packet.Layout.{request_bytes}
use polar_uv_robot.Network.Exceptions.{Exception, buffer_overflow, std_exception, exception_code}
use polar_uv_robot.Network.Exec.{Outcome, returned, thrown, fault}
use polar_uv_robot.Network.Buffer.{Zstd, buffer_size}
use polar_uv_robot.Network.Socket.{Socket}
use polar_uv_robot.Network.Session.{Session, set_socket}
use polar_uv_robot.Network.Session.Serve.{serve_one, serve, start}
use polar_uv_robot.Network.Session.Stages.{serve_one_unread}
use polar_uv_robot.Network.Session.Refusals.{oversized, handle_escapes}

module _ {ℓ} {S : Type ℓ} (z : Zstd) where
  serve-thrown :
      (n : ℕ) (s s' : Session S) (x : Exception)
      → s.socket.is_open ≡ true
      → serve_one z s ≡ (thrown x, s')
      → serve z (suc n) s ≡ some (thrown x, s')
  unfolding serve
  serve-thrown n s s' x is_open e =
      rw (serve, is_open)
        (ap
          (λ (o : Outcome (Unit {0}) × Session S). elim o.0 [
            | returned _ ↦ serve z n o.1
            | thrown y ↦ some o
            | fault ↦ some o
          ])
          e)

  -- What a round throws ends the loop over the connections.
  start-thrown :
      (s s' : Session S) (k : Socket) (ks : List Socket) (x : Exception)
      → k.is_open ≡ true
      → serve_one z (set_socket k s) ≡ (thrown x, s')
      → start z (k ∷ ks) s ≡ some (thrown x, s')
  unfolding start
  start-thrown s s' k ks x is_open e =
      let fuel : suc (length k.input + 1) ≡ length k.input + 2 = omega arith in
      ap
        (λ (o : Option (Outcome (Unit {0}) × Session S)). elim o [
          | none ↦ none
          | some (out, t) ↦ elim out [
            | returned _ ↦ start z ks t
            | thrown y ↦ some (thrown y, t)
            | fault ↦ some (fault, t)
          ]
        ])
        (subst (λ n. serve z n (set_socket k s) ≡ some (thrown x, s')) fuel
          (serve-thrown (length k.input + 1) (set_socket k s) s' x is_open e))

  -- A client announces a payload above the size of the buffer, and is gone when `BufferOverflow` is to be
  -- sent to it. Then the exception of the failed write ends `Start`, and with it the program: the
  -- clients that come after it are not accepted, and no service has been called or told.
  pub start-escapes :
      (s : Session S) (k : Socket) (ks : List Socket) (t e l : ℕ) (rest : Bytes)
      → t < size_mod
      → e < size_mod
      → l < size_mod
      → buffer_size < l
      → k.is_open ≡ true
      → k.writes_left ≡ 0
      → k.input ≡ request_bytes t e l ++ rest
      → start z (k ∷ ks) s
        ≡ some (
          thrown (std_exception (utf8 "Broken pipe")),
          record s { socket = record k { input = rest } },
        )
  unfolding exception_code
  start-escapes s k ks t e l rest ht he hl big is_open gone input =
      let x : Exception = buffer_overflow (utf8 "Переполнение буфера") in
      let s' : Session S = record s { socket = record k { input = rest } } in
      start-thrown s s' k ks (std_exception (utf8 "Broken pipe")) is_open (
        serve_one_unread z (set_socket k s) x s'
          (oversized (set_socket k s) t e l rest ht he hl big input)
        ∙ handle_escapes x Code.buffer_overflow s' refl (λ p. cc p) gone)
