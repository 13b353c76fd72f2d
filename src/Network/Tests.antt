-- ===== src/Network/Tests.antt =====
-- Tests of src/Lib/TcpSession on one session with one service.
mod Corrupt
use polar_uv_robot.Prelude.{
  some, ℕ, zero, suc, ◌-◌, ◌^◌, ◌<◌, ◌≤◌, ◌≡◌, ◌≢◌, refl, true, false, none, [], ◌∷◌, ◌++◌, arith,
  Bytes, utf8, length, take, length-take, take_all, length-replicate, ◌==◌, if◌then◌else◌,
}
use polar_uv_robot.Network.Packet.{Code, not_found, ok, no_content, response, w, ResponseHeader}
use polar_uv_robot.Network.Packet.Layout.{request_bytes, length-request_bytes}
use polar_uv_robot.Network.Exceptions.{
  Exception, not_fount, std_exception, exception_code, exception_message,
}
use polar_uv_robot.Network.Exec.{returned, thrown, pure}
use polar_uv_robot.Network.Buffer.{Zstd, capacity, empty_buffer, write_at, ArrayView, string_view}
use polar_uv_robot.Network.Buffer.Zlaws.{IsZstd, stored, stored-IsZstd}
use polar_uv_robot.Network.Service.{IService, base_service}
use polar_uv_robot.Network.Socket.{Socket}
use polar_uv_robot.Network.Session.{Session, no_endpoint, lookup_service, notify_lost, handle}
use polar_uv_robot.Network.Session.Serve.{request_data, serve_one, serve}
use polar_uv_robot.Network.Session.Requests.{received, answered, packed}
use polar_uv_robot.Network.Session.Answers.{
  unpacked, serve_one-read, serve_one-write, serve_one-write_read,
}
use polar_uv_robot.Network.Session.Progress.{serve_total}
use polar_uv_robot.Network.Session.Bounds.{IsFull, serve_one-IsFull}
use polar_uv_robot.Network.Session.Untouched.{Holds}
use polar_uv_robot.Network.Session.Invariant.{IsSafe, serve_one-Holds}
use polar_uv_robot.Network.Socket.{Socket}
use polar_uv_robot.Network.Session.Serve.{start}
use polar_uv_robot.Network.Session.Escapes.{start-escapes}
use polar_uv_robot.Network.Session.Refusals.{
  serve_one-disconnected, serve_one-oversized, serve_one-thrown, request_data-corrupt,
}

abbrev two_bytes : Bytes
two_bytes = 65 ∷ 66 ∷ []

-- A service that counts its reads, and remembers the size of what is written.
abbrev counter : IService ℕ
counter = record {
  service_id = 5;
  read_validate = pure true;
  write_validate = λ v. pure true;
  write_read_validate = λ v. pure true;
  read = λ n. (returned two_bytes, suc n);
  write = λ v n. (returned tt, v.size);
  write_read = λ v n. (returned two_bytes, v.size);
  connection_lost = λ n. zero;
}

abbrev connection : Bytes → ℕ → Socket
connection bs n = record { is_open = true; input = bs; writes_left = n; output = [] }

abbrev with_service : IService ℕ → Bytes → ℕ → Session ℕ
with_service svc bs n = record {
  socket = connection bs n;
  buffer = empty_buffer;
  services = (svc.service_id, svc) ∷ [];
  state = 7;
}

abbrev read_five : Session ℕ
read_five = with_service counter (request_bytes 0 5 0 ++ []) 3

serve_one-read_example : serve_one stored read_five ≡ (
  returned tt,
  answered
      (response (packed stored two_bytes) ok (length two_bytes))
      2
      (record (received (packed stored two_bytes) [] read_five) { state = 8 }),
)
unfolding lookup_service
serve_one-read_example =
    serve_one-read stored stored-IsZstd read_five counter 5 [] 2 (omega arith) refl refl true
      two_bytes 7 8 refl refl refl (omega arith)

abbrev write_five : ℕ → Session ℕ
write_five t =
    with_service counter
      (request_bytes t 5 (length (packed stored two_bytes)) ++ (packed stored two_bytes ++ [])) 3

abbrev given : ℕ → Session ℕ
given t = unpacked stored two_bytes [] (write_five t)

serve_one-write_example :
    serve_one stored (write_five 1)
    ≡ (returned tt, answered (response (utf8 "") no_content 5) 2 (record (given 1) { state = 2 }))
unfolding lookup_service packed
serve_one-write_example =
    serve_one-write stored stored-IsZstd (write_five 1) counter 5 [] 2 (omega arith) refl refl
      two_bytes (length-replicate {A = ℕ} capacity 0) (omega arith) (omega arith) (omega arith) true
      7 2 refl refl refl

serve_one-write_read_example : serve_one stored (write_five 2) ≡ (
  returned tt,
  answered (response (packed stored two_bytes) ok (length two_bytes)) 2 (record (given 2) {
    state = 2;
    buffer = write_at 0 (packed stored two_bytes) (given 2).buffer;
  }),
)
unfolding lookup_service packed
serve_one-write_read_example =
    serve_one-write_read stored stored-IsZstd (write_five 2) counter 5 [] 2 (omega arith) refl refl
      two_bytes (length-replicate {A = ℕ} capacity 0) (omega arith) (omega arith) (omega arith) true
      two_bytes 7 2 refl refl refl (omega arith)

abbrev one_read : Session ℕ
one_read = with_service counter (request_bytes 0 5 0) 3

serve_total_example : serve stored 26 one_read ≢ none
serve_total_example = serve_total stored 26 one_read (omega (arith, length-request_bytes 0 5 0))

serve_one-IsFull_example : IsFull (serve_one stored (write_five 2)).1
serve_one-IsFull_example =
    serve_one-IsFull stored stored-IsZstd (write_five 2) (length-replicate {A = ℕ} capacity 0)

abbrev short : Session ℕ
short = with_service counter two_bytes 3

serve_one-disconnected_example : serve_one stored short ≡ (
  returned tt,
  record short { socket = record short.socket { input = []; is_open = false }; state = 0 },
)
unfolding notify_lost
serve_one-disconnected_example = serve_one-disconnected stored short (omega arith)

abbrev long : Session ℕ
long = with_service counter (request_bytes 1 5 1025 ++ two_bytes) 3

serve_one-oversized_example : serve_one stored long ≡ (
  returned tt,
  answered
      (response (utf8 "Переполнение буфера") Code.buffer_overflow no_endpoint)
      2
      (record long { socket = record long.socket { input = two_bytes } }),
)
serve_one-oversized_example =
    serve_one-oversized stored long 5 two_bytes 2 (omega arith) refl 1 1025 (omega arith)
      (omega arith) (omega arith) refl

abbrev read_six : Session ℕ
read_six = with_service counter (request_bytes 0 6 0 ++ []) 3

-- A service that overrides nothing.
abbrev bare : Session ℕ
bare = with_service (base_service 5) (request_bytes 0 5 0 ++ []) 3

abbrev missing : Exception
missing = not_fount (utf8 "Данный метод не существует")

serve_one-thrown_example : serve_one stored bare ≡ (
  returned tt,
  answered
      (response (exception_message missing) not_found no_endpoint)
      2
      (record bare { socket = record bare.socket { input = [] }; state = 7 }),
)
unfolding lookup_service base_service exception_code
serve_one-thrown_example =
    serve_one-thrown stored bare 5 [] 2 (omega arith) refl (base_service 5) true missing not_found 7
      7 refl refl refl refl refl (λ h. cc)

abbrev gone : Session ℕ
gone = with_service counter [] 0

-- A client that announces more than the buffer holds, and is gone when it is told.
abbrev boaster : Socket
boaster = record (with_service counter (request_bytes 1 5 2000 ++ two_bytes) 0).socket {
  writes_left = 0;
}

start-escapes_example :
    start stored (boaster ∷ boaster ∷ []) gone
    ≡ some (
      thrown (std_exception (utf8 "Broken pipe")),
      record gone { socket = record boaster { input = two_bytes } },
    )
start-escapes_example =
    start-escapes stored gone boaster (boaster ∷ []) 1 5 2000 two_bytes (omega arith) (omega arith)
      (omega arith) (omega arith) refl refl refl

abbrev seven : IService ℕ
seven = base_service 7

abbrev some_header : ResponseHeader
some_header = record { code = ok; endpoint_id = 5; length = 2 }
