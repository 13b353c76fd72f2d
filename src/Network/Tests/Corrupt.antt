-- ===== src/Network/Tests/Corrupt.antt =====
-- A test of a request whose data is no frame of the compression.
use polar_uv_robot.Prelude.{
  ℕ, suc, ◌-◌, ◌^◌, ◌≤◌, ◌≡◌, none, [], ◌∷◌, arith, Bytes, length, take, length-take, take_all,
  length-replicate, ◌==◌, if◌then◌else◌,
}
use polar_uv_robot.Network.Packet.{w}
use polar_uv_robot.Network.Exec.{returned}
use polar_uv_robot.Network.Buffer.{Zstd, capacity, ArrayView, string_view}
use polar_uv_robot.Network.Buffer.Zlaws.{IsZstd}
use polar_uv_robot.Network.Session.{Session}
use polar_uv_robot.Network.Session.Serve.{request_data}
use polar_uv_robot.Network.Session.Refusals.{request_data-corrupt}
use polar_uv_robot.Network.Tests.{counter, with_service}

-- A format whose frames start with a one, and an error code for anything else.
abbrev content : Bytes → ℕ
content [] = 0
content (b ∷ x) = length x

abbrev unmark : ℕ → Bytes → Bytes × ℕ
unmark c [] = ([], 2 ^ 64 - 1)
unmark c (b ∷ x) = if b == 1 then (take c x, length x) else ([], 2 ^ 64 - 1)

abbrev marked : Zstd
marked = record {
  get_frame_content_size = content;
  decompress = unmark;
  compress_bound = suc;
  compress = λ c x l. (take c (1 ∷ x), suc (length x));
}

unmark_fits : (c : ℕ) (x : Bytes) → length (unmark c x).0 ≤ c
unmark_fits c [] = omega arith
unmark_fits c (b ∷ x) = ground (arith, length-take c x)

marked-IsZstd : IsZstd marked
marked-IsZstd = record {
  compress_fits = λ c x l. omega (arith, length-take c (1 ∷ x));
  decompress_fits = unmark_fits;
  compress_result = λ c x l h. rw (take_all c (1 ∷ x) h);
  content_size = λ c x l h. rw (take_all c (1 ∷ x) h);
  decompress-compress = λ c x l d h k. rw (take_all c (1 ∷ x) h, take_all d x k);
}

-- Three zeros are no frame of it.
abbrev corrupt : Session ℕ
corrupt = with_service counter [] 3

request_data-corrupt_example :
    let (out, s') =
      request_data marked (record { type = w; endpoint_id = 5; length = 3 }) corrupt in
    (v : ArrayView) × (out ≡ returned v)
    × (v.size ≡ 2 ^ 64 - 1)
    × ((string_view s'.buffer v).bytes ≡ none)
request_data-corrupt_example =
    request_data-corrupt marked marked-IsZstd corrupt 5 3 (omega arith)
      (length-replicate {A = ℕ} capacity 0) (omega arith) (omega arith)
