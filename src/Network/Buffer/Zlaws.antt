-- ===== src/Network/Buffer/Zlaws.antt =====
-- What src/Lib/TcpSession/BufferType.hpp relies on in the zstd library, as its manual states it, and
-- the lengths that follow for the buffer.
use polar_uv_robot.Prelude.{
  ℕ, ◌+◌, ◌-◌, ◌≤◌, ◌≡◌, ◌++◌, arith, Bytes, length, take, drop, length-append, length-take,
  length-drop, take_all, take-append, drop-append,
}
use mathlib.Core.Path.{subst}
use polar_uv_robot.Network.Exec.{returned}
use polar_uv_robot.Network.Buffer.{Zstd, capacity, string_view, view_of, write_at, decompress}

pub record IsZstd (z : Zstd) : Type 0 where
  -- Neither function writes past the capacity it is given.
  pub compress_fits : (c : ℕ) (x : Bytes) (l : ℕ) → length (z.compress c x l).0 ≤ c
  pub decompress_fits : (c : ℕ) (x : Bytes) → length (z.decompress c x).0 ≤ c
  -- With room for `compress_bound` bytes compression succeeds, and returns what it wrote.
  pub compress_result :
      (c : ℕ) (x : Bytes) (l : ℕ)
      → z.compress_bound (length x) ≤ c
      → (z.compress c x l).1 ≡ length (z.compress c x l).0
  -- A frame records the length of its content, and decompresses to it if there is room.
  pub content_size :
      (c : ℕ) (x : Bytes) (l : ℕ)
      → z.compress_bound (length x) ≤ c
      → z.get_frame_content_size (z.compress c x l).0 ≡ length x
  pub decompress-compress :
      (c : ℕ) (x : Bytes) (l d : ℕ)
      → z.compress_bound (length x) ≤ c
      → length x ≤ d
      → z.decompress d (z.compress c x l).0 ≡ (x, length x)

-- A store that copies meets the laws.
abbrev pub stored : Zstd
stored = record {
  get_frame_content_size = length;
  decompress = λ c x. (take c x, length x);
  compress_bound = λ n. n;
  compress = λ c x l. (take c x, length x);
}

pub stored-IsZstd : IsZstd stored
stored-IsZstd = record {
  compress_fits = λ c x l. omega (arith, length-take c x);
  decompress_fits = λ c x. omega (arith, length-take c x);
  compress_result = λ c x l h. rw (take_all c x h);
  content_size = λ c x l h. rw (take_all c x h);
  decompress-compress = λ c x l d h k. rw (take_all c x h, take_all d x k);
}

-- A write inside the array keeps its length.
pub length-write_at :
    (o : ℕ) (bs buffer : Bytes)
    → o + length bs ≤ length buffer
    → length (write_at o bs buffer) ≡ length buffer
unfolding write_at
length-write_at o bs buffer h = omega (
  arith,
  length-append (take o buffer) (bs ++ drop (o + length bs) buffer),
  length-append bs (drop (o + length bs) buffer),
  length-take o buffer,
  length-drop (o + length bs) buffer,
)

-- What was written is what a view of the place shows.
pub string_view-write_at :
    (o : ℕ) (bs buffer : Bytes)
    → o + length bs ≤ length buffer
    → string_view (write_at o bs buffer) (record { offset = o; size = length bs }) ≡ view_of bs
unfolding string_view write_at
string_view-write_at o bs buffer h =
    let before = take o buffer in
    let after = bs ++ drop (o + length bs) buffer in
    let at : length before ≡ o = omega (arith, length-take o buffer) in
    let skip : drop o (before ++ after) ≡ after =
      subst (λ n. drop n (before ++ after) ≡ after) at (drop-append before after) in
    ground
      (arith, skip, take-append bs (drop (o + length bs) buffer), length-write_at o bs buffer h)

-- Decompressing a frame at the start of the buffer leaves its content behind it, in view.
pub decompress_lem :
    (z : Zstd) (laws : IsZstd z) (x tail buffer : Bytes)
    → let frame = (z.compress capacity x 22).0 in
      buffer ≡ frame ++ tail
      → length buffer ≡ capacity
      → z.compress_bound (length x) ≤ capacity
      → length x + length frame ≤ capacity
      → decompress z (length frame) buffer ≡ (
        returned (record { offset = length frame; size = length x }),
        write_at (length frame) x buffer,
      )
unfolding decompress
decompress_lem z laws x tail buffer e l bound fits =
    let frame = (z.compress capacity x 22).0 in
    let whole : take (length frame) buffer ≡ frame = rw e (take-append frame tail) in
    ground (
      arith,
      whole,
      laws.content_size capacity x 22 bound,
      laws.decompress-compress capacity x 22 (capacity - length frame) bound (omega arith),
    )
