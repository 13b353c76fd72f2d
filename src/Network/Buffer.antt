-- ===== src/Network/Buffer.antt =====
-- src/Lib/TcpSession/BufferType.hpp, at `Buffer<1024>` of TcpSession.cpp: an array of
-- (3 + 1) * 1024 bytes that zstd compresses into and decompresses inside.
pub mod Zlaws
use polar_uv_robot.Prelude.{
  ℕ, ◌+◌, ◌-◌, ◌*◌, Option, none, some, ◌++◌, Bytes, utf8, ltb, leb, if◌then◌else◌, length, take,
  drop, replicate,
}
use polar_uv_robot.Network.Exceptions.{buffer_overflow}
use polar_uv_robot.Network.Exec.{returned, thrown, Exec}

-- The zstd library. A compressor and a decompressor take the capacity of the destination and return
-- what they wrote there and the `size_t` result, which is an error code if it is above the capacity.
pub record Zstd : Type 0 where
  pub get_frame_content_size : Bytes → ℕ
  pub decompress : ℕ → Bytes → Bytes × ℕ
  pub compress_bound : ℕ → ℕ
  pub compress : ℕ → Bytes → ℕ → Bytes × ℕ

abbrev pub buffer_size : ℕ
buffer_size = 1024

abbrev pub max_ratio : ℕ
max_ratio = 3

abbrev pub capacity : ℕ
capacity = (max_ratio + 1) * buffer_size

abbrev pub empty_buffer : Bytes
empty_buffer = replicate capacity 0

-- `ArrayView`: here an offset into the buffer, and a size.
pub record ArrayView : Type 0 where
  pub offset : ℕ
  pub size : ℕ

-- `std::string_view`: its size, and its bytes if it lies inside the array. Reading one that does not
-- is undefined behaviour.
pub record StringView : Type 0 where
  pub size : ℕ
  pub bytes : Option Bytes

-- `(std::string_view) data`
unfoldable pub string_view : Bytes → ArrayView → StringView
string_view buffer v = record {
  size = v.size;
  bytes =
      if leb (v.offset + v.size) (length buffer)
      then some (take v.size (drop v.offset buffer))
      else none;
}

-- The view of a whole string.
abbrev pub view_of : Bytes → StringView
view_of bs = record { size = length bs; bytes = some bs }

-- Overwrites the bytes from `o` on.
unfoldable pub write_at : ℕ → Bytes → Bytes → Bytes
write_at o bs buffer = take o buffer ++ (bs ++ drop (o + length bs) buffer)

module _ (z : Zstd) where
  -- `size` is at most `capacity`, so `Capacity() - size` does not wrap.
  unfoldable pub decompress : ℕ → Exec Bytes ArrayView
  unfolding write_at utf8
  decompress size buffer =
      let input = take size buffer in
      if ltb (capacity - size) (z.get_frame_content_size input)
      then (thrown (buffer_overflow (utf8 "Decompress size more then buffer")), buffer)
      else let (written, result) = z.decompress (capacity - size) input in
        (returned (record { offset = size; size = result }), write_at size written buffer)

  unfoldable pub compress : Bytes → Exec Bytes ArrayView
  unfolding write_at utf8
  compress src buffer =
      if ltb capacity (z.compress_bound (length src))
      then (thrown (buffer_overflow (utf8 "Compress size more then capacity of buffer")), buffer)
      else let (written, result) = z.compress capacity src 22 in
        (returned (record { offset = 0; size = result }), write_at 0 written buffer)
