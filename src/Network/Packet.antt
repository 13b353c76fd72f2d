-- ===== src/Network/Packet.antt =====
-- src/Lib/TcpSession/Packet.hpp: the two headers as they stand on the wire. Every field is eight
-- bytes, little-endian, as the structs lie in memory on the 64-bit ARM target.
use polar_uv_robot.Prelude.{
  ℕ, zero, suc, ◌+◌, ◌*◌, ◌/◌, ◌%◌, ◌^◌, ◌<◌, ◌≡◌, refl, Bool, true, false, ◌||◌, Option, none,
  some, List, [], ◌∷◌, ◌++◌, arith, Bytes, ◌==◌, if◌then◌else◌, length, take, drop,
}
pub mod Layout

abbrev pub size_mod : ℕ
size_mod = 2 ^ 64

-- The bytes of an unsigned word of `n` bytes, lowest first.
unfoldable pub to_le : ℕ → ℕ → Bytes
to_le zero x = []
to_le (suc n) x = x % 256 ∷ to_le n (x / 256)

unfoldable pub from_le : Bytes → ℕ
from_le [] = 0
from_le (b ∷ bs) = b + 256 * from_le bs

-- `RequestTypeEnum : size_t`; a client may send any other word.
pub data RequestType : Type 0 where
  r w wr : RequestType
  undefined : ℕ → RequestType

unfoldable pub request_type : ℕ → RequestType
request_type t = if t == 0 then r else if t == 1 then w else if t == 2 then wr else undefined t

-- `EndpointId` is an `ssize_t` that is only converted to the `size_t` key of the service map, so it
-- is kept as its 64-bit pattern.
pub record RequestHeader : Type 0 where
  pub type : RequestType
  pub endpoint_id : ℕ
  pub length : ℕ

abbrev pub request_header_size : ℕ
request_header_size = 24

unfoldable pub parse_request_header : Bytes → RequestHeader
parse_request_header bs = record {
  type = request_type (from_le (take 8 bs));
  endpoint_id = from_le (take 8 (drop 8 bs));
  length = from_le (take 8 (drop 16 bs));
}

-- `Response::CodeEnum : int64_t`
pub data Code : Type 0 where
  ok no_content bad_request connection_error buffer_overflow connection_timeout not_found : Code

unfoldable pub code_word : Code → ℕ
code_word ok = 0
code_word no_content = 1
code_word bad_request = 2
code_word connection_error = 3
code_word buffer_overflow = 4
code_word connection_timeout = 5
code_word not_found = 6

-- `Response::HeaderType`, with `EndpointId` as its 64-bit pattern.
pub record ResponseHeader : Type 0 where
  pub code : Code
  pub endpoint_id : ℕ
  pub length : ℕ

abbrev pub response_header_size : ℕ
response_header_size = 24

pub record Response : Type 0 where
  pub header : ResponseHeader
  pub body : Bytes

-- The constructor: the length in the header is the size of the body.
unfoldable pub response : Bytes → Code → ℕ → Response
response bytes c endpoint = record {
  header = record { code = c; endpoint_id = endpoint; length = length bytes };
  body = bytes;
}

-- `explicit operator bool`
unfoldable pub is_success : Response → Bool
is_success x = elim x.header.code [ Code.ok ↦ true | no_content ↦ true | _ ↦ false ]

-- The bytes of a header in memory.
unfoldable pub response_header_bytes : ResponseHeader → Bytes
response_header_bytes h = to_le 8 (code_word h.code) ++ (to_le 8 h.endpoint_id ++ to_le 8 h.length)
