-- ===== src/Network/Packet/Layout.antt =====
-- Words and headers laid out in memory: lengths and round trips. `request_bytes` is the client's
-- side of src/Lib/TcpSession/Packet.hpp.
use polar_uv_robot.Prelude.{
  ℕ, zero, suc, ◌<◌, ◌≡◌, refl, sym, ◌∙◌, ap, ◌++◌, arith, Bytes, length, take, drop,
}
use polar_uv_robot.Network.Packet.{
  size_mod, to_le, from_le, request_type, parse_request_header, ResponseHeader, Code, code_word,
  response_header_bytes,
}

pub length-to_le : (n x : ℕ) → length (to_le n x) ≡ n
unfolding to_le
length-to_le zero x = refl
length-to_le (suc n) x = ap suc (length-to_le n _)

pub from_le-to_le : (x : ℕ) → x < size_mod → from_le (to_le 8 x) ≡ x
unfolding from_le to_le
from_le-to_le x h = omega arith

-- Three words in a row are read back one by one.
module _ (a b c : ℕ) where
  words : Bytes
  words = to_le 8 a ++ (to_le 8 b ++ to_le 8 c)

  words_first : a < size_mod → from_le (take 8 words) ≡ a
  unfolding words to_le
  words_first h = from_le-to_le a h

  words_second : b < size_mod → from_le (take 8 (drop 8 words)) ≡ b
  unfolding words to_le
  words_second h = from_le-to_le b h

  words_third : c < size_mod → from_le (take 8 (drop 16 words)) ≡ c
  unfolding words to_le
  words_third h = from_le-to_le c h

-- What a client sends before the payload.
pub request_bytes : (t endpoint len : ℕ) → Bytes
request_bytes t endpoint len = to_le 8 t ++ (to_le 8 endpoint ++ to_le 8 len)

pub length-request_bytes : (t e l : ℕ) → length (request_bytes t e l) ≡ 24
unfolding request_bytes to_le
length-request_bytes t e l = refl

pub length-response_header_bytes : (h : ResponseHeader) → length (response_header_bytes h) ≡ 24
unfolding response_header_bytes to_le
length-response_header_bytes h = refl

-- The server reads from the header of a request the type, the endpoint and the length that the
-- client wrote, if they are 64-bit words.
pub parse_request_header-request_bytes :
    (t e l : ℕ)
    → t < size_mod
    → e < size_mod
    → l < size_mod
    → parse_request_header (request_bytes t e l)
      ≡ record { type = request_type t; endpoint_id = e; length = l }
unfolding request_bytes parse_request_header words
parse_request_header-request_bytes t e l ht he hl =
    rw (words_first t e l ht, words_second t e l he, words_third t e l hl)

code_word-injective : (c d : Code) → code_word c ≡ code_word d → c ≡ d
unfolding code_word
code_word-injective c d h = ground arith

code_word-lt : (c : Code) → code_word c < size_mod
unfolding code_word
code_word-lt c = ground arith

-- Two response headers with the same bytes are the same header, if their words fit 64 bits.
pub response_header_bytes-injective :
    (g h : ResponseHeader)
    → g.endpoint_id < size_mod
    → g.length < size_mod
    → h.endpoint_id < size_mod
    → h.length < size_mod
    → response_header_bytes g ≡ response_header_bytes h
    → g ≡ h
unfolding response_header_bytes words
response_header_bytes-injective g h ge gl he hl e =
    let cg = code_word g.code in
    let ch = code_word h.code in
    let same_code : cg ≡ ch =
      sym (words_first cg g.endpoint_id g.length (code_word-lt g.code))
      ∙ (ap (λ b. from_le (take 8 b)) e
          ∙ words_first ch h.endpoint_id h.length (code_word-lt h.code)) in
    let same_endpoint : g.endpoint_id ≡ h.endpoint_id =
      sym (words_second cg g.endpoint_id g.length ge)
      ∙ (ap (λ b. from_le (take 8 (drop 8 b))) e ∙ words_second ch h.endpoint_id h.length he) in
    let same_length : g.length ≡ h.length =
      sym (words_third cg g.endpoint_id g.length gl)
      ∙ (ap (λ b. from_le (take 8 (drop 16 b))) e ∙ words_third ch h.endpoint_id h.length hl) in
    ground (arith, code_word-injective g.code h.code)
