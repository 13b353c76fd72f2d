-- ===== src/Prelude/Text.antt =====
-- Byte strings, and the UTF-8 bytes of a text literal.
use Prim.Native.Nat.{ℕ, ◌+◌, ◌/◌, ◌%◌}
use Prim.Native.Char.{code}
use Prim.Native.String.{String}
use mathlib.Core.List.{List, [], ◌∷◌, ◌++◌}
use polar_uv_robot.Prelude.Tests.{ltb, if◌then◌else◌}

-- `std::string`, `std::string_view` and `char` arrays: bytes below 256.
abbrev pub Bytes : Type 0
Bytes = List ℕ

-- One code point below 2 ^ 16, which covers the texts of the source.
abbrev pub utf8_char : ℕ → Bytes
utf8_char c =
    if ltb c 0x80
    then c ∷ []
    else if ltb c 0x800
    then (0xc0 + c / 64) ∷ (0x80 + c % 64) ∷ []
    else (0xe0 + c / 4096) ∷ (0x80 + c / 64 % 64) ∷ (0x80 + c % 64) ∷ []

unfoldable pub utf8 : String → Bytes
utf8 String.[] = []
utf8 (String.◌∷◌ c s) = utf8_char (code c) ++ utf8 s
