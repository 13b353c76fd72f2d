-- ===== src/Robot/Start/File.antt =====
-- What `parseFile` of src/Robot/Features/StartSettings/StartSettings.cpp reads of a text.
use polar_uv_robot.Prelude.{
  ℕ, zero, suc, ◌+◌, ◌≤◌, ◌<◌, ◌≡◌, ◌≢◌, refl, none, some, false, true, [], ◌∷◌, Bytes, ◌==◌, ltb,
  length, length-drop, Bool-cases, inl, inr, drop, take, take_all, length-take, All, arith,
}
use native.Mathlib.Numerals.{add-one}
use polar_uv_robot.Robot.Start.{until_nul, buf_size, file_texts}

-- A text has no zero.
abbrev pub IsText : Bytes → Type 0
IsText = All (λ c. c ≢ 0)

pub until_nul_lem : (bs : Bytes) → IsText bs → until_nul bs ≡ bs
unfolding until_nul
until_nul_lem [] h = refl
until_nul_lem (c ∷ bs) (h, hs) =
    let e : (c == 0) ≡ false = grind arith in rw (e, until_nul_lem bs hs)

All-take : (n : ℕ) (bs : Bytes) → IsText bs → IsText (take n bs)
All-take zero bs h = tt
All-take (suc n) [] h = tt
All-take (suc n) (c ∷ bs) (h, hs) = (h, All-take n bs hs)

-- The fuel that is given is enough: more of it changes nothing.
file_texts_fuel :
    (fuel : ℕ) (file : Bytes)
    → length file < fuel
    → file_texts (suc fuel) file ≡ file_texts fuel file
unfolding file_texts
file_texts_fuel zero file h = elim h [ ]
file_texts_fuel (suc fuel) file h = elim (Bool-cases (ltb (length file) buf_size)) [
  | inl e ↦ rw e refl
  | inr e ↦
      let shorter : length (drop buf_size file) < fuel = grind (arith, length-drop buf_size file) in
      rw (file_texts_fuel fuel (drop buf_size file) shorter) refl
]

-- A file that is a text reaches the parser as one whole text if it is shorter than 1024 bytes; if it
-- is longer, its first piece is read past the end of the array.
pub file_texts_lem :
    (file : Bytes)
    → IsText file
    → (length file < buf_size → file_texts (length file + 1) file ≡ some (file ∷ []))
      × (buf_size ≤ length file → file_texts (length file + 1) file ≡ none)
unfolding file_texts
file_texts_lem file h =
    let piece = take buf_size file in
    let e = until_nul_lem piece (All-take buf_size file h) in
    let n = length-take buf_size file in
    (
      λ l.
          let whole_file = take_all buf_size file (omega arith) in
          let e1 : (length file == buf_size) ≡ false = grind arith in
          let e2 : ltb (length file) buf_size ≡ true = grind arith in
          rw (add-one, file_texts, e, whole_file, e1, e2),
      λ l.
          let e1 : (length piece == buf_size) ≡ true = grind arith in
          rw (add-one, file_texts, e, e1),
    )
