-- ===== src/Extension/Utf8.antt =====
-- `do_utf8_valid`, behind its argument check, and the encoding of Unicode scalar values.
pub mod Sound
pub mod Exact
use the_convex_100_language.Common.{
  ℕ, zero, suc, ◌+◌, ◌-◌, ◌*◌, ◌/◌, ◌%◌, ◌≤◌, ◌<◌, ◌≡◌, ◌⊎◌, ◌↔◌, inl, inr, refl, sym, ap, ◌∙◌,
  Bool, true, false, not, ◌&&◌, ◌||◌, Option, none, some, List, [], ◌∷◌, ◌++◌, append_assoc, length,
  length-append, length-drop, drop, All, ltb, leb, ◌==◌, if◌then◌else◌, Bytes, arith, Option-cases,
  Bool-cases,
}
use the_convex_100_language.Extension.Bits.{IsByte}

-- The loop over the continuation bytes: `code = (code << 6) | (continuation & 0x3f)`.
unfoldable pub join_continuations : ℕ → ℕ → Bytes → Option ℕ
join_continuations zero code bytes = some code
join_continuations (suc n) code [] = none
join_continuations (suc n) code (b ∷ bytes) =
    let later = join_continuations n (code * 64 + b % 64) bytes in
    if b / 64 % 4 == 2 then later else none

-- The checks of a code that has `extra` continuation bytes; the result is how many bytes to skip.
abbrev pub check_code : ℕ → Option ℕ → Option ℕ
check_code extra none = none
check_code extra (some code) =
    if (extra == 2) && ltb code 2048
    then none
    else if (extra == 3) && (ltb code 65536 || ltb 1114111 code)
    then none
    else if leb 55296 code && leb code 57343
    then none
    else some extra

abbrev pub check_sequence : ℕ → ℕ → Bytes → Option ℕ
check_sequence extra code rest =
    if ltb (length rest) extra then none else check_code extra (join_continuations extra code rest)

-- One pass at a lead byte: the number of bytes after it that belong to it, or `none` for `return 0`.
unfoldable pub utf8_step : ℕ → Bytes → Option ℕ
utf8_step lead rest =
    if ltb lead 128
    then some 0
    else if leb 194 lead && leb lead 223
    then check_sequence 1 (lead % 32) rest
    else if leb 224 lead && leb lead 239
    then check_sequence 2 (lead % 16) rest
    else if leb 240 lead && leb lead 244
    then check_sequence 3 (lead % 8) rest
    else none

-- The loop on the bytes from `index` on, with a bound on its passes.
unfoldable pub utf8_rounds : ℕ → Bytes → Bool
utf8_rounds n [] = true
utf8_rounds zero (lead ∷ rest) = false
utf8_rounds (suc n) (lead ∷ rest) = elim (utf8_step lead rest) [
  | none ↦ false
  | some extra ↦ utf8_rounds n (drop extra rest)
]

-- Each pass takes a byte at least.
unfoldable pub do_utf8_valid : Bytes → Bool
do_utf8_valid bytes = utf8_rounds (length bytes) bytes

-- A Unicode scalar value, and its UTF-8 encoding.
abbrev pub IsScalar : ℕ → Type 0
IsScalar c = (c < 55296) ⊎ ((57344 ≤ c) × (c < 1114112))

abbrev pub encode : ℕ → Bytes
encode c =
    if ltb c 128
    then c ∷ []
    else if ltb c 2048
    then (192 + c / 64) ∷ (128 + c % 64) ∷ []
    else if ltb c 65536
    then (224 + c / 4096) ∷ (128 + c / 64 % 64) ∷ (128 + c % 64) ∷ []
    else (240 + c / 262144) ∷ (128 + c / 4096 % 64) ∷ (128 + c / 64 % 64) ∷ (128 + c % 64) ∷ []

abbrev pub encode_all : List ℕ → Bytes
encode_all [] = []
encode_all (c ∷ cs) = encode c ++ encode_all cs
