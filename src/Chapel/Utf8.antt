-- ===== src/Chapel/Utf8.antt =====
-- `valid_utf8`, `valid_text_boundary` and `utf8_scalar_count`.
pub mod Same
pub mod Count
use the_convex_100_language.Common.{
  ℕ, zero, suc, ◌+◌, ◌-◌, ◌*◌, ◌/◌, ◌%◌, ◌≡◌, Bool, true, false, not, ◌&&◌, ◌||◌, Option, none,
  some, [], ◌∷◌, length, get_or, drop, ltb, leb, ◌==◌, if◌then◌else◌, Bytes,
}

-- The number of continuation bytes, and the bits of the code in the first byte.
unfoldable pub lead_of : ℕ → Option (ℕ × ℕ)
lead_of first =
    if leb 0xc2 first && leb first 0xdf
    then some (1, first % 32)
    else if leb 0xe0 first && leb first 0xef
    then some (2, first % 16)
    else if leb 0xf0 first && leb first 0xf4
    then some (3, first % 8)
    else none

-- The loop over the continuation bytes: `codepoint = (codepoint << 6) | (next & 0x3f)`.
unfoldable pub continue_bytes : ℕ → ℕ → Bytes → Option ℕ
continue_bytes zero codepoint bytes = some codepoint
continue_bytes (suc n) codepoint [] = none
continue_bytes (suc n) codepoint (next ∷ bytes) =
    let later = continue_bytes n (codepoint * 64 + next % 64) bytes in
    if not (next / 64 % 4 == 2) then none else later

abbrev pub is_refused : ℕ → ℕ → Bool
is_refused continuation codepoint =
    ((continuation == 2) && ltb codepoint 0x800)
    || ((continuation == 3) && ltb codepoint 0x10000)
    || ltb 0x10ffff codepoint
    || (leb 0xd800 codepoint && leb codepoint 0xdfff)

abbrev pub finish_code : ℕ → Option ℕ → Option ℕ
finish_code continuation none = none
finish_code continuation (some codepoint) =
    if is_refused continuation codepoint then none else some continuation

abbrev pub after_lead : Option (ℕ × ℕ) → Bytes → Option ℕ
after_lead none rest = none
after_lead (some (continuation, codepoint)) rest =
    if ltb (length rest) continuation
    then none
    else finish_code continuation (continue_bytes continuation codepoint rest)

-- One pass: how many bytes after the first one belong to it, or `none` for `return 0`.
unfoldable pub pass : ℕ → Bytes → Option ℕ
pass first rest = if ltb first 0x80 then some 0 else after_lead (lead_of first) rest

unfoldable pub passes : ℕ → Bytes → Bool
passes n [] = true
passes zero (first ∷ rest) = false
passes (suc n) (first ∷ rest) = elim (pass first rest) [
  | none ↦ false
  | some continuation ↦ passes n (drop continuation rest)
]

-- Each pass takes a byte at least.
unfoldable pub valid_utf8 : Bytes → Bool
valid_utf8 value = passes (length value) value

-- `memchr(value, '\0', length)`
unfoldable pub has_nul : Bytes → Bool
has_nul [] = false
has_nul (c ∷ value) = (c == 0) || has_nul value

-- A buffer of `length` bytes, that the caller says to be text; `none` for NULL. `terminated` is
-- `value[length] == '\0'`.
unfoldable pub valid_text_boundary : Option Bytes → ℕ → Bool → Bool
valid_text_boundary none size terminated = size == 0
valid_text_boundary (some value) size terminated =
    if size == 0 then true else terminated && not (has_nul value) && valid_utf8 value

unfoldable pub is_whitespace : ℕ → Bool
is_whitespace c =
    (leb 0x09 c && leb c 0x0d)
    || (c == 0x20)
    || (c == 0x85)
    || (c == 0xa0)
    || (c == 0x1680)
    || (leb 0x2000 c && leb c 0x200a)
    || (c == 0x2028)
    || (c == 0x2029)
    || (c == 0x202f)
    || (c == 0x205f)
    || (c == 0x3000)

unfoldable pub continuation_of : ℕ → ℕ
continuation_of first =
    if ltb first 0x80 then 0 else if ltb first 0xe0 then 1 else if ltb first 0xf0 then 2 else 3

unfoldable pub bits_of : ℕ → ℕ
bits_of first =
    if ltb first 0x80
    then first
    else if ltb first 0xe0
    then first % 32
    else if ltb first 0xf0
    then first % 16
    else first % 8

-- `codepoint = (codepoint << 6) | (bytes[index + offset] & 0x3f)`
unfoldable pub join_bytes : ℕ → ℕ → Bytes → ℕ
join_bytes zero codepoint bytes = codepoint
join_bytes (suc n) codepoint [] = codepoint
join_bytes (suc n) codepoint (b ∷ bytes) = join_bytes n (codepoint * 64 + b % 64) bytes

-- The loop: -1 is `none`.
unfoldable pub count_rounds : ℕ → ℕ → Bool → ℕ → Bool → Bytes → Option ℕ
count_rounds n maximum require_nonblank count nonblank [] =
    if (count == 0) || (require_nonblank && not nonblank) then none else some count
count_rounds zero maximum require_nonblank count nonblank (first ∷ rest) = none
count_rounds (suc n) maximum require_nonblank count nonblank (first ∷ rest) =
    let codepoint = join_bytes (continuation_of first) (bits_of first) rest in
    let seen = nonblank || not (is_whitespace codepoint) in
    let later =
      count_rounds n maximum require_nonblank (suc count) seen
        (drop (continuation_of first) rest) in
    if ltb maximum (suc count) then none else later

-- The bytes in front of the first NUL, of which there are `strlen(value)`.
unfoldable pub c_string : Bytes → Bytes
c_string [] = []
c_string (c ∷ value) = if c == 0 then [] else c ∷ c_string value

unfoldable pub utf8_scalar_count : Bytes → ℕ → Bool → Option ℕ
utf8_scalar_count value maximum require_nonblank =
    let s = c_string value in
    let count = count_rounds (length s) maximum require_nonblank 0 false s in
    if not (valid_utf8 s) then none else count
