-- ===== src/Chapel/Timestamp.antt =====
-- `base64_value`, `decode_timestamp` and `ct_timestamp_compare`.
pub mod Encoding
pub mod Order
use the_convex_100_language.Common.{
  ℕ, zero, suc, ◌+◌, ◌-◌, ◌*◌, ◌/◌, ◌%◌, Bool, true, false, not, ◌&&◌, ◌||◌, Option, none, some, [],
  ◌∷◌, ◌++◌, length, get_or, drop, ltb, leb, ◌==◌, if◌then◌else◌, Bytes, ℤ, pos, negsuc,
}

-- The result -1 is `none`.
unfoldable pub base64_value : ℕ → Option ℕ
base64_value value =
    if leb b'A' value && leb value b'Z'
    then some (value - b'A')
    else if leb b'a' value && leb value b'z'
    then some (value - b'a' + 26)
    else if leb b'0' value && leb value b'9'
    then some (value - b'0' + 52)
    else if value == b'+'
    then some 62
    else if value == b'/'
    then some 63
    else none

unfoldable pub or_padding : ℕ → Option ℕ
or_padding value = if value == b'=' then some 0 else base64_value value

-- `if (out < 8) output[out++] = (unsigned char)byte`
abbrev pub push : Bytes → ℕ → Bytes
push output byte = if ltb (length output) 8 then output ++ (byte % 256) ∷ [] else output

-- Three bytes of four values; `c_pads` and `d_pads` tell which characters are `=`.
abbrev pub push_group : Bytes → Bool → Bool → ℕ → ℕ → ℕ → ℕ → Bytes
push_group output c_pads d_pads a b c d =
    let first = push output (a * 4 + b / 16) in
    let second = if c_pads then first else push first (b * 16 + c / 4) in
    if d_pads then second else push second (c * 64 + d)

unfoldable pub group_of :
    Bytes → Bool → Bool → Option ℕ → Option ℕ → Option ℕ → Option ℕ → Option Bytes
group_of output c_pads d_pads (some a) (some b) (some c) (some d) =
    some (push_group output c_pads d_pads a b c d)
group_of output c_pads d_pads _ _ _ _ = none

-- The loop over the groups of four characters.
unfoldable pub groups : ℕ → Bytes → Bytes → Option Bytes
groups zero encoded output = some output
groups (suc n) encoded output =
    let c = get_or encoded 2 0 in
    let d = get_or encoded 3 0 in
    let next =
      group_of output (c == b'=') (d == b'=') (base64_value (get_or encoded 0 0))
        (base64_value (get_or encoded 1 0)) (or_padding c) (or_padding d) in
    elim next [ none ↦ none | some output' ↦ groups n (drop 4 encoded) output' ]

abbrev pub if_eight : Option Bytes → Option Bytes
if_eight none = none
if_eight (some output) = if length output == 8 then some output else none

-- NULL is `none`.
unfoldable pub decode_timestamp : Option Bytes → Option Bytes
decode_timestamp none = none
decode_timestamp (some encoded) =
    if not (length encoded == 12) || not (get_or encoded 11 0 == b'=')
    then none
    else if_eight (groups 3 encoded [])

-- The loop from index `n - 1` down to 0.
unfoldable pub compare_from : ℕ → Bytes → Bytes → ℤ
compare_from zero a b = pos 0
compare_from (suc n) a b =
    let lower = compare_from n a b in
    if get_or a n 0 == get_or b n 0
    then lower
    else if ltb (get_or b n 0) (get_or a n 0)
    then pos 1
    else negsuc 0

abbrev pub comparison : Option Bytes → Option Bytes → Option ℤ
comparison (some a) (some b) = some (compare_from 8 a b)
comparison _ _ = none

unfoldable pub ct_timestamp_compare : Option Bytes → Option Bytes → Option ℤ
ct_timestamp_compare left right = comparison (decode_timestamp left) (decode_timestamp right)
