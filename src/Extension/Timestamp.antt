-- ===== src/Extension/Timestamp.antt =====
-- `decode_timestamp` and `do_ts_cmp`: the order of Convex's base64 timestamps. The base64 functions of
-- OpenSSL are arguments.
use the_convex_100_language.Common.{
  ℕ, zero, suc, ◌+◌, ◌*◌, ◌≤◌, ◌<◌, ◌≡◌, inl, inr, refl, ap, not, ◌||◌, Option, none, some, length,
  length-take, get_or, take, ltb, ◌==◌, if◌then◌else◌, Bytes, same, same_iff, arith, Option-cases,
  Bool-cases,
}
use native.Mathlib.Nat.{mul-le-mul_left, mul-suc}
use the_convex_100_language.Extension.Bits.{IsByte}

-- `EVP_DecodeBlock`, whose result is -1 for `none`, and `EVP_EncodeBlock`.
pub record Base64 : Type 0 where
  pub decode_block : Bytes → Option Bytes
  pub encode_block : Bytes → Bytes

abbrev if_canonical : Base64 → Bytes → Option Bytes → Option Bytes
if_canonical b text none = none
if_canonical b text (some decoded) =
    if not (length decoded == 9)
    then none
    else if same (b.encode_block (take 8 decoded)) text
    then some (take 8 decoded)
    else none

-- The eight bytes of a canonical timestamp.
unfoldable pub decode_timestamp : Base64 → Bytes → Option Bytes
decode_timestamp b text =
    if not (length text == 12) || not (get_or text 11 0 == b'=')
    then none
    else if_canonical b text (b.decode_block text)

-- The results -2, -1, 0 and 1.
pub data Comparison : Type 0 where
  not_canonical less equal greater : Comparison

-- The loop from index `n - 1` down to 0.
unfoldable pub compare_bytes : ℕ → Bytes → Bytes → Comparison
compare_bytes zero left right = equal
compare_bytes (suc n) left right =
    let lower = compare_bytes n left right in
    if not (get_or left n 0 == get_or right n 0)
    then (if ltb (get_or right n 0) (get_or left n 0) then greater else less)
    else lower

abbrev compare_decoded : Option Bytes → Option Bytes → Comparison
compare_decoded none right = not_canonical
compare_decoded (some left) none = not_canonical
compare_decoded (some left) (some right) = compare_bytes 8 left right

unfoldable pub do_ts_cmp : Base64 → Bytes → Bytes → Comparison
do_ts_cmp b left right = compare_decoded (decode_timestamp b left) (decode_timestamp b right)

-- The number that the `n` first bytes stand for, the least significant one first.
abbrev pub weight : ℕ → ℕ
weight zero = 1
weight (suc n) = 256 * weight n

abbrev pub value : ℕ → Bytes → ℕ
value zero bytes = 0
value (suc n) bytes = value n bytes + weight n * get_or bytes n 0

-- The order of two numbers.
abbrev pub order_of : ℕ → ℕ → Comparison
order_of a b = if a == b then equal else if ltb b a then greater else less

-- The indices below `n` hold bytes.
abbrev pub HasBytes : ℕ → Bytes → Type 0
HasBytes zero bytes = Unit
HasBytes (suc n) bytes = HasBytes n bytes × IsByte (get_or bytes n 0)

value_bound : (n : ℕ) (bytes : Bytes) → HasBytes n bytes → value n bytes < weight n
value_bound zero bytes h = omega arith
value_bound (suc n) bytes h =
    let low = value_bound n bytes h.0 in
    let top : get_or bytes n 0 ≤ 255 = omega (arith, h.1) in
    let high = mul-le-mul_left (weight n) top in omega arith

-- A larger digit outweighs all below it.
digit : (w x y a b : ℕ) → x < w → a < b → x + w * a < y + w * b
digit w x y a b h k =
    let next : suc a ≤ b = omega (arith, k) in
    let m = mul-le-mul_left w next in let s = mul-suc w a in omega arith

pub compare_bytes_lem :
    (n : ℕ) (left right : Bytes)
    → HasBytes n left
    → HasBytes n right
    → compare_bytes n left right ≡ order_of (value n left) (value n right)
unfolding compare_bytes
compare_bytes_lem zero left right l r = refl
compare_bytes_lem (suc n) left right l r =
    let w = weight n in
    let a = get_or left n 0 in
    let b = get_or right n 0 in
    let x = value_bound n left l.0 in
    let y = value_bound n right r.0 in
    elim (Bool-cases (a == b)) [
      | inl tie ↦
          let same' : a ≡ b = ground arith in
          let product : w * a ≡ w * b = ap (λ k. w * k) same' in
          ground (arith, compare_bytes_lem n left right l.0 r.0)
      | inr apart ↦ elim (Bool-cases (ltb b a)) [
        | inl above ↦
            let d = digit w (value n right) (value n left) b a y (ground arith) in ground arith
        | inr below ↦
            let d = digit w (value n left) (value n right) a b x (ground arith) in ground arith
      ]
    ]

-- Of two canonical timestamps `convex_ts_cmp` gives the numeric order of the little-endian 64-bit
-- numbers that they encode, whatever base64 library decodes them to bytes.
pub do_ts_cmp_lem :
    (b : Base64) (left right l r : Bytes)
    → decode_timestamp b left ≡ some l
    → decode_timestamp b right ≡ some r
    → HasBytes 8 l
    → HasBytes 8 r
    → do_ts_cmp b left right ≡ order_of (value 8 l) (value 8 r)
unfolding do_ts_cmp
do_ts_cmp_lem b left right l r el er hl hr = rw (el, er) (compare_bytes_lem 8 l r hl hr)

-- A timestamp that is accepted has twelve characters, is the encoding of the bytes that it gives, and
-- these are eight: there is one spelling of each timestamp.
pub decode_timestamp_canonical :
    (b : Base64) (text bytes : Bytes)
    → decode_timestamp b text ≡ some bytes
    → (length text ≡ 12) × (b.encode_block bytes ≡ text) × (length bytes ≡ 8)
unfolding decode_timestamp
decode_timestamp_canonical b text bytes e = elim (Option-cases (b.decode_block text)) [
  | inl bad ↦ absurd (ground arith)
  | inr (decoded, d) ↦
      let encoded = same_iff (b.encode_block (take 8 decoded)) text in
      let n = length-take 8 decoded in (ground arith, ground (arith, encoded), ground (arith, n))
]
