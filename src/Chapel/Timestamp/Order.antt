-- ===== src/Chapel/Timestamp/Order.antt =====
-- `ct_timestamp_compare` on the base64 texts of 64-bit numbers.
use the_convex_100_language.Common.{
  ℕ, zero, suc, ◌^◌, ◌<◌, ◌≡◌, refl, ap, ◌∙◌, some, ltb, ◌==◌, if◌then◌else◌, Bytes, arith, ℤ, pos,
  negsuc,
}
use the_convex_100_language.Extension.Bits.{IsByte}
use the_convex_100_language.Extension.Timestamp.{
  Comparison, less, greater, compare_bytes, value, order_of, HasBytes, compare_bytes_lem,
}
use the_convex_100_language.Chapel.Timestamp.{compare_from, ct_timestamp_compare}
use the_convex_100_language.Chapel.Timestamp.Encoding.{
  byte_of, bytes_of, encode_timestamp, byte_of-IsByte, decode_timestamp-encode,
}

-- The sign that the function gives to an order.
abbrev pub sign : Comparison → ℤ
sign less = negsuc 0
sign greater = pos 1
sign _ = pos 0

compare_from-sign : (n : ℕ) (a b : Bytes) → compare_from n a b ≡ sign (compare_bytes n a b)
unfolding compare_from compare_bytes
compare_from-sign zero a b = refl
compare_from-sign (suc n) a b = ground (arith, compare_from-sign n a b)

sign-order_of :
    (s t : ℕ)
    → sign (order_of s t) ≡ (if s == t then pos 0 else if ltb t s then pos 1 else negsuc 0)
sign-order_of s t = ground arith

value-bytes_of : (t : ℕ) → t < 2 ^ 64 → value 8 (bytes_of t) ≡ t
value-bytes_of t h = omega arith

bytes_of-HasBytes : (t : ℕ) → HasBytes 8 (bytes_of t)
bytes_of-HasBytes t =
    let b : (n : ℕ) → IsByte (byte_of n t) = λ n. byte_of-IsByte n t in
    ((((((((tt, b 0), b 1), b 2), b 3), b 4), b 5), b 6), b 7)

-- Two timestamps, each the base64 text of a 64-bit number with its least significant byte first, are
-- compared as the numbers are: -1, 0 or 1.
pub ct_timestamp_compare_lem :
    (s t : ℕ)
    → s < 2 ^ 64
    → t < 2 ^ 64
    → ct_timestamp_compare (some (encode_timestamp s)) (some (encode_timestamp t))
      ≡ some (if s == t then pos 0 else if ltb t s then pos 1 else negsuc 0)
unfolding ct_timestamp_compare
ct_timestamp_compare_lem s t hs ht =
    let order =
      compare_from-sign 8 (bytes_of s) (bytes_of t)
      ∙ ap sign (
          compare_bytes_lem 8 (bytes_of s) (bytes_of t) (bytes_of-HasBytes s)
            (bytes_of-HasBytes t)) in
    rw
      (
        decode_timestamp-encode s,
        decode_timestamp-encode t,
        order,
        value-bytes_of s hs,
        value-bytes_of t ht,
      )
      (ap some (sign-order_of s t))
