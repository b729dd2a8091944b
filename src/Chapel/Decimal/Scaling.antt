-- ===== src/Chapel/Decimal/Scaling.antt =====
-- The products of `decimal_to_int64` in 64 bits, and its tests for a number that is too large.
use the_convex_100_language.Common.{
  ℕ, zero, suc, ◌+◌, ◌-◌, ◌*◌, ◌%◌, ◌^◌, ◌≤◌, ◌<◌, ◌≡◌, ◌∙◌, [], ◌∷◌, length, Bytes, All, arith,
}
use native.Mathlib.Nat.{pow-succ', mul-le-mul_right}
use the_convex_100_language.Chapel.Chars.{IsDigit}
use the_convex_100_language.Chapel.Decimal.{read_magnitude, times_ten}
use the_convex_100_language.Chapel.Decimal.Digits.{
  number, number_lt, power_pos, power_add, power_mono,
}

-- The prefixes of a product that fits fit as well.
read_magnitude_exact :
    (ds : Bytes) (m : ℕ)
    → m * 10 ^ length ds + number ds < 2 ^ 64
    → read_magnitude m ds ≡ m * 10 ^ length ds + number ds
unfolding read_magnitude
read_magnitude_exact [] m h = omega arith
read_magnitude_exact (c ∷ ds) m h =
    let power = pow-succ' 10 (length ds) in
    let total : (m * 10 + (c - 48)) * 10 ^ length ds + number ds
        ≡ m * 10 ^ suc (length ds) + ((c - 48) * 10 ^ length ds + number ds) =
      rw power (omega arith) in
    let prefix : m * 10 + (c - 48) ≤ (m * 10 + (c - 48)) * 10 ^ length ds =
      grind (arith, power_pos (length ds)) in
    let fits : (m * 10 + (c - 48)) % 2 ^ 64 ≡ m * 10 + (c - 48) = omega arith in
    rw fits (read_magnitude_exact ds (m * 10 + (c - 48)) (omega arith) ∙ total)

times_ten_exact : (n m : ℕ) → m * 10 ^ n < 2 ^ 64 → times_ten n m ≡ m * 10 ^ n
unfolding times_ten
times_ten_exact zero m h = omega arith
times_ten_exact (suc n) m h =
    let total : m * 10 * 10 ^ n ≡ m * 10 ^ suc n = rw (pow-succ' 10 n) (omega arith) in
    let prefix : m * 10 ≤ m * 10 * 10 ^ n = grind (arith, power_pos n) in
    let fits : (m * 10) % 2 ^ 64 ≡ m * 10 = omega arith in
    rw fits (times_ten_exact n (m * 10) (omega arith) ∙ total)

-- What the magnitude is when the length tests pass.
pub magnitude_exact :
    (v : Bytes) (above : ℕ)
    → All IsDigit v
    → length v + above ≤ 19
    → times_ten above (read_magnitude 0 v) ≡ number v * 10 ^ above
magnitude_exact v above h short =
    let bound = number_lt v h in
    let sum = power_add (length v) above in
    let small = power_mono (length v + above) 19 short in
    let some' = power_pos above in
    let product : number v * 10 ^ above ≤ 10 ^ length v * 10 ^ above =
      mul-le-mul_right (10 ^ above) (omega (arith, bound)) in
    let alone : number v ≤ number v * 10 ^ above = grind (arith, some') in
    let read : read_magnitude 0 v ≡ number v =
      read_magnitude_exact v 0 (omega arith) ∙ omega arith in
    rw read (times_ten_exact above (number v) (omega arith))

-- A number that the length tests refuse is out of range.
pub too_long : (v above n : ℕ) → 10 ^ n ≤ v → 19 ≤ n + above → 9223372036854775808 < v * 10 ^ above
too_long v above n h long =
    let low = power_mono 19 (n + above) long in
    let sum = power_add n above in
    let product : 10 ^ n * 10 ^ above ≤ v * 10 ^ above = mul-le-mul_right (10 ^ above) h in
    omega arith
