-- ===== src/Chapel/Decimal/Convert.antt =====
-- The second part of `decimal_to_int64`, from the digits and the scale to the result.
use the_convex_100_language.Common.{
  ℕ, zero, suc, ◌+◌, ◌*◌, ◌^◌, ◌≤◌, ◌<◌, ◌≡◌, ◌⊎◌, ◌↔◌, inl, inr, refl, sym, ap, subst, ◌∙◌, Bool,
  true, false, ◌||◌, none, some, [], ◌∷◌, ◌++◌, length, length-take, take-of_le, get_or, take, ltb,
  ◌==◌, if◌then◌else◌, Bytes, All, arith, Bool-cases, ℤ, pos,
}
use native.Mathlib.Nat.{pow-succ', eq_of_mul-eq-mul_right}
use the_convex_100_language.Chapel.Chars.{IsDigit}
use the_convex_100_language.Chapel.Decimal.{
  Lexeme, surplus, deficit, drop_zeros, trim, limit, signed, scaled, convert,
}
use the_convex_100_language.Chapel.Decimal.Digits.{number, number-take-suc, power_pos}
use the_convex_100_language.Chapel.Decimal.Trimming.{
  Leading, Leading-take, Stopped, number-drop_zeros, drop_zeros-All, drop_zeros-Leading, trim-Trims,
}
use the_convex_100_language.Chapel.Decimal.Scaling.{magnitude_exact, too_long}

-- `z` is the number `v * 10 ^ above / 10 ^ below` with its sign, and in range.
abbrev pub Is : Bool → ℕ → ℕ → ℕ → ℤ → Type 0
Is negative v above below z =
    (m : ℕ) × (m * 10 ^ below ≡ v * 10 ^ above) × (m ≤ limit negative) × (signed negative m ≡ z)

signed_zero : (negative : Bool) → signed negative 0 ≡ pos 0
unfolding signed
signed_zero true = refl
signed_zero false = refl

scaled_nothing :
    (negative : Bool) (above below : ℕ) (digits : Bytes) (z : ℤ)
    → (scaled negative above digits 0 below ≡ some z) ↔ Is negative 0 above below z
unfolding scaled
scaled_nothing negative above below digits z = (there, back)
  where
    there : some (pos 0) ≡ some z → Is negative 0 above below z
    there e = (0, omega arith, ground arith, signed_zero negative ∙ ground arith)

    back : Is negative 0 above below z → some (pos 0) ≡ some z
    back (m, same, fits, e) =
        let p = power_pos below in
        let none' : m ≡ 0 = grind (arith, p, same) in
        ap some (sym (signed_zero negative) ∙ ap (signed negative) (sym none') ∙ e)

scaled_inexact :
    (negative : Bool) (digits : Bytes) (last below : ℕ) (z : ℤ)
    → All IsDigit digits
    → suc last ≤ length digits
    → (get_or digits last 0 == b'0') ≡ false
    → (scaled negative 0 digits (suc last) (suc below) ≡ some z)
      ↔ Is negative (number (take (suc last) digits)) 0 (suc below) z
unfolding scaled
scaled_inexact negative digits last below z h l n =
    (λ e. absurd (ground arith), λ (m, same, fits, e). absurd (divides m same))
  where
    digit : (ds : Bytes) (i : ℕ) → All IsDigit ds → i < length ds → IsDigit (get_or ds i 0)
    digit [] i h l = absurd (omega arith)
    digit (c ∷ ds) zero h l = h.0
    digit (c ∷ ds) (suc i) h l = digit ds i h.1 (omega arith)

    divides : (m : ℕ) → m * 10 ^ suc below ≡ number (take (suc last) digits) * 10 ^ 0 → ⊥
    divides m same =
        let d = digit digits last h (omega arith) in
        let step = number-take-suc last digits (omega arith) in
        let split = ap (λ k. m * k) (sym (pow-succ' 10 below)) ∙ same in
        let same' : 10 * (m * 10 ^ below) ≡ number (take (suc last) digits) = omega arith in
        ground (arith, step)

take-All : (n : ℕ) (ds : Bytes) → All IsDigit ds → All IsDigit (take n ds)
take-All zero ds h = tt
take-All (suc n) [] h = tt
take-All (suc n) (c ∷ ds) h = (h.0, take-All n ds h.1)

limit-le : (negative : Bool) → limit negative ≤ 9223372036854775808
limit-le true = omega arith
limit-le false = omega arith

in_range :
    (negative : Bool) (v above : ℕ) (z : ℤ)
    → ((if ltb (limit negative) (v * 10 ^ above)
          then none
          else some (signed negative (v * 10 ^ above)))
        ≡ some z)
      ↔ Is negative v above 0 z
in_range negative v above z = elim (Bool-cases (ltb (limit negative) (v * 10 ^ above))) [
  | inl large ↦ (λ e. absurd (ground arith), λ (m, same, fits, e). absurd (ground arith))
  | inr fits ↦ rw fits (
    λ e. (v * 10 ^ above, omega arith, ground arith, ground arith),
    λ (m, same, le, e).
        let m' : m ≡ v * 10 ^ above = omega (arith, same) in
        ap some (sym (ap (signed negative) m') ∙ e),
  )
]

scaled_whole :
    (negative : Bool) (above : ℕ) (digits : Bytes) (n : ℕ) (z : ℤ)
    → All IsDigit digits
    → Leading digits
    → n < length digits
    → (scaled negative above digits (suc n) 0 ≡ some z)
      ↔ Is negative (number (take (suc n) digits)) above 0 z
unfolding scaled
scaled_whole negative above digits n z h lead l =
    let v = number (take (suc n) digits) in
    let low = Leading-take n digits lead l in
    let top = limit-le negative in
    elim (Bool-cases (ltb 19 above || ltb 19 (suc n + above))) [
      | inl long ↦
          let large = too_long v above n low (ground arith) in
          (λ e. absurd (ground arith), λ (m, same, fits, e). absurd (omega arith))
      | inr short ↦
          let whole : length (take (suc n) digits) ≡ suc n =
            omega (arith, length-take (suc n) digits) in
          let exact =
            magnitude_exact (take (suc n) digits) above (take-All (suc n) digits h)
              (ground arith) in
          let some' : (suc n == 0) ≡ false = ground arith in
          rw (some', short, exact) (in_range negative v above z)
    ]

pub cancel : (k a b : ℕ) → a * 10 ^ k ≡ b * 10 ^ k → a ≡ b
cancel k a b e = eq_of_mul-eq-mul_right (10 ^ k) (power_pos k) a b e

rescaled :
    (m v w s b d : ℕ) → v * 10 ^ d ≡ w * 10 ^ b → m * 10 ^ b ≡ v * 10 ^ s → m * 10 ^ d ≡ w * 10 ^ s
rescaled m v w s b d trade e =
    let e' = ap (λ k. k * 10 ^ d) e in
    let t' = ap (λ k. k * 10 ^ s) trade in cancel b (m * 10 ^ d) (w * 10 ^ s) (omega arith)

Is-rescaled :
    (negative : Bool) (v w s b d : ℕ) (z : ℤ)
    → v * 10 ^ d ≡ w * 10 ^ b
    → Is negative v s b z ↔ Is negative w s d z
Is-rescaled negative v w s b d z trade = (
  λ (m, same, fits, e). (m, rescaled m v w s b d trade same, fits, e),
  λ (m, same, fits, e). (m, rescaled m w v s d b (sym trade) same, fits, e),
)

-- The second part of the function, whatever the first part has read.
scaled_iff :
    (negative : Bool) (above : ℕ) (digits : Bytes) (significant below : ℕ) (z : ℤ)
    → All IsDigit digits
    → Leading digits
    → significant ≤ length digits
    → (above ≡ 0) ⊎ (below ≡ 0)
    → Stopped digits significant below
    → (scaled negative above digits significant below ≡ some z)
      ↔ Is negative (number (take significant digits)) above below z
scaled_iff negative above digits zero below z h lead l one stops =
    scaled_nothing negative above below digits z
scaled_iff negative above digits (suc n) zero z h lead l one stops =
    scaled_whole negative above digits n z h lead l
scaled_iff negative above digits (suc n) (suc b) z h lead l one (inl e) = absurd (omega arith)
scaled_iff negative above digits (suc n) (suc b) z h lead l one (inr (inl e)) = absurd (omega arith)
scaled_iff negative above digits (suc n) (suc b) z h lead l one (inr (inr (last, e, other))) =
    let same' : last ≡ n = omega (arith, e) in
    let none' : above ≡ 0 = ground arith in
    rw none' (
      scaled_inexact negative digits n b z h l
        (subst (λ k. (get_or digits k 0 == b'0') ≡ false) same' other))

one_sided : (l : Lexeme) (b : ℕ) → b ≤ deficit l → (surplus l ≡ 0) ⊎ (b ≡ 0)
one_sided l b h = elim (Bool-cases l.exponent_negative) [
  | inl n ↦ inl (rw n refl)
  | inr p ↦ ground arith
]

pub convert_iff :
    (l : Lexeme) (z : ℤ)
    → All IsDigit (l.integer ++ l.fraction)
    → (convert l ≡ some z)
      ↔ Is l.negative (number (l.integer ++ l.fraction)) (surplus l) (deficit l) z
unfolding convert
convert_iff l z h =
    let digits = drop_zeros (l.integer ++ l.fraction) in
    let (fewer, nearer, trade, stops) =
      trim-Trims digits (length digits) (deficit l) (omega arith) in
    let r = trim digits (length digits) (deficit l) in
    let whole : number (take (length digits) digits) ≡ number (l.integer ++ l.fraction) =
      ap number (take-of_le (length digits) digits (omega arith))
      ∙ number-drop_zeros (l.integer ++ l.fraction) in
    let trade' = sym (ap (λ k. k * 10 ^ r.1) (sym whole) ∙ trade) in
    let last =
      scaled_iff l.negative (surplus l) digits r.0 r.1 z
        (drop_zeros-All (l.integer ++ l.fraction) h)
        (drop_zeros-Leading (l.integer ++ l.fraction) h) fewer (one_sided l r.1 nearer) stops in
    let same =
      Is-rescaled l.negative (number (take r.0 digits)) (number (l.integer ++ l.fraction))
        (surplus l) r.1 (deficit l) z trade' in
    (λ e. same.0 (last.0 e), λ i. last.1 (same.1 i))
