-- ===== src/Chapel/Utf8/Count.antt =====
-- `utf8_scalar_count` on encodings of scalar values.
use the_convex_100_language.Common.{
  ℕ, zero, suc, ◌+◌, ◌/◌, ◌%◌, ◌<◌, ◌≤◌, ◌≡◌, ◌≢◌, refl, sym, ap₂, ◌∙◌, Bool, true, false, not,
  ◌&&◌, ◌||◌, Option, none, some, List, [], ◌∷◌, ◌++◌, length, drop, ltb, ◌==◌, if◌then◌else◌,
  Bytes, All, arith, Bool-cases, inl, inr,
}
use the_convex_100_language.Extension.Bits.{IsByte}
use the_convex_100_language.Extension.Utf8.{IsScalar, encode, encode_all}
use the_convex_100_language.Extension.Utf8.Exact.{length-encode_all}
use the_convex_100_language.Extension.Utf8.Sound.{encode_two, encode_three, encode_four}
use the_convex_100_language.Chapel.Utf8.{
  is_whitespace, continuation_of, bits_of, join_bytes, count_rounds, c_string, utf8_scalar_count,
}
use the_convex_100_language.Chapel.Utf8.Same.{valid_utf8_iff}

-- What a round makes of a character: its code, and where it ends.
abbrev Reads : ℕ → ℕ → Bytes → Bytes → Type 0
Reads c first more rest =
    (drop (continuation_of first) more ≡ rest)
    × (join_bytes (continuation_of first) (bits_of first) more ≡ c)

Reads-one : (c : ℕ) (rest : Bytes) → c < 128 → Reads c c rest rest
unfolding join_bytes continuation_of bits_of
Reads-one c rest h = let a : ltb c 128 ≡ true = ground arith in rw a (refl, refl)

Reads-two :
    (c : ℕ) (rest : Bytes)
    → 128 ≤ c
    → c < 2048
    → Reads c (192 + c / 64) ((128 + c % 64) ∷ rest) rest
unfolding join_bytes continuation_of bits_of
Reads-two c rest l h =
    let a : ltb (192 + c / 64) 128 ≡ false = ground arith in
    let b : ltb (192 + c / 64) 224 ≡ true = ground arith in rw (a, b) (refl, omega arith)

Reads-three :
    (c : ℕ) (rest : Bytes)
    → 2048 ≤ c
    → c < 65536
    → Reads c (224 + c / 4096) ((128 + c / 64 % 64) ∷ (128 + c % 64) ∷ rest) rest
unfolding join_bytes continuation_of bits_of
Reads-three c rest l h =
    let a : ltb (224 + c / 4096) 128 ≡ false = ground arith in
    let b : ltb (224 + c / 4096) 224 ≡ false = ground arith in
    let d : ltb (224 + c / 4096) 240 ≡ true = ground arith in rw (a, b, d) (refl, omega arith)

Reads-four :
    (c : ℕ) (rest : Bytes)
    → 65536 ≤ c
    → c < 1114112
    → Reads c
        (240 + c / 262144)
        ((128 + c / 4096 % 64) ∷ (128 + c / 64 % 64) ∷ (128 + c % 64) ∷ rest)
        rest
unfolding join_bytes continuation_of bits_of
Reads-four c rest l h =
    let a : ltb (240 + c / 262144) 128 ≡ false = ground arith in
    let b : ltb (240 + c / 262144) 224 ≡ false = ground arith in
    let d : ltb (240 + c / 262144) 240 ≡ false = ground arith in rw (a, b, d) (refl, omega arith)

abbrev is_visible : ℕ → Bool
is_visible c = not (is_whitespace c)

round_from :
    (n maximum : ℕ) (req : Bool) (count : ℕ) (seen : Bool) (c first : ℕ) (more rest : Bytes)
    → Reads c first more rest
    → count_rounds (suc n) maximum req count seen (first ∷ more) ≡ (
        if ltb maximum (suc count)
        then none
        else count_rounds n maximum req (suc count) (seen || is_visible c) rest)
unfolding count_rounds
round_from n maximum req count seen c first more rest (r, j) =
    ap₂
      (λ x y.
        if ltb maximum (suc count)
        then none
        else count_rounds n maximum req (suc count) (seen || is_visible y) x)
      r j

-- A round over the encoding of a scalar value.
round_one :
    (n maximum : ℕ) (req : Bool) (count : ℕ) (seen : Bool) (c : ℕ) (rest : Bytes)
    → IsScalar c
    → count_rounds (suc n) maximum req count seen (encode c ++ rest) ≡ (
        if ltb maximum (suc count)
        then none
        else count_rounds n maximum req (suc count) (seen || is_visible c) rest)
round_one n maximum req count seen c rest scalar = elim (Bool-cases (ltb c 128)) [
  | inl one ↦
      rw one (round_from n maximum req count seen c c rest rest (Reads-one c rest (ground arith)))
  | inr n1 ↦ elim (Bool-cases (ltb c 2048)) [
    | inl two ↦ rw (encode_two c (ground arith) (ground arith)) (
        round_from n maximum req count seen c _ _ rest
          (Reads-two c rest (ground arith) (ground arith)))
    | inr n2 ↦ elim (Bool-cases (ltb c 65536)) [
      | inl three ↦ rw (encode_three c (ground arith) (ground arith)) (
          round_from n maximum req count seen c _ _ rest
            (Reads-three c rest (ground arith) (ground arith)))
      | inr n3 ↦ rw (encode_four c (ground arith)) (
          round_from n maximum req count seen c _ _ rest
            (Reads-four c rest (ground arith) (ground arith)))
    ]
  ]
]

-- Some character is not white space.
abbrev pub any_visible : List ℕ → Bool
any_visible [] = false
any_visible (c ∷ cs) = is_visible c || any_visible cs

abbrev outcome : ℕ → Bool → ℕ → Bool → Option ℕ
outcome maximum req total seen =
    if ltb maximum total
    then none
    else if (total == 0) || (req && not seen)
    then none
    else some total

or_false : (a : Bool) → a || false ≡ a
or_false true = refl
or_false false = refl

no_bytes :
    (n maximum : ℕ) (req : Bool) (count : ℕ) (seen : Bool)
    → count_rounds n maximum req count seen []
      ≡ (if (count == 0) || (req && not seen) then none else some count)
unfolding count_rounds
no_bytes zero maximum req count seen = refl
no_bytes (suc n) maximum req count seen = refl

or_assoc : (a b c : Bool) → (a || b) || c ≡ a || (b || c)
or_assoc true b c = refl
or_assoc false b c = refl

-- The maximum is met at the first character beyond it.
counts_on :
    (maximum count k : ℕ) (req : Bool) (seen visible later : Bool) (r : Option ℕ)
    → (ltb maximum (suc count) ≡ false
        → r ≡ outcome maximum req (suc count + k) ((seen || visible) || later))
    → (if ltb maximum (suc count) then none else r)
      ≡ outcome maximum req (count + suc k) (seen || (visible || later))
counts_on maximum count k req seen visible later r go =
    elim (Bool-cases (ltb maximum (suc count))) [
      | inl over ↦
          let over' : ltb maximum (count + suc k) ≡ true = ground arith in rw (over, over') refl
      | inr fits ↦
          let total : count + suc k ≡ suc count + k = omega arith in
          rw (fits, total, sym (or_assoc seen visible later)) (go fits)
    ]

rounds-All :
    (cs : List ℕ) (n maximum : ℕ) (req : Bool) (count : ℕ) (seen : Bool)
    → All IsScalar cs
    → length cs ≤ n
    → count ≤ maximum
    → count_rounds n maximum req count seen (encode_all cs)
      ≡ outcome maximum req (count + length cs) (seen || any_visible cs)
rounds-All [] n maximum req count seen h l le =
    let total : count + 0 ≡ count = omega arith in
    let within : ltb maximum count ≡ false = ground arith in
    rw (total, within, or_false seen) (no_bytes n maximum req count seen)
rounds-All (c ∷ cs) zero maximum req count seen h l le = absurd (omega arith)
rounds-All (c ∷ cs) (suc n) maximum req count seen h l le =
    round_one n maximum req count seen c (encode_all cs) h.0
    ∙ counts_on maximum count (length cs) req seen (is_visible c) (any_visible cs) _ (λ fits.
      rounds-All cs n maximum req (suc count) (seen || is_visible c) h.1 (omega arith)
        (ground arith))

either :
    (b c : Bool) (x : Option ℕ)
    → (if b then none else if c then none else x) ≡ (if b || c then none else x)
either true c x = refl
either false c x = refl

encode-IsByte :
    (c : ℕ) (rest : Bytes) → IsScalar c → All IsByte rest → All IsByte (encode c ++ rest)
encode-IsByte c rest h r = elim (Bool-cases (ltb c 128)) [
  | inl one ↦ rw one (ground arith, r)
  | inr n1 ↦ elim (Bool-cases (ltb c 2048)) [
    | inl two ↦ rw (encode_two c (ground arith) (ground arith)) (ground arith, (omega arith, r))
    | inr n2 ↦ elim (Bool-cases (ltb c 65536)) [
      | inl three ↦
          rw (encode_three c (ground arith) (ground arith))
            (ground arith, (omega arith, (omega arith, r)))
      | inr n3 ↦
          rw (encode_four c (ground arith))
            (ground arith, (omega arith, (omega arith, (omega arith, r))))
    ]
  ]
]

encode_all-IsByte : (cs : List ℕ) → All IsScalar cs → All IsByte (encode_all cs)
encode_all-IsByte [] h = tt
encode_all-IsByte (c ∷ cs) h = encode-IsByte c (encode_all cs) h.0 (encode_all-IsByte cs h.1)

c_string-encode :
    (c : ℕ) (rest : Bytes)
    → IsScalar c
    → c ≢ 0
    → c_string rest ≡ rest
    → c_string (encode c ++ rest) ≡ encode c ++ rest
unfolding c_string
c_string-encode c rest h some' r = elim (Bool-cases (ltb c 128)) [
  | inl one ↦ rw one (ground arith)
  | inr n1 ↦ elim (Bool-cases (ltb c 2048)) [
    | inl two ↦ rw (encode_two c (ground arith) (ground arith)) (ground arith)
    | inr n2 ↦ elim (Bool-cases (ltb c 65536)) [
      | inl three ↦ rw (encode_three c (ground arith) (ground arith)) (ground arith)
      | inr n3 ↦ rw (encode_four c (ground arith)) (ground arith)
    ]
  ]
]

-- A scalar value other than U+0000, which would end the string.
abbrev pub IsCharacter : ℕ → Type 0
IsCharacter c = IsScalar c × (c ≢ 0)

characters :
    (cs : List ℕ)
    → All IsCharacter cs
    → All IsScalar cs × (c_string (encode_all cs) ≡ encode_all cs)
unfolding c_string
characters [] h = (tt, refl)
characters (c ∷ cs) ((s, some'), h) =
    let (rest, same) = characters cs h in
    ((s, rest), c_string-encode c (encode_all cs) s some' same)

-- Of the encoding of a sequence of Unicode scalar values other than U+0000 `utf8_scalar_count` gives the
-- number of the values, when there are any, no more than the maximum, and, where this is required, one that is no
-- white space; otherwise it refuses.
pub utf8_scalar_count-encode :
    (cs : List ℕ) (maximum : ℕ) (require_nonblank : Bool)
    → All IsCharacter cs
    → utf8_scalar_count (encode_all cs) maximum require_nonblank ≡ (
        if ltb maximum (length cs)
          || ((length cs == 0) || (require_nonblank && not (any_visible cs)))
        then none
        else some (length cs))
unfolding utf8_scalar_count
utf8_scalar_count-encode cs maximum req h =
    let (scalars, whole) = characters cs h in
    let bytes = encode_all-IsByte cs scalars in
    let valid = (valid_utf8_iff (encode_all cs) bytes).1.1 (cs, scalars, refl) in
    let rounds =
      rounds-All cs (length (encode_all cs)) maximum req 0 false scalars (length-encode_all cs)
        (omega arith) in
    let total : 0 + length cs ≡ length cs = omega arith in
    rw (whole, valid)
      (rounds
        ∙ rw total (
            either (ltb maximum (length cs)) ((length cs == 0) || (req && not (any_visible cs)))
              (some (length cs))))
