-- ===== src/Extension/Utf8/Sound.antt =====
-- `do_utf8_valid`: the sequences that a pass goes over.
use the_convex_100_language.Common.{
  ℕ, zero, suc, ◌+◌, ◌*◌, ◌/◌, ◌%◌, ◌≤◌, ◌<◌, ◌≡◌, ◌⊎◌, inl, inr, refl, ap, ap₂, ◌∙◌, true, false,
  ◌&&◌, some, List, [], ◌∷◌, ◌++◌, length, drop, All, ltb, leb, Bytes, arith, Option-cases,
  Bool-cases,
}
use the_convex_100_language.Extension.Bits.{IsByte}
use the_convex_100_language.Extension.Utf8.{
  join_continuations, check_sequence, utf8_step, utf8_rounds, do_utf8_valid, IsScalar, encode,
  encode_all,
}

-- What one pass finds: a scalar value whose encoding stands at the front.
abbrev pub Starts : ℕ → Bytes → ℕ → Type 0
Starts lead rest extra = (c : ℕ) × IsScalar c × (encode c ++ drop extra rest ≡ lead ∷ rest)

pub encode_two : (c : ℕ) → 128 ≤ c → c < 2048 → encode c ≡ (192 + c / 64) ∷ (128 + c % 64) ∷ []
encode_two c l h =
    let a : ltb c 128 ≡ false = ground arith in
    let b : ltb c 2048 ≡ true = ground arith in rw (a, b) refl

pub encode_three :
    (c : ℕ)
    → 2048 ≤ c
    → c < 65536
    → encode c ≡ (224 + c / 4096) ∷ (128 + c / 64 % 64) ∷ (128 + c % 64) ∷ []
encode_three c l h =
    let a : ltb c 128 ≡ false = ground arith in
    let b : ltb c 2048 ≡ false = ground arith in
    let d : ltb c 65536 ≡ true = ground arith in rw (a, b, d) refl

pub encode_four :
    (c : ℕ)
    → 65536 ≤ c
    → encode c
      ≡ (240 + c / 262144) ∷ (128 + c / 4096 % 64) ∷ (128 + c / 64 % 64) ∷ (128 + c % 64) ∷ []
encode_four c l =
    let a : ltb c 128 ≡ false = ground arith in
    let b : ltb c 2048 ≡ false = ground arith in
    let d : ltb c 65536 ≡ false = ground arith in rw (a, b, d) refl

sequence_two :
    (lead : ℕ) (rest : Bytes) (extra : ℕ)
    → 194 ≤ lead
    → lead ≤ 223
    → All IsByte rest
    → check_sequence 1 (lead % 32) rest ≡ some extra
    → Starts lead rest extra
unfolding join_continuations
sequence_two lead [] extra l h r e = absurd (ground arith)
sequence_two lead (b ∷ rest) extra l h r e =
    let c = lead % 32 * 64 + b % 64 in
    let tail : b / 64 % 4 ≡ 2 = ground arith in
    let one : extra ≡ 1 = ground arith in
    let front : encode c ≡ lead ∷ b ∷ [] =
      rw (encode_two c (omega arith) (omega (arith, r.0)))
        (ap₂ (λ x y. x ∷ y ∷ []) (omega (arith, r.0)) (omega (arith, r.0))) in
    (c, inl (omega (arith, r.0)), rw (front, one) refl)

sequence_three :
    (lead : ℕ) (rest : Bytes) (extra : ℕ)
    → 224 ≤ lead
    → lead ≤ 239
    → All IsByte rest
    → check_sequence 2 (lead % 16) rest ≡ some extra
    → Starts lead rest extra
unfolding join_continuations
sequence_three lead [] extra l h r e = absurd (ground arith)
sequence_three lead (b ∷ []) extra l h r e = absurd (ground arith)
sequence_three lead (b ∷ d ∷ rest) extra l h (r1, (r2, r3)) e =
    let c = (lead % 16 * 64 + b % 64) * 64 + d % 64 in
    let tail : (b / 64 % 4 ≡ 2) × (d / 64 % 4 ≡ 2) = (ground arith, ground arith) in
    let long : 2048 ≤ c = ground arith in
    let scalar : (c < 55296) ⊎ (57344 ≤ c) = ground arith in
    let two : extra ≡ 2 = ground arith in
    let top : c < 65536 = omega arith in
    let front : encode c ≡ lead ∷ b ∷ d ∷ [] = rw (encode_three c long top) (ground arith) in
    (c, ground arith, rw (front, two) refl)

sequence_four :
    (lead : ℕ) (rest : Bytes) (extra : ℕ)
    → 240 ≤ lead
    → lead ≤ 244
    → All IsByte rest
    → check_sequence 3 (lead % 8) rest ≡ some extra
    → Starts lead rest extra
unfolding join_continuations
sequence_four lead [] extra l h r e = absurd (ground arith)
sequence_four lead (b ∷ []) extra l h r e = absurd (ground arith)
sequence_four lead (b ∷ d ∷ []) extra l h r e = absurd (ground arith)
sequence_four lead (b ∷ d ∷ f ∷ rest) extra l h (r1, (r2, (r3, r4))) e =
    let c = ((lead % 8 * 64 + b % 64) * 64 + d % 64) * 64 + f % 64 in
    let tail : (b / 64 % 4 ≡ 2) × (d / 64 % 4 ≡ 2) × (f / 64 % 4 ≡ 2) =
      (ground arith, ground arith, ground arith) in
    let long : 65536 ≤ c = ground arith in
    let top : c ≤ 1114111 = ground arith in
    let three : extra ≡ 3 = ground arith in
    let front : encode c ≡ lead ∷ b ∷ d ∷ f ∷ [] = rw (encode_four c long) (ground arith) in
    (c, ground arith, rw (front, three) refl)

-- One pass that goes on has found the encoding of a scalar value.
utf8_step-Starts :
    (lead : ℕ) (rest : Bytes) (extra : ℕ)
    → All IsByte rest
    → utf8_step lead rest ≡ some extra
    → Starts lead rest extra
unfolding utf8_step
utf8_step-Starts lead rest extra r e = elim (Bool-cases (ltb lead 128)) [
  | inl ascii ↦ let zero' : extra ≡ 0 = ground arith in (lead, ground arith, rw (ascii, zero') refl)
  | inr high ↦ elim (Bool-cases (leb 194 lead && leb lead 223)) [
    | inl two ↦ sequence_two lead rest extra (ground arith) (ground arith) r (ground arith)
    | inr n2 ↦ elim (Bool-cases (leb 224 lead && leb lead 239)) [
      | inl three ↦ sequence_three lead rest extra (ground arith) (ground arith) r (ground arith)
      | inr n3 ↦ elim (Bool-cases (leb 240 lead && leb lead 244)) [
        | inl four ↦ sequence_four lead rest extra (ground arith) (ground arith) r (ground arith)
        | inr n4 ↦ absurd (ground arith)
      ]
    ]
  ]
]

drop-All : (n : ℕ) (bs : Bytes) → All IsByte bs → All IsByte (drop n bs)
drop-All zero bs h = h
drop-All (suc n) [] h = tt
drop-All (suc n) (b ∷ bs) h = drop-All n bs h.1

utf8_rounds_sound :
    (n : ℕ) (bs : Bytes)
    → All IsByte bs
    → utf8_rounds n bs ≡ true
    → (cs : List ℕ) × All IsScalar cs × (encode_all cs ≡ bs)
unfolding utf8_rounds
utf8_rounds_sound n [] h e = ([], tt, refl)
utf8_rounds_sound zero (lead ∷ rest) h e = absurd (ground arith)
utf8_rounds_sound (suc n) (lead ∷ rest) h e = elim (Option-cases (utf8_step lead rest)) [
  | inl bad ↦ absurd (ground arith)
  | inr (extra, s) ↦
      let (c, scalar, starts) = utf8_step-Starts lead rest extra h.1 s in
      let go : utf8_rounds n (drop extra rest) ≡ true = ground arith in
      let (cs, scalars, ends) =
        utf8_rounds_sound n (drop extra rest) (drop-All extra rest h.1) go in
      (c ∷ cs, (scalar, scalars), ap (λ t. encode c ++ t) ends ∙ starts)
]

-- What the validator accepts is the UTF-8 encoding of a sequence of Unicode scalar values.
pub do_utf8_valid_sound :
    (bs : Bytes)
    → All IsByte bs
    → do_utf8_valid bs ≡ true
    → (cs : List ℕ) × All IsScalar cs × (encode_all cs ≡ bs)
unfolding do_utf8_valid
do_utf8_valid_sound bs h e = utf8_rounds_sound (length bs) bs h e
