-- ===== src/Chapel/Timestamp/Encoding.antt =====
-- `decode_timestamp` on the base64 texts of 64-bit numbers.
use the_convex_100_language.Common.{
  ℕ, zero, suc, ◌+◌, ◌-◌, ◌*◌, ◌/◌, ◌%◌, ◌<◌, ◌≡◌, refl, ap, ◌∙◌, true, false, some, [], ◌∷◌, ◌++◌,
  ltb, ◌==◌, if◌then◌else◌, Bytes, arith,
}
use the_convex_100_language.Extension.Bits.{IsByte}
use the_convex_100_language.Chapel.Timestamp.{
  base64_value, or_padding, push_group, group_of, groups, if_eight, decode_timestamp,
}

-- The base64 alphabet.
unfoldable pub symbol : ℕ → ℕ
symbol d =
    if ltb d 26
    then b'A' + d
    else if ltb d 52
    then b'a' + (d - 26)
    else if ltb d 62
    then b'0' + (d - 52)
    else if d == 62
    then b'+'
    else b'/'

-- Three bytes as four characters.
abbrev quad : ℕ → ℕ → ℕ → Bytes → Bytes
quad a b c rest =
    symbol (a / 4)
    ∷ symbol (a % 4 * 16 + b / 16)
    ∷ symbol (b % 16 * 4 + c / 64)
    ∷ symbol (c % 64)
    ∷ rest

-- A number of 64 bits as eight bytes, the least significant one first, in base64.
abbrev pub byte_of : ℕ → ℕ → ℕ
byte_of zero t = t % 256
byte_of (suc n) t = byte_of n (t / 256)

abbrev pub bytes_of : ℕ → Bytes
bytes_of t =
    byte_of 0 t
    ∷ byte_of 1 t
    ∷ byte_of 2 t
    ∷ byte_of 3 t
    ∷ byte_of 4 t
    ∷ byte_of 5 t
    ∷ byte_of 6 t
    ∷ byte_of 7 t
    ∷ []

abbrev pub encode_timestamp : ℕ → Bytes
encode_timestamp t = quad (byte_of 0 t) (byte_of 1 t) (byte_of 2 t) (
    quad (byte_of 3 t) (byte_of 4 t) (byte_of 5 t) (
      symbol (byte_of 6 t / 4)
      ∷ symbol (byte_of 6 t % 4 * 16 + byte_of 7 t / 16)
      ∷ symbol (byte_of 7 t % 16 * 4)
      ∷ b'='
      ∷ []))

base64_value-symbol : (d : ℕ) → d < 64 → base64_value (symbol d) ≡ some d
unfolding base64_value symbol
base64_value-symbol d h = ground arith

symbol_ne : (d : ℕ) → d < 64 → (symbol d == b'=') ≡ false
unfolding symbol
symbol_ne d h = ground arith

-- One group, of characters that stand for values.
group_step :
    (n : ℕ) (output : Bytes) (w x y z a b c d : ℕ) (rest : Bytes)
    → base64_value w ≡ some a
    → base64_value x ≡ some b
    → base64_value y ≡ some c
    → base64_value z ≡ some d
    → (y == b'=') ≡ false
    → (z == b'=') ≡ false
    → groups (suc n) (w ∷ x ∷ y ∷ z ∷ rest) output
      ≡ groups n rest (push_group output false false a b c d)
unfolding groups group_of or_padding
group_step n output w x y z a b c d rest ea eb ec ed ny nz =
    let whole : group_of output (y == b'=') (z == b'=') (base64_value w) (base64_value x)
          (or_padding y) (or_padding z)
        ≡ some (push_group output false false a b c d) =
      rw (ny, nz, ea, eb, ec, ed) refl in
    rw (groups, whole) refl

quad_step :
    (n : ℕ) (output : Bytes) (a b c : ℕ) (rest : Bytes)
    → IsByte a
    → IsByte b
    → IsByte c
    → groups (suc n) (quad a b c rest) output
      ≡ groups n rest (
          push_group output false false
            (a / 4)
            (a % 4 * 16 + b / 16)
            (b % 16 * 4 + c / 64)
            (c % 64))
quad_step n output a b c rest ha hb hc =
    group_step n output _ _ _ _ _ _ _ _ rest (base64_value-symbol (a / 4) (omega arith))
      (base64_value-symbol (a % 4 * 16 + b / 16) (omega arith))
      (base64_value-symbol (b % 16 * 4 + c / 64) (omega arith))
      (base64_value-symbol (c % 64) (omega arith)) (symbol_ne (b % 16 * 4 + c / 64) (omega arith))
      (symbol_ne (c % 64) (omega arith))

-- The three bytes come back.
bytes_back :
    (a b c : ℕ)
    → IsByte a
    → IsByte b
    → IsByte c
    → ((a / 4 * 4 + (a % 4 * 16 + b / 16) / 16) % 256 ≡ a)
      × (((a % 4 * 16 + b / 16) * 16 + (b % 16 * 4 + c / 64) / 4) % 256 ≡ b)
      × (((b % 16 * 4 + c / 64) * 64 + c % 64) % 256 ≡ c)
bytes_back a b c ha hb hc = (omega arith, omega arith, omega arith)

three :
    {x y z a b c : ℕ} (p : Bytes)
    → x ≡ a
    → y ≡ b
    → z ≡ c
    → p ++ x ∷ y ∷ z ∷ [] ≡ p ++ a ∷ b ∷ c ∷ []
three p ex ey ez = rw (ex, ey, ez) refl

first_quad :
    (n a b c : ℕ) (rest : Bytes)
    → IsByte a
    → IsByte b
    → IsByte c
    → groups (suc n) (quad a b c rest) [] ≡ groups n rest (a ∷ b ∷ c ∷ [])
first_quad n a b c rest ha hb hc =
    let (x, y, z) = bytes_back a b c ha hb hc in
    quad_step n [] a b c rest ha hb hc ∙ ap (λ o. groups n rest o) (three [] x y z)

second_quad :
    (n p q r a b c : ℕ) (rest : Bytes)
    → IsByte a
    → IsByte b
    → IsByte c
    → groups (suc n) (quad a b c rest) (p ∷ q ∷ r ∷ []) ≡ groups n rest (p ∷ q ∷ r ∷ a ∷ b ∷ c ∷ [])
second_quad n p q r a b c rest ha hb hc =
    let (x, y, z) = bytes_back a b c ha hb hc in
    quad_step n (p ∷ q ∷ r ∷ []) a b c rest ha hb hc
    ∙ ap (λ o. groups n rest o) (three (p ∷ q ∷ r ∷ []) x y z)

-- The last group has two bytes, and is filled up with `=`.
last_pair :
    (p q r s t u a b : ℕ)
    → IsByte a
    → IsByte b
    → groups 1
        (symbol (a / 4) ∷ symbol (a % 4 * 16 + b / 16) ∷ symbol (b % 16 * 4) ∷ b'=' ∷ [])
        (p ∷ q ∷ r ∷ s ∷ t ∷ u ∷ [])
      ≡ some (p ∷ q ∷ r ∷ s ∷ t ∷ u ∷ a ∷ b ∷ [])
unfolding groups group_of or_padding
last_pair p q r s t u a b ha hb =
    let w = base64_value-symbol (a / 4) (omega arith) in
    let x = base64_value-symbol (a % 4 * 16 + b / 16) (omega arith) in
    let y = base64_value-symbol (b % 16 * 4) (omega arith) in
    let ny = symbol_ne (b % 16 * 4) (omega arith) in
    let ea : (a / 4 * 4 + (a % 4 * 16 + b / 16) / 16) % 256 ≡ a = omega arith in
    let eb : ((a % 4 * 16 + b / 16) * 16 + b % 16 * 4 / 4) % 256 ≡ b = omega arith in
    let whole : group_of (p ∷ q ∷ r ∷ s ∷ t ∷ u ∷ []) (symbol (b % 16 * 4) == b'=') true
          (base64_value (symbol (a / 4))) (base64_value (symbol (a % 4 * 16 + b / 16)))
          (or_padding (symbol (b % 16 * 4))) (some 0)
        ≡ some (p ∷ q ∷ r ∷ s ∷ t ∷ u ∷ a ∷ b ∷ []) =
      rw (ny, w, x, y, ea, eb) refl in
    rw (groups, whole) refl

pub byte_of-IsByte : (n t : ℕ) → IsByte (byte_of n t)
byte_of-IsByte zero t = omega arith
byte_of-IsByte (suc n) t = byte_of-IsByte n (t / 256)

-- The eight bytes are read back.
pub decode_timestamp-encode :
    (t : ℕ) → decode_timestamp (some (encode_timestamp t)) ≡ some (bytes_of t)
unfolding decode_timestamp
decode_timestamp-encode t =
    let b : (n : ℕ) → IsByte (byte_of n t) = λ n. byte_of-IsByte n t in
    let all =
      first_quad 2 (byte_of 0 t) (byte_of 1 t) (byte_of 2 t) _ (b 0) (b 1) (b 2)
      ∙ second_quad 1 _ _ _ (byte_of 3 t) (byte_of 4 t) (byte_of 5 t) _ (b 3) (b 4) (b 5)
      ∙ last_pair _ _ _ _ _ _ (byte_of 6 t) (byte_of 7 t) (b 6) (b 7) in
    ap if_eight all
