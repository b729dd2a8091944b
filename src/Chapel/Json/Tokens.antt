-- ===== src/Chapel/Json/Tokens.antt =====
-- White space, strings and numbers before the rest of a text.
use the_convex_100_language.Common.{
  ℕ, zero, suc, ◌<◌, ◌≡◌, refl, false, List, [], ◌∷◌, ◌++◌, append_assoc, length, length-append,
  ◌==◌, Bytes, All, arith, Bool-cases, inl, inr,
}
use the_convex_100_language.Chapel.Chars.{head, tail, is_space, skip_space}
use the_convex_100_language.Chapel.Json.{
  at, skip_hex, skip_escape, string_rounds, skip_json_string_token,
}
use the_convex_100_language.Chapel.Json.Syntax.{
  White, blank, tabulator, carriage_return, newline, spaces, Piece, plain, escaped, unicode,
  print_pieces, print_string, IsPiece,
}
use the_convex_100_language.Chapel.Decimal.Literal.{Ends}

pub skip_space-spaces :
    (ws : List White) (s : Bytes) → is_space (head s) ≡ false → skip_space (spaces ws ++ s) ≡ s
unfolding skip_space head
skip_space-spaces [] [] h = refl
skip_space-spaces [] (c ∷ s) h = rw h refl
skip_space-spaces (blank ∷ ws) s h = skip_space-spaces ws s h
skip_space-spaces (tabulator ∷ ws) s h = skip_space-spaces ws s h
skip_space-spaces (carriage_return ∷ ws) s h = skip_space-spaces ws s h
skip_space-spaces (newline ∷ ws) s h = skip_space-spaces ws s h

pub skip_space_idem : (s : Bytes) → skip_space (skip_space s) ≡ skip_space s
unfolding skip_space
skip_space_idem [] = refl
skip_space_idem (c ∷ s) = elim (Bool-cases (is_space c)) [
  | inl w ↦ rw w (skip_space_idem s)
  | inr n ↦ rw (n, skip_space, n) refl
]

pub spaces-Ends : (ws : List White) (s : Bytes) → Ends s → Ends (spaces ws ++ s)
unfolding head
spaces-Ends [] s h = h
spaces-Ends (blank ∷ ws) s h = (refl, refl, refl)
spaces-Ends (tabulator ∷ ws) s h = (refl, refl, refl)
spaces-Ends (carriage_return ∷ ws) s h = (refl, refl, refl)
spaces-Ends (newline ∷ ws) s h = (refl, refl, refl)

-- Strings.
string_rounds-pieces :
    (ps : List Piece) (n : ℕ) (rest : Bytes)
    → All IsPiece ps
    → length (print_pieces ps) < n
    → string_rounds n (print_pieces ps ++ 34 ∷ rest) ≡ at rest
unfolding string_rounds skip_escape skip_hex
string_rounds-pieces ps zero rest h l = absurd (omega arith)
string_rounds-pieces [] (suc n) rest h l = refl
string_rounds-pieces (plain c ∷ ps) (suc n) rest h l =
    let (a, b, d) = h.0 in rw (b, a, d) (string_rounds-pieces ps n rest h.1 (omega arith))
string_rounds-pieces (escaped c ∷ ps) (suc n) rest h l =
    let other : (c == b'u') ≡ false = let e = h.0 in ground arith in
    rw (other, h.0) (string_rounds-pieces ps n rest h.1 (omega arith))
string_rounds-pieces (unicode a b c d ∷ ps) (suc n) rest h l =
    let (ha, hb, hc, hd) = h.0 in
    rw (ha, hb, hc, hd) (string_rounds-pieces ps n rest h.1 (omega arith))

pub skip_json_string_token-print :
    (ps : List Piece) (rest : Bytes)
    → All IsPiece ps
    → skip_json_string_token (print_string ps ++ rest) ≡ at rest
unfolding skip_json_string_token head tail
skip_json_string_token-print ps rest h =
    let joined = append_assoc (print_pieces ps) (34 ∷ []) rest in
    let bound = length-append (print_pieces ps) (34 ∷ rest) in
    rw joined
      (string_rounds-pieces ps (suc (length (print_pieces ps ++ 34 ∷ rest))) rest h (omega arith))
