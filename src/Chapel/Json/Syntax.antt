-- ===== src/Chapel/Json/Syntax.antt =====
-- JSON values as they are written, white space included.
use the_convex_100_language.Common.{
  ℕ, suc, ◌≡◌, true, false, List, [], ◌∷◌, ◌++◌, ltb, ◌==◌, if◌then◌else◌, All, Bytes, text, ◌≤◌,
  arith,
}
use the_convex_100_language.Chapel.Chars.{hex_digit}
use the_convex_100_language.Chapel.Json.{is_escape}
use the_convex_100_language.Chapel.Decimal.Literal.{Literal, IsLiteral, print_literal}

pub data White : Type 0 where
  blank tabulator carriage_return newline : White

abbrev pub white : White → ℕ
white blank = b' '
white tabulator = 9
white carriage_return = 13
white newline = 10

abbrev pub spaces : List White → Bytes
spaces [] = []
spaces (w ∷ ws) = white w ∷ spaces ws

-- A character of a string: itself, after a backslash, or by its code in four hexadecimal digits.
pub data Piece : Type 0 where
  plain escaped : ℕ → Piece
  unicode : ℕ → ℕ → ℕ → ℕ → Piece

abbrev pub print_piece : Piece → Bytes
print_piece (plain c) = c ∷ []
print_piece (escaped c) = 92 ∷ c ∷ []
print_piece (unicode a b c d) = 92 ∷ b'u' ∷ a ∷ b ∷ c ∷ d ∷ []

abbrev pub print_pieces : List Piece → Bytes
print_pieces [] = []
print_pieces (p ∷ ps) = print_piece p ++ print_pieces ps

abbrev pub print_string : List Piece → Bytes
print_string ps = 34 ∷ (print_pieces ps ++ 34 ∷ [])

abbrev pub IsPiece : Piece → Type 0
IsPiece (plain c) = (ltb c 32 ≡ false) × ((c == 34) ≡ false) × ((c == 92) ≡ false)
IsPiece (escaped c) = is_escape c ≡ true
IsPiece (unicode a b c d) =
    (hex_digit a ≡ true) × (hex_digit b ≡ true) × (hex_digit c ≡ true) × (hex_digit d ≡ true)

pub data Word : Type 0 where
  true_word false_word null_word : Word

abbrev pub print_word : Word → Bytes
print_word true_word = text "true"
print_word false_word = text "false"
print_word null_word = text "null"

-- White space stands before and after each item; around a key and its value too.
mutual
  pub data Value : Type 0 where
    word : Word → Value
    numeral : Literal → Value
    string : List Piece → Value
    empty_array empty_object : List White → Value
    array : Items → Value
    object : Fields → Value

  pub data Items : Type 0 where
    last_item : List White → Value → List White → Items
    item : List White → Value → List White → Items → Items

  pub data Fields : Type 0 where
    last_field : List White → List Piece → List White → List White → Value → List White → Fields
    field : List White → List Piece → List White → List White → Value → List White → Fields → Fields

unfoldable mutual
  pub print : Value → Bytes
  print (word w) = print_word w
  print (numeral l) = print_literal l
  print (string ps) = print_string ps
  print (empty_array a) = b'[' ∷ (spaces a ++ b']' ∷ [])
  print (empty_object a) = b'{' ∷ (spaces a ++ b'}' ∷ [])
  print (array is) = b'[' ∷ print_items is
  print (object fs) = b'{' ∷ print_fields fs

  pub print_items : Items → Bytes
  print_items (last_item a v b) = spaces a ++ (print v ++ (spaces b ++ b']' ∷ []))
  print_items (item a v b is) = spaces a ++ (print v ++ (spaces b ++ b',' ∷ print_items is))

  pub print_fields : Fields → Bytes
  print_fields (last_field a k b c v d) =
      spaces a
      ++ (print_string k ++ (spaces b ++ b':' ∷ (spaces c ++ (print v ++ (spaces d ++ b'}' ∷ [])))))
  print_fields (field a k b c v d fs) =
      spaces a
      ++ (print_string k
          ++ (spaces b ++ b':' ∷ (spaces c ++ (print v ++ (spaces d ++ b',' ∷ print_fields fs)))))

unfoldable mutual
  pub IsJson : Value → Type 0
  IsJson (word w) = Unit
  IsJson (numeral l) = IsLiteral l
  IsJson (string ps) = All IsPiece ps
  IsJson (empty_array a) = Unit
  IsJson (empty_object a) = Unit
  IsJson (array is) = AreItems is
  IsJson (object fs) = AreFields fs

  pub AreItems : Items → Type 0
  AreItems (last_item a v b) = IsJson v
  AreItems (item a v b is) = IsJson v × AreItems is

  pub AreFields : Fields → Type 0
  AreFields (last_field a k b c v d) = All IsPiece k × IsJson v
  AreFields (field a k b c v d fs) = All IsPiece k × IsJson v × AreFields fs

abbrev larger : ℕ → ℕ → ℕ
larger a b = if ltb a b then b else a

pub larger-le : (a b : ℕ) → (a ≤ larger a b) × (b ≤ larger a b)
larger-le a b = (ground arith, ground arith)

-- How deep the items and fields are nested that have to be read.
unfoldable mutual
  pub depth : Value → ℕ
  depth (array is) = suc (depth_items is)
  depth (object fs) = suc (depth_fields fs)
  depth _ = 0

  pub depth_items : Items → ℕ
  depth_items (last_item a v b) = depth v
  depth_items (item a v b is) = larger (depth v) (depth_items is)

  pub depth_fields : Fields → ℕ
  depth_fields (last_field a k b c v d) = depth v
  depth_fields (field a k b c v d fs) = larger (depth v) (depth_fields fs)
