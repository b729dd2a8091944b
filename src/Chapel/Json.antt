-- ===== src/Chapel/Json.antt =====
-- The scanner of JSON texts: `skip_json_string_token`, `skip_json_number_token` and
-- `skip_json_value`.
pub mod Syntax
pub mod Tokens
pub mod Numbers
pub mod Values
pub mod Nesting
pub mod Total
pub mod Cut
pub mod Fuel
use the_convex_100_language.Common.{
  ℕ, zero, suc, ◌+◌, ◌*◌, Bool, true, false, not, ◌&&◌, ◌||◌, [], ◌∷◌, length, drop, ltb, leb, ◌==◌,
  if◌then◌else◌, Bytes, text, starts_with,
}
use the_convex_100_language.Chapel.Chars.{head, tail, is_digit, skip_digits, skip_space, hex_digit}

-- A result: NULL, or the text from the cursor on. `beyond` is a cursor behind the final NUL: the program
-- goes on reading there, at memory that is no part of the text and that the model does not hold.
-- `out_of_fuel` has no counterpart in the program.
pub data Cursor : Type 0 where
  null beyond out_of_fuel : Cursor
  at : Bytes → Cursor

infixl 5 ◌>>=◌
abbrev pub ◌>>=◌ : Cursor → (Bytes → Cursor) → Cursor
at s >>= f = f s
null >>= f = null
beyond >>= f = beyond
out_of_fuel >>= f = out_of_fuel

-- `for (…; index < 4; …) if (!hex_digit(*cursor++)) return NULL`
unfoldable pub skip_hex : ℕ → Bytes → Cursor
skip_hex zero s = at s
skip_hex (suc n) [] = null
skip_hex (suc n) (c ∷ s) = let later = skip_hex n s in if hex_digit c then later else null

-- `strchr("\"\\/bfnrt", escape)`, for an `escape` that is not NUL.
abbrev pub is_escape : ℕ → Bool
is_escape c =
    (c == 34)
    || (c == 92)
    || (c == b'/')
    || (c == b'b')
    || (c == b'f')
    || (c == b'n')
    || (c == b'r')
    || (c == b't')

-- The characters after a backslash. At the end of the text `strchr` finds the NUL that ends its own
-- string, and the cursor has gone over the NUL of the text.
unfoldable pub skip_escape : Bytes → Cursor
skip_escape [] = beyond
skip_escape (c ∷ s) = if c == b'u' then skip_hex 4 s else if is_escape c then at s else null

-- The loop of `skip_json_string_token`.
unfoldable pub string_rounds : ℕ → Bytes → Cursor
string_rounds zero s = out_of_fuel
string_rounds (suc n) [] = null
string_rounds (suc n) (c ∷ s) =
    let later = string_rounds n s in
    let escaped = skip_escape s >>= λ r. string_rounds n r in
    if c == 34 then at s else if ltb c 32 then null else if not (c == 92) then later else escaped

-- Each round takes a character.
unfoldable pub skip_json_string_token : Bytes → Cursor
skip_json_string_token s = if head s == 34 then string_rounds (length s) (tail s) else null

unfoldable pub skip_integer : Bytes → Cursor
skip_integer s =
    if head s == b'0'
    then at (tail s)
    else if ltb (head s) b'1' || ltb b'9' (head s)
    then null
    else at (skip_digits s)

unfoldable pub skip_fraction : Bytes → Cursor
skip_fraction s =
    if head s == b'.'
    then (if not (is_digit (head (tail s))) then null else at (skip_digits (tail s)))
    else at s

unfoldable pub skip_sign : Bytes → Bytes
skip_sign s = if (head s == b'+') || (head s == b'-') then tail s else s

unfoldable pub skip_exponent : Bytes → Cursor
skip_exponent s =
    let digits = skip_sign (tail s) in
    if (head s == b'e') || (head s == b'E')
    then (if not (is_digit (head digits)) then null else at (skip_digits digits))
    else at s

unfoldable pub skip_json_number_token : Bytes → Cursor
skip_json_number_token s =
    skip_integer (if head s == b'-' then tail s else s) >>= skip_fraction >>= skip_exponent

-- The function and its two loops, on fuel.
unfoldable mutual
  pub skip_json_value : ℕ → Bytes → ℕ → Cursor
  skip_json_value zero cursor depth = out_of_fuel
  skip_json_value (suc n) cursor depth =
      let s = skip_space cursor in
      let inner = skip_space (tail s) in
      let items = skip_items n inner depth in
      let members = skip_members n inner depth in
      if ltb 128 depth
      then null
      else if head s == 34
      then skip_json_string_token s
      else if (head s == b'-') || is_digit (head s)
      then skip_json_number_token s
      else if starts_with s (text "true")
      then at (drop 4 s)
      else if starts_with s (text "false")
      then at (drop 5 s)
      else if starts_with s (text "null")
      then at (drop 4 s)
      else if head s == b'['
      then (if head inner == b']' then at (tail inner) else items)
      else if head s == b'{'
      then (if head inner == b'}' then at (tail inner) else members)
      else null

  pub skip_items : ℕ → Bytes → ℕ → Cursor
  skip_items zero cursor depth = out_of_fuel
  skip_items (suc n) cursor depth = skip_json_value n cursor (suc depth) >>= λ c.
      let s = skip_space c in
      let more = skip_items n (tail s) depth in
      if head s == b']' then at (tail s) else if head s == b',' then more else null

  pub skip_members : ℕ → Bytes → ℕ → Cursor
  skip_members zero cursor depth = out_of_fuel
  skip_members (suc n) cursor depth = skip_json_string_token cursor >>= λ k.
      let value = skip_json_value n (tail (skip_space k)) (suc depth) >>= λ c.
      let s = skip_space c in
      let more = skip_members n (skip_space (tail s)) depth in
      if head s == b'}' then at (tail s) else if head s == b',' then more else null in
      if head (skip_space k) == b':' then value else null

-- A value takes at most two calls for each character.
abbrev pub value_fuel : Bytes → ℕ
value_fuel s = 2 * length s + 2
