-- ===== src/Chapel/Headers.antt =====
-- `header_has_token` and `websocket_header`: the response headers of the WebSocket handshake.
pub mod Tokens
pub mod Bounded
use the_convex_100_language.Common.{
  ℕ, zero, suc, ◌+◌, ◌-◌, ◌*◌, ◌/◌, ◌%◌, ◌^◌, Bool, true, false, not, ◌&&◌, ◌||◌, List, [], ◌∷◌,
  length, take, drop, get_or, ltb, leb, ◌==◌, if◌then◌else◌, Bytes, text,
}

abbrev pub is_blank : ℕ → Bool
is_blank c = (c == 32) || (c == 9)

-- The loop over blanks and commas at the start of an element.
unfoldable pub skip_to_element : Bytes → Bytes
skip_to_element [] = []
skip_to_element (c ∷ value) = if is_blank c || (c == b',') then skip_to_element value else c ∷ value

-- The loop up to a character.
unfoldable pub before : ℕ → Bytes → Bytes
before stop [] = []
before stop (c ∷ value) = if c == stop then [] else c ∷ before stop value

abbrev pub last : Bytes → ℕ
last value = get_or value (length value - 1) 0

-- The loop that takes off blanks at the end, with a bound on its rounds.
unfoldable pub trim_rounds : (ℕ → Bool) → ℕ → Bytes → Bytes
trim_rounds is_off zero value = value
trim_rounds is_off (suc n) value =
    let shorter = trim_rounds is_off n (take (length value - 1) value) in
    if ltb 0 (length value) && is_off (last value) then shorter else value

-- Each round shortens the value, so its length is enough.
unfoldable pub trim_end : (ℕ → Bool) → Bytes → Bytes
trim_end is_off value = trim_rounds is_off (length value) value

-- `tolower`
abbrev pub lower : ℕ → ℕ
lower c = if leb b'A' c && leb c b'Z' then c + 32 else c

-- `strncasecmp` of two strings of the same length, where the second has no NUL.
unfoldable pub same_folded : Bytes → Bytes → Bool
same_folded [] [] = true
same_folded [] (_ ∷ _) = false
same_folded (_ ∷ _) [] = false
same_folded (x ∷ a) (y ∷ b) = (lower x == lower y) && same_folded a b

unfoldable pub token_rounds : ℕ → Bytes → Bytes → Bool
token_rounds zero value wanted = false
token_rounds (suc n) value wanted =
    let element = before b',' (skip_to_element value) in
    let more = token_rounds n (drop (length element) (skip_to_element value)) wanted in
    if length value == 0 then false else same_folded (trim_end is_blank element) wanted || more

-- A round uses up a character at least.
unfoldable pub header_has_token : Bytes → Bytes → Bool
header_has_token value wanted = token_rounds (length value) value wanted

-- `struct websocket_handshake`
pub record Handshake : Type 0 where
  pub saw_upgrade : Bool
  pub saw_connection_upgrade : Bool
  pub accept : Bytes

abbrev pub no_handshake : Handshake
no_handshake = record { saw_upgrade = false; saw_connection_upgrade = false; accept = [] }

unfoldable pub skip_blanks : Bytes → Bytes
skip_blanks [] = []
skip_blanks (c ∷ value) = if is_blank c then skip_blanks value else c ∷ value

abbrev pub is_line_end : ℕ → Bool
is_line_end c = (c == 13) || (c == 10) || is_blank c

-- What follows the colon.
abbrev pub value_of : Bytes → Bytes
value_of rest = trim_end is_line_end (skip_blanks rest)

-- A header with this name; the result is whether the value fits.
unfoldable pub take_header : Handshake → Bytes → Bytes → Handshake × Bool
take_header h name value =
    if (length name == 7) && same_folded name (text "Upgrade")
    then (record h { saw_upgrade = header_has_token value (text "websocket") }, true)
    else if (length name == 10) && same_folded name (text "Connection")
    then (record h { saw_connection_upgrade = header_has_token value (text "upgrade") }, true)
    else if (length name == 20) && same_folded name (text "Sec-WebSocket-Accept")
    then (if leb 128 (length value) then (h, false) else (record h { accept = value }, true))
    else (h, true)

-- A status line starts anew, so that only the headers of the last response count.
unfoldable pub read_header : Handshake → Bytes → Handshake × Bool
read_header h data_ =
    if leb 5 (length data_) && same_folded (take 5 data_) (text "HTTP/")
    then (no_handshake, true)
    else if length (before b':' data_) == length data_
    then (h, true)
    else take_header h (before b':' data_) (value_of (drop (length (before b':' data_) + 1) data_))

-- The callback of libcurl at `size * count` bytes: the number that it took, or 0 to end the transfer.
unfoldable pub websocket_header : Handshake → ℕ → ℕ → Bytes → Handshake × ℕ
websocket_header h size count data_ =
    let (h', fits) = read_header h data_ in
    if not (size == 0) && ltb ((2 ^ 64 - 1) / size) count
    then (h, 0)
    else (h', if fits then size * count else 0)
