-- ===== src/Chapel/Headers/Bounded.antt =====
-- `websocket_header` over the headers of a handshake.
use the_convex_100_language.Common.{
  ℕ, ◌+◌, ◌*◌, ◌/◌, ◌-◌, ◌^◌, ◌<◌, ◌≤◌, ◌≡◌, refl, sym, subst, ap, ◌∙◌, true, false, Option, none,
  some, List, [], ◌∷◌, ◌++◌, length, take, drop, leb, ltb, ◌==◌, if◌then◌else◌, Bytes, text, arith,
  Bool-cases, inl, inr,
}
use the_convex_100_language.Chapel.Headers.{
  before, same_folded, Handshake, no_handshake, take_header, read_header, websocket_header,
  value_of,
}

-- libcurl hands over the headers one by one, with `size` 1, and ends the transfer when the callback does
-- not take one whole.
unfoldable pub after_headers : Handshake → List Bytes → Option Handshake
after_headers h [] = some h
after_headers h (line ∷ lines) =
    let r = websocket_header h 1 (length line) line in
    let more = after_headers r.0 lines in if r.1 == length line then more else none

abbrev pub IsStatusLine : Bytes → Type 0
IsStatusLine line =
    (5 ≤ length line) × (length line < 2 ^ 64) × (same_folded (take 5 line) (text "HTTP/") ≡ true)

-- The key and the NUL behind it stand in the buffer of 128 bytes.
abbrev pub Fits : Handshake → Type 0
Fits h = length h.accept < 128

take_header-Fits : (h : Handshake) (name value : Bytes) → Fits h → Fits (take_header h name value).0
unfolding take_header
take_header-Fits h name value f = ground arith

read_header-Fits : (h : Handshake) (line : Bytes) → Fits h → Fits (read_header h line).0
unfolding read_header
read_header-Fits h line f =
    let t =
      take_header-Fits h (before b':' line) (value_of (drop (length (before b':' line) + 1) line))
        f in
    ground arith

websocket_header-Fits :
    (h : Handshake) (size count : ℕ) (line : Bytes)
    → Fits h
    → Fits (websocket_header h size count line).0
unfolding websocket_header
websocket_header-Fits h size count line f = let r = read_header-Fits h line f in ground arith

abbrev or_none : Option Handshake → Handshake
or_none none = no_handshake
or_none (some h) = h

after_headers-Fits :
    (h : Handshake) (lines : List Bytes) (h' : Handshake)
    → Fits h
    → after_headers h lines ≡ some h'
    → Fits h'
unfolding after_headers
after_headers-Fits h [] h' f e = subst (λ o. Fits (or_none o)) e f
after_headers-Fits h (line ∷ lines) h' f e =
    let r = websocket_header h 1 (length line) line in
    elim (Bool-cases (r.1 == length line)) [
      | inl took ↦
          after_headers-Fits r.0 lines h' (websocket_header-Fits h 1 (length line) line f)
            (subst (λ b. (if b then after_headers r.0 lines else none) ≡ some h') took e)
      | inr not_took ↦ absurd (ground (arith, e, not_took))
    ]

websocket_header-status :
    (h : Handshake) (line : Bytes)
    → IsStatusLine line
    → websocket_header h 1 (length line) line ≡ (no_handshake, length line)
unfolding websocket_header read_header
websocket_header-status h line (long, short, status) =
    let long' : leb 5 (length line) ≡ true = ground arith in
    let few : ltb ((2 ^ 64 - 1) / 1) (length line) ≡ false = ground arith in
    let once : 1 * length line ≡ length line = omega arith in
    rw (long', status, few) (ap (λ n. (no_handshake, n)) once)

after_headers-append :
    (h h' : Handshake) (lines more : List Bytes)
    → after_headers h lines ≡ some h'
    → after_headers h (lines ++ more) ≡ after_headers h' more
unfolding after_headers
after_headers-append h h' [] more e =
    subst (λ o. after_headers (or_none o) more ≡ after_headers h' more) (sym e) refl
after_headers-append h h' (line ∷ lines) more e =
    let r = websocket_header h 1 (length line) line in
    elim (Bool-cases (r.1 == length line)) [
      | inl took ↦ rw took (
          after_headers-append r.0 h' lines more
            (subst (λ b. (if b then after_headers r.0 lines else none) ≡ some h') took e))
      | inr not_took ↦ absurd (ground (arith, e, not_took))
    ]

-- After the headers of several responses, as of one that redirects or continues, the handshake is the
-- one of the headers behind the last status line alone, and the accept key and its NUL fit the buffer of
-- 128 bytes. The headers in front of that status line are all taken, and the status line is shorter than
-- 2 ^ 64 bytes.
pub after_headers_last :
    (h h' : Handshake) (lines : List Bytes) (status : Bytes) (more : List Bytes)
    → after_headers h lines ≡ some h'
    → IsStatusLine status
    → (after_headers h (lines ++ status ∷ more) ≡ after_headers no_handshake more)
      × ((g : Handshake) → after_headers h (lines ++ status ∷ more) ≡ some g → Fits g)
unfolding after_headers
after_headers_last h h' lines status more e s =
    let first = after_headers-append h h' lines (status ∷ more) e in
    let one = websocket_header-status h' status s in
    let whole : (length status == length status) ≡ true = ground arith in
    let second : after_headers h' (status ∷ more) ≡ after_headers no_handshake more =
      rw (one, whole) refl in
    (
      first ∙ second,
      λ g e'. after_headers-Fits no_handshake more g (omega arith) (sym (first ∙ second) ∙ e'),
    )
