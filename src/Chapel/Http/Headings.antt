-- ===== src/Chapel/Http/Headings.antt =====
-- The headers of `ct_http_post`: each one is a single line.
use the_convex_100_language.Common.{
  ℕ, zero, suc, ◌≡◌, refl, true, Option, none, some, [], ◌∷◌, ◌++◌, length, take, ◌==◌, Bytes, All,
  text, clip, arith, Bool-cases, inl, inr,
}
use the_convex_100_language.Chapel.Command.{no_controls, ct_valid_http_field_value}
use the_convex_100_language.Chapel.Http.{Post, token_size, is_sound, authorization, request_of}

no_controls-append :
    (a b : Bytes) → no_controls a ≡ true → no_controls b ≡ true → no_controls (a ++ b) ≡ true
unfolding no_controls
no_controls-append [] b h k = k
no_controls-append (c ∷ a) b h k = let ih = no_controls-append a b (ground arith) k in ground arith

no_controls-take : (n : ℕ) (a : Bytes) → no_controls a ≡ true → no_controls (take n a) ≡ true
unfolding no_controls
no_controls-take zero a h = refl
no_controls-take (suc n) [] h = refl
no_controls-take (suc n) (c ∷ a) h = let ih = no_controls-take n a (ground arith) in ground arith

-- No carriage return, newline or other control character splits a header.
abbrev pub IsOneLine : Bytes → Type 0
IsOneLine header = no_controls header ≡ true

field-IsOneLine :
    (value : Bytes) → ct_valid_http_field_value (some value) (length value) ≡ true → IsOneLine value
unfolding ct_valid_http_field_value no_controls
field-IsOneLine [] h = refl
field-IsOneLine (c ∷ value) h = ground arith

authorization-IsOneLine :
    (token : Option Bytes)
    → ct_valid_http_field_value token (token_size token) ≡ true
    → All IsOneLine (authorization token)
unfolding no_controls text
authorization-IsOneLine none h = tt
authorization-IsOneLine (some token) h = elim (Bool-cases (length token == 0)) [
  | inl e ↦ rw e tt
  | inr e ↦
      rw e (
        no_controls-append (text "Authorization: Bearer ") token refl (field-IsOneLine token h),
        tt,
      )
]

version_line : no_controls (text "Convex-Client: ") ≡ true
unfolding no_controls text
version_line = refl

type_line : IsOneLine (text "Content-Type: application/json")
unfolding no_controls text
type_line = refl

accept_line : IsOneLine (text "Accept: application/json")
unfolding no_controls text
accept_line = refl

pub request_of-IsOneLine :
    (p : Post) (remaining : ℕ) → is_sound p ≡ true → All IsOneLine (request_of p remaining).headers
unfolding request_of is_sound clip
request_of-IsOneLine p remaining h =
    let version : ct_valid_http_field_value (some p.client_version) (length p.client_version)
        ≡ true =
      ground arith in
    let token : ct_valid_http_field_value p.token (token_size p.token) ≡ true = ground arith in
    let line =
      no_controls-append (text "Convex-Client: ") p.client_version version_line
        (field-IsOneLine p.client_version version) in
    (type_line, (accept_line, (no_controls-take 255 _ line, authorization-IsOneLine p.token token)))
