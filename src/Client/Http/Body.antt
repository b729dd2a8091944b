-- ===== src/Client/Http/Body.antt =====
-- The body that libcurl's write callback collects.
use the_convex_100_language.Common.{
  ℕ, ◌+◌, ◌*◌, ◌/◌, ◌≤◌, ◌≡◌, ◌≢◌, Bool, true, Option, none, some, List, [], ◌∷◌, ◌++◌, append-nil,
  append_assoc, length, length-append, Bytes, arith, ◌==◌, if◌then◌else◌, ltb, leb, Bool-cases, inl,
  inr, dec_le,
}
use native.Mathlib.Nat.{div-add-mod}
use the_convex_100_language.Client.Http.{http_max_response, size_max, receive}

fits_product : (size nmemb : ℕ) → size ≢ 0 → nmemb ≤ size_max / size → size * nmemb ≤ size_max
fits_product size nmemb h k = grind (arith, div-add-mod)

-- The overflow test is sound: if the callback, at a chunk of `size * nmemb` bytes and a body within
-- HTTP_MAX_RESPONSE, returns another count than 0, then the product did not wrap, the whole chunk is
-- appended, and the body stays within HTTP_MAX_RESPONSE.
pub receive_exact :
    (body contents : Bytes) (size nmemb : ℕ) (alloc : Bool)
    → size * nmemb ≡ length contents
    → length body ≤ http_max_response
    → (receive body size nmemb contents alloc).1 ≢ 0
    → ((receive body size nmemb contents alloc).1 ≡ size * nmemb)
      × ((receive body size nmemb contents alloc).0 ≡ body ++ contents)
      × (length (receive body size nmemb contents alloc).0 ≤ http_max_response)
unfolding receive
receive_exact body contents size nmemb alloc e h taken = elim (Bool-cases (size == 0)) [
  | inl zero' ↦ ground (arith, length-append body contents)
  | inr some' ↦ elim (Bool-cases (ltb (size_max / size) nmemb)) [
    | inl large ↦ ground arith
    | inr fits ↦
        ground (
          arith,
          length-append body contents,
          fits_product size nmemb (ground arith) (ground arith),
        )
  ]
]

-- What a transfer has collected: libcurl ends it when the callback returns another count than it was
-- given.
pub collect : Bytes → List Bytes → Option Bytes
collect body [] = some body
collect body (c ∷ cs) =
    let r = receive body 1 (length c) c true in
    let rest = collect r.0 cs in if r.1 == length c then rest else none

abbrev pub concat : List Bytes → Bytes
concat [] = []
concat (c ∷ cs) = c ++ concat cs

receive_one :
    (body c : Bytes)
    → length body ≤ http_max_response
    → receive body 1 (length c) c true ≡ (
        if leb (length body + length c) http_max_response then (body ++ c, length c) else (body, 0))
unfolding receive
receive_one body c h = ground arith

collect_from :
    (cs : List Bytes) (body : Bytes)
    → length body ≤ http_max_response
    → collect body cs ≡ (
        if leb (length body + length (concat cs)) http_max_response
        then some (body ++ concat cs)
        else none)
unfolding collect
collect_from [] body h = ground (arith, append-nil body)
collect_from (c ∷ cs) body h = elim (dec_le (length body + length c) http_max_response) [
  | yes fits ↦ ground (
    arith,
    receive_one body c h,
    collect_from cs (body ++ c) (omega (arith, length-append body c)),
    length-append body c,
    length-append c (concat cs),
    append_assoc body c (concat cs),
  )
  | no over ↦ ground (arith, receive_one body c h, length-append c (concat cs))
]

-- While there is memory a response in chunks is collected whole if it has at most HTTP_MAX_RESPONSE
-- bytes, and the transfer fails otherwise.
pub collect_lem :
    (cs : List Bytes)
    → collect [] cs
      ≡ (if leb (length (concat cs)) http_max_response then some (concat cs) else none)
collect_lem cs =
    let e : 0 + length (concat cs) ≡ length (concat cs) = omega arith in
    rw (← e) (collect_from cs [] (omega arith))
