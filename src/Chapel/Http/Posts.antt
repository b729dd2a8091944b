-- ===== src/Chapel/Http/Posts.antt =====
-- `ct_http_post`: what goes out and what comes back.
use the_convex_100_language.Common.{
  ℕ, ◌+◌, ◌-◌, ◌/◌, ◌^◌, ◌<◌, ◌≤◌, ◌≡◌, refl, sym, subst, ◌⊎◌, ap, ◌∙◌, Bool, true, not, ◌&&◌, ◌||◌,
  Option, none, some, List, [], ◌∷◌, ◌++◌, append-nil, append_assoc, length, ltb, leb, ◌==◌,
  if◌then◌else◌, Bytes, All, arith, Bool-cases, Option-cases, inl, inr,
}
use the_convex_100_language.Chapel.Buffer.{Buffer, empty_buffer, append, append_lem}
use the_convex_100_language.Chapel.Utf8.{valid_text_boundary}
use the_convex_100_language.Chapel.Http.{
  max_http, http_receive, Post, Request, Part, Answer, receive_parts, token_size, is_sound,
  request_of, is_success, response_of, ct_http_post,
}
use the_convex_100_language.Chapel.Http.Headings.{IsOneLine, request_of-IsOneLine}

abbrev pub all_contents : List Part → Bytes
all_contents [] = []
all_contents (p ∷ parts) = p.contents ++ all_contents parts

http_receive-cases :
    (b : Buffer) (n : ℕ) (contents : Bytes) (alloc : Bool)
    → (http_receive b 1 n contents alloc ≡ (b, 0))
      ⊎ ((c : Buffer) × (append b contents max_http alloc ≡ some c)
          × ((http_receive b 1 n contents alloc).0 ≡ c))
unfolding http_receive
http_receive-cases b n contents alloc = elim (Bool-cases (ltb ((2 ^ 64 - 1) / 1) n)) [
  | inl over ↦ inl (rw over refl)
  | inr within ↦ elim (Option-cases (append b contents max_http alloc)) [
    | inl e ↦ inl (rw (within, e) refl)
    | inr (c, e) ↦ inr (c, e, rw (within, e) refl)
  ]
]

append-empty : (xs ys : Bytes) → 0 ≡ length ys → xs ≡ xs ++ ys
append-empty xs [] h = sym (append-nil xs)
append-empty xs (y ∷ ys) h = absurd (omega (arith, h))

http_receive-bytes :
    (b : Buffer) (n : ℕ) (contents : Bytes) (alloc : Bool)
    → length b.bytes ≤ max_http
    → n ≡ length contents
    → (http_receive b 1 n contents alloc).1 ≡ n
    → (let c = (http_receive b 1 n contents alloc).0 in
        (c.bytes ≡ b.bytes ++ contents) × (length c.bytes ≤ max_http))
http_receive-bytes b n contents alloc l same took = elim (http_receive-cases b n contents alloc) [
  | inl e ↦
      let nothing : 0 ≡ length contents = sym (ap (λ r. r.1) e) ∙ took ∙ same in
      rw (ap (λ r. r.0) e) (append-empty b.bytes contents nothing, l)
  | inr (c, a, e) ↦
      rw e (let (bytes, fits) = (append_lem b contents max_http alloc).1 c a in (bytes, fits.0))
]

abbrev or_empty : Option Buffer → Buffer
or_empty none = empty_buffer
or_empty (some b) = b

receive_parts-bytes :
    (b c : Buffer) (parts : List Part)
    → length b.bytes ≤ max_http
    → receive_parts b parts ≡ some c
    → (c.bytes ≡ b.bytes ++ all_contents parts) × (length c.bytes ≤ max_http)
unfolding receive_parts
receive_parts-bytes b c [] l e =
    subst (λ o. ((or_empty o).bytes ≡ b.bytes ++ []) × (length (or_empty o).bytes ≤ max_http)) e
      (sym (append-nil b.bytes), l)
receive_parts-bytes b c (p ∷ parts) l e =
    let r = http_receive b 1 (length p.contents) p.contents p.part_alloc in
    elim (Bool-cases (r.1 == length p.contents)) [
      | inl whole ↦
          let took : r.1 ≡ length p.contents = ground arith in
          let (bytes, fits) =
            http_receive-bytes b (length p.contents) p.contents p.part_alloc l refl took in
          let rest = subst (λ t. (if t then receive_parts r.0 parts else none) ≡ some c) whole e in
          let (all, small) = receive_parts-bytes r.0 c parts fits rest in
          (
            all
                ∙ ap (λ x. x ++ all_contents parts) bytes
                ∙ append_assoc b.bytes p.contents (all_contents parts),
            small,
          )
      | inr part ↦ absurd (ground (arith, e, part))
    ]

abbrev pub IsAnswer : Bytes → Answer → Type 0
IsAnswer whole answer =
    (whole ≡ all_contents answer.parts)
    × (length whole ≤ max_http)
    × (valid_text_boundary (some whole) (length whole) true ≡ true)
    × (is_success answer.status ≡ true)

response_of-cases :
    (o : Option Buffer) (answer : Answer) (whole : Bytes)
    → response_of o answer ≡ some whole
    → (b : Buffer) × (o ≡ some b)
      × (whole ≡ b.bytes)
      × (valid_text_boundary (some b.bytes) (length b.bytes) true ≡ true)
      × (is_success answer.status ≡ true)
unfolding response_of
response_of-cases none answer whole e = absurd (ground (arith, e))
response_of-cases (some b) answer whole e =
    let good : is_success answer.status ≡ true = ground (arith, e) in
    let valid : valid_text_boundary (some b.bytes) (length b.bytes) true ≡ true =
      ground (arith, e) in
    let same : whole ≡ b.bytes = ground (arith, e) in (b, refl, same, valid, good)

response_of-IsAnswer :
    (answer : Answer) (whole : Bytes)
    → response_of (receive_parts empty_buffer answer.parts) answer ≡ some whole
    → IsAnswer whole answer
response_of-IsAnswer answer whole e =
    let (b, took, same, valid, good) =
      response_of-cases (receive_parts empty_buffer answer.parts) answer whole e in
    let (bytes, small) = receive_parts-bytes empty_buffer b answer.parts (omega arith) took in
    (same ∙ bytes, rw same small, rw same valid, good)

-- The call gives up before it sends anything, or sends the one request.
ct_http_post-cases :
    (p : Post) (ready alloc : Bool) (now deadline_ms : ℕ) (perform : Request → Answer)
    → (let t = ct_http_post p ready alloc now deadline_ms perform in
        let r = request_of p (deadline_ms - now) in
        ((t.request ≡ none) × (t.response ≡ none))
        ⊎ ((is_sound p ≡ true)
            × (now < deadline_ms)
            × (t.request ≡ some r)
            × (t.response
                ≡ response_of (receive_parts empty_buffer (perform r).parts) (perform r))))
unfolding ct_http_post
ct_http_post-cases p ready alloc now deadline_ms perform =
    elim (Bool-cases (not (is_sound p) || not ready)) [
      | inl e ↦ inl (rw e (refl, refl))
      | inr e ↦ elim (Bool-cases (leb deadline_ms now)) [
        | inl e' ↦ inl (rw (e, e') (refl, refl))
        | inr e' ↦ elim (Bool-cases (not alloc && not (token_size p.token == 0))) [
          | inl f ↦ inl (rw (e, e', f) (refl, refl))
          | inr f ↦
              let sound : is_sound p ≡ true = ground arith in
              let early : now < deadline_ms = ground arith in
              inr (sound, early, rw (e, e', f) refl, rw (e, e', f) refl)
        ]
      ]
    ]

abbrev pub IsRequest : Post → ℕ → ℕ → Request → Type 0
IsRequest p now deadline_ms r =
    (r.to ≡ p.url)
    × (r.content ≡ p.body)
    × (now + r.timeout_ms ≡ deadline_ms)
    × All IsOneLine r.headers

request_of-IsRequest :
    (p : Post) (now deadline_ms : ℕ)
    → is_sound p ≡ true
    → now < deadline_ms
    → IsRequest p now deadline_ms (request_of p (deadline_ms - now))
unfolding request_of
request_of-IsRequest p now deadline_ms sound early =
    (refl, refl, omega arith, request_of-IsOneLine p (deadline_ms - now) sound)

abbrev or_request : Request → Option Request → Request
or_request r none = r
or_request r (some s) = s

-- What `ct_http_post` asks libcurl to send, if anything, has the address and body that it was given, the
-- time that is left, and headers without control characters other than a tab, so that no argument can
-- add a header. What it gives back is the whole body of the answer to that request, at most 2 MiB of
-- valid UTF-8 without NUL, of a status from 200 to 299.
pub ct_http_post_answers :
    (p : Post) (ready alloc : Bool) (now deadline_ms : ℕ) (perform : Request → Answer)
    → (let t = ct_http_post p ready alloc now deadline_ms perform in
        ((r : Request) → t.request ≡ some r → IsRequest p now deadline_ms r)
        × ((whole : Bytes)
            → t.response ≡ some whole
            → (r : Request) × (t.request ≡ some r) × IsAnswer whole (perform r)))
ct_http_post_answers p ready alloc now deadline_ms perform =
    elim (ct_http_post-cases p ready alloc now deadline_ms perform) [
      | inl (no_request, no_response) ↦ (
        λ r e. absurd (ground (arith, e, no_request)),
        λ whole e. absurd (ground (arith, e, no_response)),
      )
      | inr (sound, early, request, response) ↦ (
        λ r e.
            subst
              (λ o. IsRequest p now deadline_ms (or_request (request_of p (deadline_ms - now)) o))
              (sym request ∙ e) (request_of-IsRequest p now deadline_ms sound early),
        λ whole e. (_, request, response_of-IsAnswer _ whole (sym response ∙ e)),
      )
    ]
