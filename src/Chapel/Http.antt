-- ===== src/Chapel/Http.antt =====
-- `ct_http_post` and `http_receive`: a request over HTTP.
pub mod Headings
pub mod Posts
use the_convex_100_language.Common.{
  ℕ, zero, suc, ◌+◌, ◌-◌, ◌*◌, ◌/◌, ◌^◌, Bool, true, false, not, ◌&&◌, ◌||◌, Option, none, some,
  List, [], ◌∷◌, ◌++◌, length, ltb, leb, ◌==◌, if◌then◌else◌, Bytes, text, clip,
}
use the_convex_100_language.Chapel.Buffer.{Buffer, empty_buffer, append}
use the_convex_100_language.Chapel.Utf8.{valid_text_boundary}
use the_convex_100_language.Chapel.Command.{ct_valid_http_field_value}

-- `CT_MAX_HTTP`
abbrev pub max_http : ℕ
max_http = 2097152

-- The callback of libcurl: the buffer, and the number of bytes that it took.
unfoldable pub http_receive : Buffer → ℕ → ℕ → Bytes → Bool → Buffer × ℕ
http_receive b size nmemb contents alloc =
    if not (size == 0) && ltb ((2 ^ 64 - 1) / size) nmemb
    then (b, 0)
    else elim (append b contents max_http alloc) [ none ↦ (b, 0) | some b' ↦ (b', size * nmemb) ]

-- The arguments. Only the token may be NULL; `terminated` tells whether a NUL stands behind each text.
pub record Post : Type 0 where
  pub url : Bytes
  pub client_version : Bytes
  pub token : Option Bytes
  pub body : Bytes
  pub terminated : Bool

-- What libcurl is told to send.
pub record Request : Type 0 where
  pub to : Bytes
  pub headers : List Bytes
  pub content : Bytes
  pub timeout_ms : ℕ

-- A part of the body, of `nmemb` bytes of size 1, and whether `realloc` succeeds.
pub record Part : Type 0 where
  pub contents : Bytes
  pub part_alloc : Bool

-- What libcurl makes of a request: the parts of the body, whether the transfer succeeds when all of
-- them are taken, and the status, if there is one.
pub record Answer : Type 0 where
  pub parts : List Part
  pub succeeds : Bool
  pub status : Option ℕ

-- libcurl ends the transfer when the callback does not take a part whole.
unfoldable pub receive_parts : Buffer → List Part → Option Buffer
receive_parts b [] = some b
receive_parts b (p ∷ parts) =
    let r = http_receive b 1 (length p.contents) p.contents p.part_alloc in
    let more = receive_parts r.0 parts in if r.1 == length p.contents then more else none

-- What was sent, and the response if the result is 1.
pub record Posted : Type 0 where
  pub request : Option Request
  pub response : Option Bytes

abbrev pub token_size : Option Bytes → ℕ
token_size none = 0
token_size (some token) = length token

-- The six checks.
unfoldable pub is_sound : Post → Bool
is_sound p =
    valid_text_boundary (some p.url) (length p.url) p.terminated
    && valid_text_boundary (some p.client_version) (length p.client_version) p.terminated
    && valid_text_boundary p.token (token_size p.token) p.terminated
    && valid_text_boundary (some p.body) (length p.body) p.terminated
    && ct_valid_http_field_value (some p.client_version) (length p.client_version)
    && ct_valid_http_field_value p.token (token_size p.token)

abbrev pub authorization : Option Bytes → List Bytes
authorization none = []
authorization (some token) =
    if length token == 0 then [] else (text "Authorization: Bearer " ++ token) ∷ []

-- `char version[256]` cuts a long version off.
unfoldable pub request_of : Post → ℕ → Request
request_of p remaining = record {
  to = p.url;
  headers =
      text "Content-Type: application/json"
      ∷ text "Accept: application/json"
      ∷ clip 256 (text "Convex-Client: " ++ p.client_version)
      ∷ authorization p.token;
  content = p.body;
  timeout_ms = remaining;
}

abbrev pub is_success : Option ℕ → Bool
is_success none = false
is_success (some status) = leb 200 status && ltb status 300

-- After the transfer.
unfoldable pub response_of : Option Buffer → Answer → Option Bytes
response_of none answer = none
response_of (some b) answer =
    if not answer.succeeds || not (is_success answer.status)
    then none
    else if valid_text_boundary (some b.bytes) (length b.bytes) true
    then some b.bytes
    else none

-- `ready` tells whether libcurl and its handle are there, `alloc` whether there is memory for the
-- authorization; libcurl answers the request by `perform`.
unfoldable pub ct_http_post : Post → Bool → Bool → ℕ → ℕ → (Request → Answer) → Posted
ct_http_post p ready alloc now deadline_ms perform =
    let r : Request = request_of p (deadline_ms - now) in
    let refused : Posted = record { request = none; response = none } in
    if not (is_sound p) || not ready
    then refused
    else if leb deadline_ms now
    then refused
    else if not alloc && not (token_size p.token == 0)
    then refused
    else record {
      request = some r;
      response = response_of (receive_parts empty_buffer (perform r).parts) (perform r);
    }
