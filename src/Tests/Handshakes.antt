-- ===== src/Tests/Handshakes.antt =====
-- Addresses, requests and handshakes of the Chapel client.
use the_convex_100_language.Common.{
  ◌<◌, ◌≡◌, ◌↔◌, refl, arith, true, some, List, [], ◌∷◌, ◌++◌, length, Bytes, text, starts_with,
}
use the_convex_100_language.Client.Http.{strip_slashes, strip_rounds}
use the_convex_100_language.Client.Http.Url.{http_scheme}
use the_convex_100_language.Chapel.Buffer.{append, new_capacity, grow}
use the_convex_100_language.Chapel.Utf8.{valid_text_boundary, has_nul, valid_utf8, passes, pass}
use the_convex_100_language.Chapel.Command.{no_controls, ct_valid_http_field_value}
use the_convex_100_language.Chapel.Http.{
  Post, Request, Answer, ct_http_post, is_sound, request_of, response_of, receive_parts,
  http_receive,
}
use the_convex_100_language.Chapel.Http.Posts.{IsRequest, IsAnswer, ct_http_post_answers}
use the_convex_100_language.Chapel.Url.{
  ct_deployment_url, address, authority_of, contains, only_slashes,
}
use the_convex_100_language.Chapel.Url.Accepts.{Made, scheme_for, ct_deployment_url_iff}
use the_convex_100_language.Chapel.Headers.{
  Handshake, no_handshake, header_has_token, websocket_header, read_header, take_header, before,
  same_folded, trim_end, trim_rounds, skip_blanks, token_rounds, skip_to_element,
}
use the_convex_100_language.Chapel.Headers.Tokens.{any_token, elements, header_has_token-elements}
use the_convex_100_language.Chapel.Headers.Bounded.{
  after_headers, IsStatusLine, Fits, after_headers_last,
}

abbrev deployment : Bytes
deployment = text "https://a.b/"

abbrev socket_url : Bytes
socket_url = text "wss://a.b/api/sync"

ct_deployment_url_iff_example :
    (ct_deployment_url (some deployment) true true ≡ some socket_url) ↔ (
      (secure : _) × (rest : Bytes) × (deployment ≡ http_scheme secure ++ rest)
      × Made (scheme_for secure true) rest true socket_url)
ct_deployment_url_iff_example = ct_deployment_url_iff deployment socket_url true

-- A list with a token in capitals.
abbrev connection : Bytes
connection = text "keep-alive, Upgrade"

abbrev upgrade : Bytes
upgrade = text "upgrade"

upgrade_some : 0 < length upgrade
unfolding text
upgrade_some = omega arith

header_has_token-elements_example :
    header_has_token connection upgrade ≡ any_token upgrade (elements connection)
header_has_token-elements_example = header_has_token-elements connection upgrade upgrade_some

abbrev redirected : List Bytes
redirected = text "HTTP/1.1 301" ∷ text "Upgrade: websocket" ∷ []

abbrev switched : Bytes
switched = text "HTTP/1.1 101"

abbrev headers : List Bytes
headers = text "Connection: Upgrade" ∷ []

abbrev seen : Handshake
seen = record no_handshake { saw_upgrade = true }

redirected-seen : after_headers no_handshake redirected ≡ some seen
unfolding after_headers websocket_header read_header take_header before same_folded trim_end
    trim_rounds skip_blanks header_has_token token_rounds skip_to_element text
redirected-seen = refl

switched_status : IsStatusLine switched
unfolding text same_folded
switched_status = (omega arith, omega arith, refl)

after_headers_last_example :
    (after_headers no_handshake (redirected ++ switched ∷ headers)
      ≡ after_headers no_handshake headers)
    × ((g : Handshake)
        → after_headers no_handshake (redirected ++ switched ∷ headers) ≡ some g
        → Fits g)
after_headers_last_example =
    after_headers_last no_handshake seen redirected switched headers redirected-seen switched_status

websocket_found : ct_deployment_url (some deployment) true true ≡ some socket_url
unfolding ct_deployment_url address starts_with authority_of contains only_slashes strip_slashes
    strip_rounds text
websocket_found = refl

abbrev query : Post
query = record {
  url = 1 ∷ [];
  client_version = 50 ∷ [];
  token = some (51 ∷ []);
  body = 52 ∷ [];
  terminated = true;
}

abbrev answers : Request → Answer
answers r = record {
  parts =
      record { contents = 53 ∷ []; part_alloc = true }
      ∷ record { contents = 54 ∷ []; part_alloc = true }
      ∷ [];
  succeeds = true;
  status = some 200;
}

ct_http_post_answers_example :
    (let t = ct_http_post query true true 10 500 answers in
      ((r : Request) → t.request ≡ some r → IsRequest query 10 500 r)
      × ((whole : Bytes)
          → t.response ≡ some whole
          → (r : Request) × (t.request ≡ some r) × IsAnswer whole (answers r)))
ct_http_post_answers_example = ct_http_post_answers query true true 10 500 answers

-- The request of this example is sent and answered.
query_answered : (ct_http_post query true true 10 500 answers).response ≡ some (53 ∷ 54 ∷ [])
unfolding ct_http_post is_sound valid_text_boundary has_nul valid_utf8 passes pass
    ct_valid_http_field_value no_controls request_of response_of receive_parts http_receive append
    new_capacity grow
query_answered = refl
