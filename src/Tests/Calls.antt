-- ===== src/Tests/Calls.antt =====
-- The client over HTTP.
use the_convex_100_language.Common.{
  ◌≡◌, ◌≢◌, ◌↔◌, refl, arith, true, false, some, none, [], ◌∷◌, ◌++◌, Bytes, text, same,
}
use the_convex_100_language.Client.Api.{subscribe, Client, ok}
use the_convex_100_language.Client.Json.{JsonType}
use the_convex_100_language.Client.Http.{
  set_auth, Answer, Request, Transfer, done, read_answer, read_body, convex_call, receive,
}
use the_convex_100_language.Client.Closing.{begin_close, IsError, Reports, begin_close_refuses}
use the_convex_100_language.Client.Http.Url.{http_scheme}
use the_convex_100_language.Client.Http.Reply.{Fits, asked, IsReply, convex_call_ok_iff}
use the_convex_100_language.Tests.Toy.{Toy, object, word, toy}

taken : (receive (1 ∷ []) 1 2 (2 ∷ 3 ∷ []) true).1 ≢ 0
unfolding receive
taken = omega arith

abbrev client : Client Toy
client = record {
  url = http_scheme true ++ text "a.b";
  version = text "c-0.1.0";
  token = none;
  live = none;
  closed = false;
}

abbrev answer : Answer Toy
answer = record { value = some (word (text "x")); logs = none }

abbrev success : Toy
success =
    object
      ((text "status", some (word (text "success"))) ∷ (text "value", some (word (text "x"))) ∷ [])

abbrev network : Request Toy → Transfer
network r = done (text "x")

abbrev list : Bytes
list = text "messages:list"

client-Fits : Fits toy client (text "query")
unfolding text
client-Fits = (omega arith, omega arith, tt)

convex_call_ok_iff_example :
    (convex_call toy network client (text "query") list (some (object [])) true true true
      ≡ ok answer)
    ↔ ((client.closed ≡ false)
        × (list ≢ [])
        × (toy.get_type (object []) ≡ JsonType.object)
        × IsReply toy (network (asked toy client (text "query") list (object []))) answer)
convex_call_ok_iff_example =
    convex_call_ok_iff toy network client (text "query") list (object []) answer client-Fits

called :
    convex_call toy network client (text "query") list (some (object [])) true true true ≡ ok answer
unfolding convex_call read_body read_answer text same
called = refl

begin_close_refuses_example :
    let d = (begin_close client).0 in
    ((subscribe toy d (text "messages:list") (some (object [])) true true true).0 ≡ d)
    × IsError (subscribe toy d (text "messages:list") (some (object [])) true true true).1
    × IsError (
        convex_call toy network d
          (text "query")
          (text "messages:list")
          (some (object []))
          true
          true
          true)
    × ((set_auth d none true).0 ≡ d)
    × Reports (set_auth d none true).1
begin_close_refuses_example =
    begin_close_refuses toy network client (text "query") (text "messages:list") (some (object []))
      none true true true
