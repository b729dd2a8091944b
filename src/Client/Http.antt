-- ===== src/Client/Http.antt =====
-- The HTTP half of c/client/convex.c: `receive`, `convex_new`, `convex_set_auth` and `convex_call`.
pub mod Body
pub mod Url
pub mod Reply
use the_convex_100_language.Common.{
  ℕ, zero, suc, ◌+◌, ◌-◌, ◌*◌, ◌/◌, ◌%◌, ◌^◌, Bool, true, false, not, ◌&&◌, ◌||◌, Option, none,
  some, List, [], ◌∷◌, ◌++◌, length, drop, take, get_or, ltb, leb, ◌==◌, if◌then◌else◌, Bytes, text,
  same, starts_with, clip,
}
use the_convex_100_language.Client.Json.{
  JsonType, JsonLib, member, found, string_of, is_some, is_type,
}
use the_convex_100_language.Client.Queue.Values.{Error, no_error, or_text, fail}
use the_convex_100_language.Client.Api.{Client, Result, ok, err, is_empty}

abbrev pub http_max_response : ℕ
http_max_response = 2097152

-- SIZE_MAX of a 64-bit machine
abbrev pub size_max : ℕ
size_max = 2 ^ 64 - 1

-- `receive`, libcurl's write callback, at `contents` of `size * nmemb` bytes: the new body and the
-- count that it returns. `alloc` tells whether `realloc` succeeds.
unfoldable pub receive : Bytes → ℕ → ℕ → Bytes → Bool → Bytes × ℕ
receive body size nmemb contents alloc =
    let add = (size * nmemb) % 2 ^ 64 in
    if not (size == 0) && ltb (size_max / size) nmemb
    then (body, 0)
    else if ltb http_max_response (length body) || ltb (http_max_response - length body) add
    then (body, 0)
    else if not alloc
    then (body, 0)
    else (body ++ contents, add)

-- `strlen(url) > 0 && url[strlen(url) - 1] == '/'`
abbrev pub ends_in_slash : Bytes → Bool
ends_in_slash url = ltb 0 (length url) && (get_or url (length url - 1) 0 == b'/')

-- The loop of `convex_new` over the end of the URL, with a bound on its rounds.
unfoldable pub strip_rounds : ℕ → Bytes → Bytes
strip_rounds zero url = url
strip_rounds (suc n) url =
    let shorter = strip_rounds n (take (length url - 1) url) in
    if ends_in_slash url then shorter else url

-- Each round shortens the URL, so its length is enough.
unfoldable pub strip_slashes : Bytes → Bytes
strip_slashes url = strip_rounds (length url) url

abbrev pub has_scheme : Bytes → Bool
has_scheme url = starts_with url (text "http://") || starts_with url (text "https://")

abbrev pub or_default : Option Bytes → Bytes
or_default none = text "c-0.1.0"
or_default (some v) = v

-- `token && *token ? duplicate(token) : NULL`
abbrev pub next_token : Option Bytes → Option Bytes
next_token none = none
next_token (some []) = none
next_token (some (c ∷ cs)) = some (c ∷ cs)

module _ {J : Type 0} where
  -- The flags tell whether `calloc` and the two `duplicate` calls succeed. A NULL `url` is `none`.
  unfoldable pub convex_new : Option Bytes → Option Bytes → Bool → Bool → Bool → Result J (Client J)
  convex_new none version a b c =
      err (fail (text "ProtocolError") (text "Convex deployment URL must use http or https") none)
  convex_new (some url) version a b c =
      if not (has_scheme url)
      then err
          (fail (text "ProtocolError") (text "Convex deployment URL must use http or https") none)
      else if not a || (not b || not c)
      then err (fail (text "Error") (text "out of memory") none)
      else ok (record {
        url = strip_slashes url;
        version = or_default version;
        token = none;
        live = none;
        closed = false;
      })

  -- The new client, and the error of a call that returns 0.
  unfoldable pub set_auth : Client J → Option Bytes → Bool → Client J × Option (Error J)
  set_auth c token alloc =
      if c.closed
      then (c, some (fail (text "Error") (text "client is closed") none))
      else if is_some (next_token token) && not alloc
      then (c, some (fail (text "Error") (text "out of memory") none))
      else (record c { token = next_token token }, none)

  -- The URL that `connect_socket` dials, in a buffer of `strlen(url) + 16` bytes.
  unfoldable pub sync_url : Client J → Bytes
  sync_url c =
      if starts_with c.url (text "https://")
      then clip (length c.url + 16) (text "wss://" ++ (drop 8 c.url ++ text "/api/sync"))
      else clip (length c.url + 16) (text "ws://" ++ (drop 7 c.url ++ text "/api/sync"))

-- What `convex_call` hands to libcurl.
pub record Request (J : Type 0) : Type 0 where
  pub endpoint : Bytes
  pub headers : List Bytes
  pub body : Bytes

pub record Answer (J : Type 0) : Type 0 where
  pub value : Option J
  pub logs : Option J

-- What libcurl makes of a request: the body that `receive` collected, or the text of its error.
pub data Transfer : Type 0 where
  done : Bytes → Transfer
  broken : Bytes → Transfer

module _ {J : Type 0} (json : JsonLib J) where
  -- The JSON envelope, printed.
  unfoldable pub envelope : Bytes → J → Bytes
  envelope path args = json.to_plain (
      json.new_object (
        (text "path", some (json.new_string path))
        ∷ (text "args", some args)
        ∷ (text "format", some (json.new_string (text "json")))
        ∷ []))

  abbrev auth_header : Option Bytes → List Bytes
  auth_header none = []
  auth_header (some token) = (text "Authorization: Bearer " ++ token) ∷ []

  unfoldable pub request : Client J → Bytes → Bytes → J → Request J
  request c operation path args = record {
    endpoint = clip 2048 (c.url ++ (text "/api/" ++ operation));
    headers =
        text "Content-Type: application/json"
        ∷ text "Accept: application/json"
        ∷ clip 256 (text "Convex-Client: " ++ c.version)
        ∷ auth_header c.token;
    body = envelope path args;
  }

  abbrev bad_status : Result J (Answer J)
  bad_status = err (fail (text "ProtocolError") (text "HTTP response had an unknown status") none)

  -- The part of `convex_call` behind `json_tokener_parse`. A status that is JSON null has a NULL
  -- pointer, like a missing one.
  unfoldable pub read_answer : J → Result J (Answer J)
  read_answer response =
      let value = member json (some response) (text "value") in
      let logs = found (member json (some response) (text "logLines")) in
      let message = string_of json (found (member json (some response) (text "errorMessage"))) in
      let detail = found (member json (some response) (text "errorData")) in
      elim (found (member json (some response) (text "status"))) [
        | none ↦ bad_status
        | some status ↦
            if same (json.get_string status) (text "success") && is_some value
            then ok (record { value = found value; logs = logs })
            else if same (json.get_string status) (text "error")
            then err (record {
              name = some (text "FunctionError");
              message = or_text message (text "Convex function failed");
              data_ = detail;
              logs = logs;
            })
            else bad_status
      ]

  unfoldable pub read_body : Bytes → Result J (Answer J)
  read_body body = elim (json.parse body) [
    | none ↦ err (fail (text "ProtocolError") (text "HTTP response was not valid Convex JSON") none)
    | some response ↦ read_answer response
  ]

  abbrev after_transfer : Transfer → Result J (Answer J)
  after_transfer (done body) = read_body body
  after_transfer (broken what) = err (fail (text "TransportError") what none)

  abbrev pub is_object : Option J → Bool
  is_object none = false
  is_object (some j) = is_type (json.get_type j) JsonType.object

  -- The authorization header, by its failures: a token that is too long, `malloc`, and the list.
  abbrev pub auth_error : Option Bytes → Bool → Bool → Option (Error J)
  auth_error none alloc append = none
  auth_error (some token) alloc append =
      if ltb (size_max - 23) (length token)
      then some (fail (text "Error") (text "authentication token is too large") none)
      else if not alloc || not append
      then some (fail (text "Error") (text "out of memory") none)
      else none

  -- The network is a function of the request; `init`, `alloc` and `append` tell whether
  -- `curl_easy_init`, `malloc` and `curl_slist_append` succeed. `path` NULL is not modelled apart from
  -- an empty path, which the code treats alike.
  unfoldable pub convex_call :
      (Request J → Transfer)
      → Client J
      → Bytes
      → Bytes
      → Option J
      → Bool
      → Bool
      → Bool
      → Result J (Answer J)
  convex_call network c operation path none init alloc append =
      if c.closed
      then err (fail (text "Error") (text "client is closed") none)
      else err (fail (text "ProtocolError") (text "Convex arguments must be a JSON object") none)
  convex_call network c operation path (some args) init alloc append =
      if c.closed
      then err (fail (text "Error") (text "client is closed") none)
      else if is_empty path || not (is_object (some args))
      then err (fail (text "ProtocolError") (text "Convex arguments must be a JSON object") none)
      else if not init
      then err (fail (text "TransportError") (text "could not create HTTP client") none)
      else elim (auth_error c.token alloc append) [
        | some e ↦ err e
        | none ↦ after_transfer (network (request c operation path args))
      ]
