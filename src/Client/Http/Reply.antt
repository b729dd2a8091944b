-- ===== src/Client/Http/Reply.antt =====
-- How an HTTP response becomes a result.
use the_convex_100_language.Common.{
  ◌+◌, ◌-◌, ◌<◌, ◌^◌, ◌≢◌, List, [], ◌∷◌, ◌++◌, length, take-of_le, none, ◌≡◌, ◌↔◌, sym, ap, ◌∙◌,
  not, ◌||◌, clip, ltb, refl, true, false, Option, some, Bytes, text, same, same_iff, same_refl,
  arith, Option-cases, inl, inr,
}
use the_convex_100_language.Client.Json.{JsonLib, JsonType, is_type, member, found, string_of}
use the_convex_100_language.Client.Queue.Values.{or_text}
use the_convex_100_language.Client.Api.{Client, ok, err, is_empty}
use the_convex_100_language.Client.Http.{
  Answer, Request, Transfer, done, broken, read_answer, read_body, request, convex_call, is_object,
  envelope, auth_error, auth_header, after_transfer, size_max,
}

error_differs : same (text "error") (text "success") ≡ false
unfolding same text
error_differs = refl

abbrev pub bearer : Option Bytes → List Bytes
bearer none = []
bearer (some token) = (text "Authorization: Bearer " ++ token) ∷ []

abbrev pub TokenFits : Option Bytes → Type 0
TokenFits none = Unit
TokenFits (some token) = length token + 23 < 2 ^ 64

is_empty_iff : (path : Bytes) → path ≢ [] → is_empty path ≡ false
is_empty_iff [] h = absurd (h refl)
is_empty_iff (c ∷ path) h = refl

object_iff : (t : JsonType) → (is_type t JsonType.object ≡ true) ↔ (t ≡ JsonType.object)
object_iff JsonType.object = (λ e. refl, λ e. refl)
object_iff t = ground arith

module _ {J : Type 0} (json : JsonLib J) where
  -- The text of a response's status, if there is one that is not null.
  abbrev pub status_of : J → Option Bytes
  status_of response = string_of json (found (member json (some response) (text "status")))

  -- A response is a success exactly if its status is "success" and it has a value, null included; the
  -- result is that value with the log lines.
  pub read_answer_ok_iff :
      (response : J) (a : Answer J)
      → (read_answer json response ≡ ok a) ↔ (
          (status_of response ≡ some (text "success"))
          × (member json (some response) (text "value") ≡ some a.value)
          × (found (member json (some response) (text "logLines")) ≡ a.logs))
  unfolding read_answer
  read_answer_ok_iff response a =
      let status = found (member json (some response) (text "status")) in
      elim (Option-cases status) [
        | inl e ↦ (λ h. ground arith, λ h. ground arith)
        | inr (s, e) ↦ (
          λ h. ground (arith, same_iff (json.get_string s) (text "success")),
          λ h. ground (arith, same_iff (json.get_string s) (text "success")),
        )
      ]

  -- A response with the status "error" is a FunctionError with the server's message, or a default, its
  -- data and its log lines.
  pub read_answer_error :
      (response : J)
      → status_of response ≡ some (text "error")
      → read_answer json response
        ≡ err (record {
          name = some (text "FunctionError");
          message =
              or_text
                (string_of json (found (member json (some response) (text "errorMessage"))))
                (text "Convex function failed");
          data_ = found (member json (some response) (text "errorData"));
          logs = found (member json (some response) (text "logLines"));
        })
  unfolding read_answer
  read_answer_error response e =
      let status = found (member json (some response) (text "status")) in
      elim (Option-cases status) [
        | inl n ↦ absurd (ground arith)
        | inr (s, n) ↦
            let q : json.get_string s ≡ text "error" = ground arith in
            ground (arith, error_differs, same_refl (text "error"))
      ]

  -- The request of a call: a POST to `/api/` and the operation behind the client's address, with a JSON
  -- envelope of the path, the arguments and the format, and the client's version and token, if any.
  abbrev pub asked : Client J → Bytes → Bytes → J → Request J
  asked c operation path args = record {
    endpoint = c.url ++ (text "/api/" ++ operation);
    headers =
        (text "Content-Type: application/json"
          ∷ text "Accept: application/json"
          ∷ (text "Convex-Client: " ++ c.version)
          ∷ [])
        ++ bearer c.token;
    body = json.to_plain (
        json.new_object (
          (text "path", some (json.new_string path))
          ∷ (text "args", some args)
          ∷ (text "format", some (json.new_string (text "json")))
          ∷ []));
  }

  -- The buffers that hold the address and the version do not cut them off, and the size of the
  -- authorization does not wrap.
  abbrev pub Fits : Client J → Bytes → Type 0
  Fits c operation =
      (length (c.url ++ (text "/api/" ++ operation)) < 2048)
      × (length (text "Convex-Client: " ++ c.version) < 256)
      × TokenFits c.token

  -- A JSON document with the status "success", the value of the answer and its log lines, if any.
  abbrev pub IsSuccess : J → Answer J → Type 0
  IsSuccess response a =
      (status_of response ≡ some (text "success"))
      × (member json (some response) (text "value") ≡ some a.value)
      × (found (member json (some response) (text "logLines")) ≡ a.logs)

  -- What comes back is such a document.
  abbrev pub IsReply : Transfer → Answer J → Type 0
  IsReply t a =
      (body : Bytes) × (t ≡ done body)
      × ((response : J) × (json.parse body ≡ some response) × IsSuccess response a)

  auth_header-bearer : (token : Option Bytes) → auth_header json token ≡ bearer token
  auth_header-bearer none = refl
  auth_header-bearer (some token) = refl

  auth_fits : (token : Option Bytes) → TokenFits token → auth_error json token true true ≡ none
  auth_fits none h = refl
  auth_fits (some token) h =
      let fits : ltb (size_max - 23) (length token) ≡ false = ground arith in rw fits refl

  request-asked :
      (c : Client J) (operation path : Bytes) (args : J)
      → Fits c operation
      → request json c operation path args ≡ asked c operation path args
  unfolding request clip envelope
  request-asked c operation path args (u, v, t) =
      let whole_url = take-of_le 2047 (c.url ++ (text "/api/" ++ operation)) (omega arith) in
      let whole_version = take-of_le 255 (text "Convex-Client: " ++ c.version) (omega arith) in
      rw (whole_url, whole_version, auth_header-bearer c.token) refl

  body_reads :
      (body : Bytes) (response : J)
      → json.parse body ≡ some response
      → read_body json body ≡ read_answer json response
  unfolding read_body
  body_reads body response e = rw (e, read_body) refl

  body_fails : (body : Bytes) (a : Answer J) → json.parse body ≡ none → read_body json body ≢ ok a
  unfolding read_body
  body_fails body a e h = ground (arith, e, h)

  after_transfer_iff : (t : Transfer) (a : Answer J) → (after_transfer json t ≡ ok a) ↔ IsReply t a
  after_transfer_iff (done body) a = (there, back)
    where
      there : read_body json body ≡ ok a → IsReply (done body) a
      there h = elim (Option-cases (json.parse body)) [
        | inl e ↦ absurd (body_fails body a e h)
        | inr (r, e) ↦
            (body, refl, (r, e, (read_answer_ok_iff r a).0 (sym (body_reads body r e) ∙ h)))
      ]

      back : IsReply (done body) a → read_body json body ≡ ok a
      back (b, t, (r, e, h)) =
          let same : body ≡ b = ground (arith, t) in
          ap (read_body json) same ∙ body_reads b r e ∙ (read_answer_ok_iff r a).1 h
  after_transfer_iff (broken what) a =
      (λ h. ground (arith, h), λ r. let e = r.1 in ground (arith, e))

  call_goes_out :
      (network : Request J → Transfer) (c : Client J) (operation path : Bytes) (args : J)
      → c.closed ≡ false
      → is_empty path || not (is_object json (some args)) ≡ false
      → Fits c operation
      → convex_call json network c operation path (some args) true true true
        ≡ after_transfer json (network (asked c operation path args))
  unfolding convex_call
  call_goes_out network c operation path args o good fits =
      rw (o, good, auth_fits c.token fits.2, request-asked c operation path args fits) refl

  call_checks :
      (network : Request J → Transfer) (c : Client J) (operation path : Bytes) (args : J)
      (a : Answer J)
      → convex_call json network c operation path (some args) true true true ≡ ok a
      → (c.closed ≡ false) × (is_empty path || not (is_object json (some args)) ≡ false)
  unfolding convex_call
  call_checks network c operation path args a h = (ground (arith, h), ground (arith, h))

  -- When libcurl and memory are there, and neither the address nor the version nor the token is too
  -- long, a call succeeds with an answer exactly when the client is open, the path is not empty, the
  -- arguments are an object, and the server's reply to the request, sent to `/api/` and the operation
  -- behind the client's address, is a JSON document with the status "success" and this value, null
  -- included, and these log lines.
  pub convex_call_ok_iff :
      (network : Request J → Transfer) (c : Client J) (operation path : Bytes) (args : J)
      (a : Answer J)
      → Fits c operation
      → (convex_call json network c operation path (some args) true true true ≡ ok a) ↔ (
          (c.closed ≡ false)
          × (path ≢ [])
          × (json.get_type args ≡ JsonType.object)
          × IsReply (network (asked c operation path args)) a)
  convex_call_ok_iff network c operation path args a fits = (there, back)
    where
      back :
          (c.closed ≡ false)
            × (path ≢ [])
            × (json.get_type args ≡ JsonType.object)
            × IsReply (network (asked c operation path args)) a
          → convex_call json network c operation path (some args) true true true ≡ ok a
      back (o, some', object, reply) =
          let good : is_empty path || not (is_object json (some args)) ≡ false =
            rw (is_empty_iff path some', (object_iff (json.get_type args)).1 object) refl in
          call_goes_out network c operation path args o good fits
          ∙ (after_transfer_iff (network (asked c operation path args)) a).1 reply

      there :
          convex_call json network c operation path (some args) true true true ≡ ok a
          → (c.closed ≡ false)
            × (path ≢ [])
            × (json.get_type args ≡ JsonType.object)
            × IsReply (network (asked c operation path args)) a
      there h =
          let (o, good) = call_checks network c operation path args a h in
          let full : is_empty path ≡ false = ground arith in
          let object : is_type (json.get_type args) JsonType.object ≡ true = ground arith in
          (
            o,
            λ e. ground (arith, full, e),
            (object_iff (json.get_type args)).0 object,
            (after_transfer_iff (network (asked c operation path args)) a).0
                (sym (call_goes_out network c operation path args o good fits) ∙ h),
          )
