-- ===== src/Client/Transition.antt =====
-- `state_version`, `modification_query_id`, `validate_modification` and `handle_transition` of
-- c/client/convex.c: the server's Transition messages.
pub mod Atomic
pub mod Delivery
use the_convex_100_language.Common.{
  ℕ, ◌-◌, ◌^◌, Bool, true, false, not, ◌&&◌, ◌||◌, Option, none, some, List, [], ◌∷◌, ◌++◌, length,
  ltb, leb, ◌==◌, if◌then◌else◌, Bytes, text, same, clip, ℤ, pos, negsuc,
}
use the_convex_100_language.Common.Maybe.{◌>>=◌, ◌>>◌, guard}
use the_convex_100_language.Client.Json.{
  JsonType, JsonLib, type_of, member, string_of, elements_of, found, is_some, is_type,
}
use the_convex_100_language.Client.Queue.Values.{Error, Update, no_error, or_text}
use the_convex_100_language.Client.Live.{
  Subscription, Manager, at, change, is_wanted, enqueue_update, find_subscription,
}

pub record Version : Type 0 where
  pub query_set : ℕ
  pub identity : ℕ
  pub timestamp : Bytes

-- `value < 0 || value > UINT32_MAX`, and the cast.
unfoldable pub as_uint32 : ℤ → Option ℕ
as_uint32 (pos n) = if leb n (2 ^ 32 - 1) then some n else none
as_uint32 (negsuc n) = none

abbrev pub or_empty : Option Bytes → Bytes
or_empty none = []
or_empty (some s) = s

module _ {J : Type 0} (json : JsonLib J) where
  -- `!get_ex(object, name, &field) || !field || get_type(field) != type`, and otherwise the field.
  unfoldable pub typed_field : Option J → Bytes → JsonType → Option J
  typed_field object name type = do
    field ← found (member json object name)
    guard (is_type (json.get_type field) type)
    some field

  unfoldable pub state_version : Option J → Bytes → Option Version
  state_version root name = do
    guard (is_type (type_of json root) JsonType.object)
    version ← typed_field root name JsonType.object
    q ← typed_field (some version) (text "querySet") JsonType.int
    i ← typed_field (some version) (text "identity") JsonType.int
    ts ← typed_field (some version) (text "ts") JsonType.string
    q_value ← as_uint32 (json.get_int64 q)
    i_value ← as_uint32 (json.get_int64 i)
    guard (ltb (length (json.get_string ts)) 128)
    some (record { query_set = q_value; identity = i_value; timestamp = json.get_string ts })

  unfoldable pub modification_query_id : Option J → Option ℕ
  modification_query_id mod' = do
    field ← typed_field mod' (text "queryId") JsonType.int
    as_uint32 (json.get_int64 field)

  -- The reason for which a modification is refused, in a buffer of 256 bytes.
  abbrev refuse : Bytes → Option Bytes
  refuse reason = some (clip 256 reason)

  abbrev bad_logs : Option J → Bool
  bad_logs mod' =
      is_some (member json mod' (text "logLines"))
      && not (is_type (type_of json (found (member json mod' (text "logLines")))) JsonType.array)

  unfoldable pub validate_modification : Option J → Option Bytes
  validate_modification mod' =
      if not (is_type (type_of json mod') JsonType.object)
      then refuse (text "Transition modification must be an object")
      else elim (typed_field mod' (text "type") JsonType.string) [
        | none ↦ refuse (text "Transition modification omitted type")
        | some type_field ↦
            let type = json.get_string type_field in
            if not (is_some (modification_query_id mod'))
            then refuse (text "Transition modification has invalid queryId")
            else if not (same type (text "QueryRemoved"))
                && not (same type (text "QueryUpdated"))
                && not (same type (text "QueryFailed"))
            then refuse (text "unknown Transition modification " ++ type)
            else if bad_logs mod'
            then refuse (text "Transition modification has invalid logLines")
            else if same type (text "QueryUpdated")
                && not (is_some (member json mod' (text "value")))
            then refuse (text "QueryUpdated omitted value")
            else if same type (text "QueryFailed")
                && not (is_some (typed_field mod' (text "errorMessage") JsonType.string))
            then refuse (text "QueryFailed omitted errorMessage")
            else none
      ]

  -- The first loop of `handle_transition`.
  unfoldable pub validate_all : List (Option J) → Option Bytes
  validate_all [] = none
  validate_all (mod' ∷ mods) =
      let rest = validate_all mods in
      elim (validate_modification mod') [ some reason ↦ some reason | none ↦ rest ]

  -- `(!last && !value) || (last && value && json_object_equal(last, value))`
  abbrev pub same_value : Option J → Option J → Bool
  same_value none none = true
  same_value none (some v) = false
  same_value (some l) none = false
  same_value (some l) (some v) = json.equal l v

  -- A QueryUpdated for a subscription: the value is kept, and delivered unless it only repeats, after
  -- a reconnection, what was delivered before. The flag is `published`.
  unfoldable pub apply_updated : Subscription J → Option J → Option J → Subscription J × Bool
  apply_updated s value logs =
      let suppress = s.rehydrating && (s.has_last_value && same_value s.last_value value) in
      let s' = record s { last_value = value; has_last_value = true; rehydrating = false } in
      if suppress
      then (s', false)
      else (enqueue_update s' (record { value = value; logs = logs; error = no_error }), true)

  unfoldable pub apply_failed : Subscription J → Option J → Option J → Subscription J
  apply_failed s mod' logs =
      enqueue_update (record s { last_value = none; has_last_value = false; rehydrating = false })
        (record {
          value = none;
          logs = logs;
          error = record {
            name = some (text "FunctionError");
            message =
                or_text (string_of json (found (member json mod' (text "errorMessage"))))
                  (text "Live query failed");
            data_ = found (member json mod' (text "errorData"));
            logs = logs;
          };
        })

  -- The body of the second loop for a subscription that is there. `validate_modification` has seen
  -- to it that the type is a string.
  unfoldable pub apply_to : Subscription J → Option J → Subscription J × Bool
  apply_to s mod' =
      let type = or_empty (string_of json (found (member json mod' (text "type")))) in
      let logs = found (member json mod' (text "logLines")) in
      if same type (text "QueryRemoved") || not (is_wanted s)
      then (s, false)
      else if same type (text "QueryUpdated")
      then apply_updated s (found (member json mod' (text "value"))) logs
      else (apply_failed s mod' logs, true)

  -- One round of the second loop: `modification_query_id` has been seen to succeed.
  unfoldable pub apply_modification : Option J → List (Subscription J) → List (Subscription J)
  apply_modification mod' ss = elim (modification_query_id mod') [
    | none ↦ ss
    | some id ↦ elim (find_subscription id ss) [
      | none ↦ ss
      | some k ↦ change k (λ s. (apply_to s mod').0) ss
    ]
  ]

  unfoldable pub apply_all : List (Option J) → List (Subscription J) → List (Subscription J)
  apply_all [] ss = ss
  apply_all (mod' ∷ mods) ss = apply_all mods (apply_modification mod' ss)

  -- `start_q != … || start_i != … || strcmp(start_ts, …)`, negated.
  abbrev pub is_current : Manager J → Version → Bool
  is_current m v =
      (v.query_set == m.remote_query_set)
      && (v.identity == m.remote_identity)
      && same v.timestamp m.remote_ts

  pub record Transition : Type 0 where
    pub start : Version
    pub finish : Version
    pub mods : List (Option J)

  -- `none` where a required field is missing.
  unfoldable pub read_transition : Option J → Option Transition
  read_transition message = do
    start ← state_version message (text "startVersion")
    finish ← state_version message (text "endVersion")
    mods ← typed_field message (text "modifications") JsonType.array
    some (record { start = start; finish = finish; mods = json.elements mods })

  unfoldable pub commit : Manager J → Transition → Manager J
  commit m t = record m {
    subscriptions = apply_all t.mods m.subscriptions;
    remote_query_set = t.finish.query_set;
    remote_identity = t.finish.identity;
    remote_ts = clip 128 t.finish.timestamp;
    max_observed_ts = clip 128 t.finish.timestamp;
  }

  -- The new state, and the reason if the message is refused.
  unfoldable pub handle_transition : Manager J → Option J → Manager J × Option Bytes
  handle_transition m message = elim (read_transition message) [
    | none ↦ (m, refuse (text "Transition omitted required version fields"))
    | some t ↦
        if not (is_current m t.start)
        then (m, refuse (text "Transition start version does not match local version"))
        else elim (validate_all t.mods) [
          | some reason ↦ (m, some reason)
          | none ↦ (commit m t, none)
        ]
  ]
