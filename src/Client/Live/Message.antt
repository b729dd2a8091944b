-- ===== src/Client/Live/Message.antt =====
-- The messages that the client sends: `connect_message` and `modify_message_locked`.
use the_convex_100_language.Common.{
  ℕ, Bool, not, ◌||◌, Option, none, some, List, [], ◌∷◌, ◌++◌, if◌then◌else◌, Bytes, text, add32,
  pos,
}
use the_convex_100_language.Client.Json.{JsonLib}
use the_convex_100_language.Client.Live.{Subscription, Manager, is_wanted}

module _ {J : Type 0} (json : JsonLib J) where
  abbrev str : Bytes → Option J
  str s = some (json.new_string s)

  abbrev num : ℕ → Option J
  num n = some (json.new_int64 (pos n))

  -- `if (*manager->max_observed_ts)`
  abbrev observed : Bytes → List (Bytes × Option J)
  observed [] = []
  observed (c ∷ ts) = (text "maxObservedTimestamp", str (c ∷ ts)) ∷ []

  -- `session_id` is an argument: it is random.
  unfoldable pub connect_message : Manager J → Bytes → J
  connect_message m session_id = json.new_object (
      (text "type", str (text "Connect"))
      ∷ (text "sessionId", str session_id)
      ∷ (text "connectionCount", num m.connection_count)
      ∷ (text "lastCloseReason", str m.last_close_reason)
      ∷ (observed m.max_observed_ts ++ (text "clientTs", num 0) ∷ []))

  -- One element of `modifications`.
  unfoldable pub modification : Bool → Subscription J → J
  modification remove s = json.new_object (
      (text "type", str (if remove then text "Remove" else text "Add"))
      ∷ (text "queryId", num s.query_id)
      ∷ (if remove
          then []
          else (text "udfPath", str s.path)
            ∷ (text "args", some (json.new_array (s.args ∷ [])))
            ∷ []))

  -- The loop without `only`: with `remove` every subscription is skipped.
  unfoldable pub modifications : Bool → List (Subscription J) → List (Option J)
  modifications remove [] = []
  modifications remove (s ∷ ss) =
      if not (is_wanted s) || remove
      then modifications remove ss
      else some (modification remove s) ∷ modifications remove ss

  abbrev selected : Manager J → Option (Subscription J) → Bool → List (Option J)
  selected m none remove = modifications remove m.subscriptions
  selected m (some s) remove = some (modification remove s) ∷ []

  -- `base + 1` is computed on `uint32_t`.
  unfoldable pub modify_message : Manager J → Option (Subscription J) → Bool → J
  modify_message m only remove = json.new_object (
      (text "type", str (text "ModifyQuerySet"))
      ∷ (text "baseVersion", num m.query_set_version)
      ∷ (text "newVersion", num (add32 m.query_set_version 1))
      ∷ (text "modifications", some (json.new_array (selected m only remove)))
      ∷ [])
