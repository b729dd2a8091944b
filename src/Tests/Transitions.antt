-- ===== src/Tests/Transitions.antt =====
-- Transitions from the server.
use the_convex_100_language.Common.{
  ℕ, ◌≡◌, ◌↔◌, refl, arith, Bool, true, false, ◌&&◌, some, none, [], ◌∷◌, Bytes, text, pos,
  replicate, same, clip, if◌then◌else◌,
}
use the_convex_100_language.Client.Queue.Refine.{IsRing, contents}
use the_convex_100_language.Client.Live.{Subscription, Manager, at, rehydrate}
use the_convex_100_language.Client.Live.Numbering.{Numbered}
use the_convex_100_language.Client.Transition.{
  Transition, read_transition, handle_transition, is_current, apply_all, apply_updated, same_value,
  typed_field, state_version, as_uint32, validate_modification, modification_query_id,
}
use the_convex_100_language.Client.Transition.Atomic.{
  Acceptable, AllValid, handle_transition_atomic, handle_transition_version,
}
use the_convex_100_language.Client.Transition.Delivery.{
  own, delivered, at-apply_all, rehydrate_delivers,
}
use the_convex_100_language.Tests.Toy.{Toy, word, number, object, array, toy}

abbrev query : Bool → Subscription Toy
query removing = record {
  query_id = 0;
  path = text "messages:list";
  args = some (object []);
  active = true;
  add_pending = false;
  remove_pending = removing;
  remove_done = false;
  rehydrating = false;
  has_last_value = true;
  add_sequence = 1;
  last_value = some (word (text "a"));
  queue = record { queue = replicate 16 none; queue_start = 0; queue_count = 0 };
}

abbrev manager : Manager Toy
manager = record {
  subscriptions = query false ∷ [];
  next_query_id = 1;
  next_add_sequence = 1;
  query_set_version = 1;
  remote_query_set = 0;
  remote_identity = 0;
  remote_ts = text "AAAAAAAAAAA=";
  max_observed_ts = [];
  connection_count = 0;
  last_close_reason = [];
  closing = false;
  stopped = false;
  debug_requested = false;
  connected = true;
  worker_joined = false;
  debug_generation = 0;
  debug_completed = 0;
  socket = true;
}

abbrev version : ℕ → Bytes → Toy
version q ts = object (
    (text "querySet", some (number (pos q)))
    ∷ (text "identity", some (number (pos 0)))
    ∷ (text "ts", some (word ts))
    ∷ [])

abbrev updated : Toy
updated = object (
    (text "type", some (word (text "QueryUpdated")))
    ∷ (text "queryId", some (number (pos 0)))
    ∷ (text "value", some (word (text "b")))
    ∷ [])

abbrev transition : Toy
transition = object (
    (text "type", some (word (text "Transition")))
    ∷ (text "startVersion", some (version 0 (text "AAAAAAAAAAA=")))
    ∷ (text "endVersion", some (version 1 (text "AQAAAAAAAAA=")))
    ∷ (text "modifications", some (array (some updated ∷ [])))
    ∷ [])

abbrev parts : Transition toy
parts = record {
  start = record { query_set = 0; identity = 0; timestamp = text "AAAAAAAAAAA=" };
  finish = record { query_set = 1; identity = 0; timestamp = text "AQAAAAAAAAA=" };
  mods = some updated ∷ [];
}

transition_reads : read_transition toy (some transition) ≡ some parts
unfolding read_transition typed_field state_version as_uint32 same text
transition_reads = refl

updated-AllValid : AllValid toy (some updated ∷ [])
unfolding validate_modification modification_query_id typed_field as_uint32 same text
updated-AllValid = (refl, tt)

transition-Acceptable : Acceptable toy manager (some transition) parts
transition-Acceptable = record {
  reads = transition_reads;
  query_set_is = refl;
  identity_is = refl;
  timestamp_is = refl;
  valid = updated-AllValid;
}

empty_refused :
    (handle_transition toy manager none).1
    ≡ some (clip 256 (text "Transition omitted required version fields"))
unfolding handle_transition read_transition typed_field state_version
empty_refused = refl

handle_transition_atomic_example : (handle_transition toy manager none).0 ≡ manager
handle_transition_atomic_example =
    handle_transition_atomic toy manager none
      (clip 256 (text "Transition omitted required version fields")) empty_refused

handle_transition_version_example :
    (is_current toy (handle_transition toy manager (some transition)).0 parts.finish ≡ true)
    ↔ (parts.finish ≡ parts.finish)
handle_transition_version_example =
    handle_transition_version toy manager (some transition) parts parts.finish transition-Acceptable

manager-Numbered : Numbered manager.subscriptions
manager-Numbered = ground arith

found_first : at 0 manager.subscriptions ≡ some (query false)
unfolding at
found_first = refl

at-apply_all_example :
    at 0 (apply_all toy (some updated ∷ []) manager.subscriptions)
    ≡ some (own toy (query false) (some updated ∷ []))
at-apply_all_example =
    at-apply_all toy (some updated ∷ []) 0 manager.subscriptions (query false) manager-Numbered
      (omega arith) found_first

query-IsRing : IsRing (query false).queue
query-IsRing = record { slots = refl; start_in = omega arith; count_in = omega arith }

rehydrate_delivers_example :
    let t = (apply_updated toy (rehydrate (query false)) (some (word (text "a"))) none).0 in
    (contents t.queue ≡ (
      if (query false).has_last_value
        && same_value toy (query false).last_value (some (word (text "a")))
      then contents (query false).queue
      else delivered toy (query false) (some (word (text "a"))) none))
    × (contents (apply_updated toy t (some (word (text "b"))) none).0.queue
        ≡ delivered toy t (some (word (text "b"))) none)
rehydrate_delivers_example =
    rehydrate_delivers toy (query false) (some (word (text "a"))) (some (word (text "b"))) none none
      query-IsRing refl
