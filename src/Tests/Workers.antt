-- ===== src/Tests/Workers.antt =====
-- The worker and the public calls.
use the_convex_100_language.Common.{
  ◌≡◌, inl, refl, arith, Bool, true, false, some, none, List, [], ◌∷◌, ◌++◌, length, text, All,
  replicate, set, ltb, if◌then◌else◌,
}
use the_convex_100_language.Client.Queue.{Ring}
use the_convex_100_language.Client.Queue.Values.{Update, no_error}
use the_convex_100_language.Client.Queue.Refine.{IsRing}
use the_convex_100_language.Client.Live.{Subscription, Manager, at, change, active_count}
use the_convex_100_language.Client.Receive.{empty_state}
use the_convex_100_language.Client.Worker.{World, removing, top, snapshot}
use the_convex_100_language.Client.Worker.Invariant.{IsWorld, IsSound}
use the_convex_100_language.Client.Worker.Connect.{greeted, snapshot_sent}
use the_convex_100_language.Client.Worker.Scan.{first_removal, added}
use the_convex_100_language.Client.Worker.Loop.{enter_section, add_sent}
use the_convex_100_language.Client.Worker.Snapshot.{snapshot_exact}
use the_convex_100_language.Client.Worker.Removal.{
  IsSettled, enter_section-IsSettled, add_failed_removes_without_socket,
}
use the_convex_100_language.Client.Api.{new_live, insert, request_removal, new_subscription}
use the_convex_100_language.Client.Api.System.{Event, act, run, subscribes, unsubscribes, closes}
use the_convex_100_language.Client.Api.Order.{run-IsWorld}
use the_convex_100_language.Tests.Toy.{Toy, object, word, toy, describe}

abbrev events : List (Event Toy)
events = subscribes (text "messages:list") (object []) ∷ unsubscribes 0 ∷ []

run-IsWorld_example : IsWorld (run toy describe new_live (events ++ closes ∷ []))
run-IsWorld_example = run-IsWorld toy describe (events ++ closes ∷ [])

abbrev sub : Bool → Ring (Update Toy) → Subscription Toy
sub goes q = record {
  query_id = 0;
  path = text "messages:list";
  args = some (object []);
  active = true;
  add_pending = true;
  remove_pending = goes;
  remove_done = false;
  rehydrating = false;
  has_last_value = false;
  add_sequence = 1;
  last_value = none;
  queue = q;
}

abbrev manager : List (Subscription Toy) → Bool → Manager Toy
manager ss ends = record {
  subscriptions = ss;
  next_query_id = 1;
  next_add_sequence = 1;
  query_set_version = 1;
  remote_query_set = 0;
  remote_identity = 0;
  remote_ts = text "AAAAAAAAAAA=";
  max_observed_ts = [];
  connection_count = 0;
  last_close_reason = [];
  closing = ends;
  stopped = ends;
  debug_requested = false;
  connected = true;
  worker_joined = false;
  debug_generation = 0;
  debug_completed = 0;
  socket = true;
}

abbrev world : Manager Toy → World Toy
world m = record {
  manager = m;
  place = top;
  reconnect_at = 0;
  backoff = 100;
  receive_state = empty_state;
  reason = [];
}

abbrev nothing_waits : Ring (Update Toy)
nothing_waits = record { queue = replicate 16 none; queue_start = 0; queue_count = 0 }

abbrev first_update : Update Toy
first_update = record { value = some (word (text "a")); logs = none; error = no_error }

abbrev one_waits : Ring (Update Toy)
one_waits = record {
  queue = set (replicate 16 none) 3 (some first_update);
  queue_start = 3;
  queue_count = 1;
}

one_waits-IsRing : IsRing one_waits
one_waits-IsRing = record { slots = refl; start_in = omega arith; count_in = omega arith }

-- A subscription that is being removed behind one that is to be added.
abbrev add_and_remove : List (Subscription Toy)
add_and_remove = sub false nothing_waits ∷ sub true one_waits ∷ []

removal_waits : first_removal add_and_remove ≡ some 0
unfolding first_removal
removal_waits = refl

add_failed_removes_without_socket_example :
    let w' = add_sent (world (manager add_and_remove false)) 1 (some (text "broken")) 5 in
    (w'.place ≡ removing 0) × (w'.manager.socket ≡ false)
add_failed_removes_without_socket_example =
    add_failed_removes_without_socket (world (manager add_and_remove false)) 1 0 5 (text "broken")
      removal_waits

last_waits : at 0 add_and_remove ≡ some (sub true one_waits)
unfolding at
last_waits = refl

one-IsSound : All IsSound (sub true one_waits ∷ [])
one-IsSound = (record { ring = one_waits-IsRing; done_inactive = λ e. ground arith }, tt)

events_lem :
    ((run toy describe new_live events).manager.socket ≡ false)
    × ((run toy describe new_live events).manager.closing ≡ false)
    × (length (run toy describe new_live events).manager.subscriptions ≡ 1)
unfolding run act new_live insert new_subscription request_removal at change
events_lem = (refl, refl, refl)

enter_section-IsSettled_example :
    All IsSettled (enter_section (run toy describe new_live events) 9).manager.subscriptions
enter_section-IsSettled_example =
    enter_section-IsSettled (run toy describe new_live events) 9 (run-IsWorld toy describe events)
      events_lem.1 (inl events_lem.0)

found_first :
    (s : Subscription Toy) × (at 0 (run toy describe new_live events).manager.subscriptions
      ≡ some s)
unfolding run act new_live insert new_subscription request_removal at change
found_first = (_, refl)

-- One subscription when the snapshot is taken, two when it is delivered.
abbrev one_made : List (Event Toy)
one_made = subscribes (text "messages:list") (object []) ∷ []

abbrev two_made : List (Event Toy)
two_made = one_made ++ one_made

made_lem :
    (length (run toy describe new_live one_made).manager.subscriptions ≡ 1)
    × (length (run toy describe new_live two_made).manager.subscriptions ≡ 2)
    × ((greeted (run toy describe new_live one_made) none 3).place ≡ snapshot 1)
unfolding run act new_live insert new_subscription greeted active_count
made_lem = (refl, refl, refl)

second_made :
    (s : Subscription Toy) × (at 1 (run toy describe new_live two_made).manager.subscriptions
      ≡ some s)
unfolding run act new_live insert new_subscription at
second_made = (_, refl)

snapshot_exact_example :
    at 1 (snapshot_sent (run toy describe new_live two_made) 1 none 4).manager.subscriptions
    ≡ some (
        if ltb 1 (length (run toy describe new_live one_made).manager.subscriptions)
        then added second_made.0
        else second_made.0)
snapshot_exact_example =
    snapshot_exact (run toy describe new_live one_made) (run toy describe new_live two_made) 1 1 3 4
      second_made.0 (run-IsWorld toy describe one_made) (run-IsWorld toy describe two_made)
      (omega (arith, made_lem)) (omega (arith, made_lem)) made_lem.2 second_made.1
