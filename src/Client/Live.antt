-- ===== src/Client/Live.antt =====
-- `struct convex_subscription` and `struct live_manager` of c/client/convex.c, and the helpers that
-- run under the manager's mutex. Pointers to subscriptions: a node is only ever put in front of the
-- list and none is freed before `convex_free`, so the number of nodes behind it is its address.
pub mod Message
pub mod Numbering
use the_convex_100_language.Common.{
  ℕ, suc, ◌+◌, Bool, true, false, not, ◌&&◌, ◌||◌, Option, none, some, List, [], ◌∷◌, map, length,
  ◌==◌, if◌then◌else◌, Bytes, text, clip, add32,
}
use the_convex_100_language.Client.Queue.{Ring, enqueue}
use the_convex_100_language.Client.Queue.Values.{Error, Update, no_error, or_text, copy_update}

pub record Subscription (J : Type 0) : Type 0 where
  pub query_id : ℕ
  pub path : Bytes
  pub args : Option J
  pub active : Bool
  pub add_pending : Bool
  pub remove_pending : Bool
  pub remove_done : Bool
  pub rehydrating : Bool
  pub has_last_value : Bool
  pub add_sequence : ℕ
  pub last_value : Option J
  pub queue : Ring (Update J)

pub record Manager (J : Type 0) : Type 0 where
  pub subscriptions : List (Subscription J)
  pub next_query_id : ℕ
  pub next_add_sequence : ℕ
  pub query_set_version : ℕ
  pub remote_query_set : ℕ
  pub remote_identity : ℕ
  pub remote_ts : Bytes
  pub max_observed_ts : Bytes
  pub connection_count : ℕ
  pub last_close_reason : Bytes
  pub closing : Bool
  pub stopped : Bool
  pub debug_requested : Bool
  pub connected : Bool
  pub worker_joined : Bool
  pub debug_generation : ℕ
  pub debug_completed : ℕ
  -- whether `socket` is not NULL
  pub socket : Bool

-- LIVE_INITIAL_TS
abbrev pub live_initial_ts : Bytes
live_initial_ts = text "AAAAAAAAAAA="

abbrev pub or_reason : Option Bytes → Bytes
or_reason none = text "TransportError"
or_reason (some r) = r

module _ {J : Type 0} where
  -- The subscription at an address, and a change through a pointer to it.
  unfoldable pub at : ℕ → List (Subscription J) → Option (Subscription J)
  at k [] = none
  at k (s ∷ ss) = if length ss == k then some s else at k ss

  unfoldable pub change :
      ℕ → (Subscription J → Subscription J) → List (Subscription J) → List (Subscription J)
  change k f [] = []
  change k f (s ∷ ss) = if length ss == k then f s ∷ ss else s ∷ change k f ss

  -- `sub->active && !sub->remove_pending`
  abbrev pub is_wanted : Subscription J → Bool
  is_wanted s = s.active && not s.remove_pending

  unfoldable pub enqueue_update : Subscription J → Update J → Subscription J
  enqueue_update s u = record s { queue = enqueue s.queue (copy_update u) }

  -- The count of `active_count_locked`, an `int` that a list in memory does not overflow.
  unfoldable pub active_count : List (Subscription J) → ℕ
  active_count [] = 0
  active_count (s ∷ ss) = if is_wanted s then suc (active_count ss) else active_count ss

  -- `find_subscription_locked`: the address of the first subscription with the id.
  unfoldable pub find_subscription : ℕ → List (Subscription J) → Option ℕ
  find_subscription id [] = none
  find_subscription id (s ∷ ss) =
      if s.query_id == id then some (length ss) else find_subscription id ss

  unfoldable pub error_update : Option Bytes → Option Bytes → Option J → Option J → Update J
  error_update name message detail logs = record {
    value = none;
    logs = logs;
    error = record {
      name = or_text name (text "ProtocolError");
      message = or_text message (text "Live protocol error");
      data_ = detail;
      logs = logs;
    };
  }

  abbrev pub publish_to : Update J → Bool → Subscription J → Subscription J
  publish_to update established_only s =
      if is_wanted s && (not established_only || not s.add_pending)
      then enqueue_update s update
      else s

  unfoldable pub publish_error :
      Manager J → Option Bytes → Option Bytes → Option J → Option J → Bool → Manager J
  publish_error m name message detail logs established_only = record m {
    subscriptions =
        map (publish_to (error_update name message detail logs) established_only) m.subscriptions;
  }

  -- The mark that `disconnect_socket_locked` leaves on each subscription that must be added again.
  abbrev pub rehydrate : Subscription J → Subscription J
  rehydrate s = if is_wanted s then record s { rehydrating = true } else s

  unfoldable pub disconnect_socket : Manager J → Option Bytes → Manager J
  disconnect_socket m reason = record m {
    socket = false;
    connected = false;
    connection_count = add32 m.connection_count 1;
    last_close_reason = clip 256 (or_reason reason);
    query_set_version = 0;
    remote_query_set = 0;
    remote_identity = 0;
    remote_ts = clip 128 live_initial_ts;
    subscriptions = map rehydrate m.subscriptions;
  }
