-- ===== src/Client/Worker/Scan.antt =====
-- The searches and sweeps of the worker over the subscriptions.
use the_convex_100_language.Common.{
  ℕ, Bool, true, false, not, ◌&&◌, Option, none, some, List, [], ◌∷◌, map, length, leb,
  if◌then◌else◌,
}
use the_convex_100_language.Client.Live.{Subscription}

module _ {J : Type 0} where
  -- `sub->active && sub->add_pending && !sub->remove_pending`
  abbrev pub wants_add : Subscription J → Bool
  wants_add s = s.active && (s.add_pending && not s.remove_pending)

  -- `sub->remove_pending && !sub->remove_done`
  abbrev pub wants_removal : Subscription J → Bool
  wants_removal s = s.remove_pending && not s.remove_done

  -- The first subscription that must be added, and the first that must be removed.
  unfoldable pub first_add : List (Subscription J) → Option ℕ
  first_add [] = none
  first_add (s ∷ ss) = if wants_add s then some (length ss) else first_add ss

  unfoldable pub first_removal : List (Subscription J) → Option ℕ
  first_removal [] = none
  first_removal (s ∷ ss) = if wants_removal s then some (length ss) else first_removal ss

  abbrev pub added : Subscription J → Subscription J
  added s = record s { add_pending = false }

  abbrev pub removed : Subscription J → Subscription J
  removed s = record s { active = false; remove_done = true }

  -- With no socket every removal that waits is done.
  abbrev pub sweep_one : Subscription J → Subscription J
  sweep_one s = if wants_removal s then removed s else s

  unfoldable pub sweep : List (Subscription J) → List (Subscription J)
  sweep ss = map sweep_one ss

  -- `if (sub->add_sequence <= snapshot_sequence) sub->add_pending = 0`
  abbrev pub settle_one : ℕ → Subscription J → Subscription J
  settle_one seq s = if leb s.add_sequence seq then added s else s

  unfoldable pub settle : ℕ → List (Subscription J) → List (Subscription J)
  settle seq ss = map (settle_one seq) ss

  abbrev pub deactivate : Subscription J → Subscription J
  deactivate s = record s { active = false }
