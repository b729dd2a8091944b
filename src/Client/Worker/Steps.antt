-- ===== src/Client/Worker/Steps.antt =====
-- The invariant at a step of the worker.
use the_convex_100_language.Common.{Bool, arith, Bytes}
use the_convex_100_language.Client.Json.{JsonLib}
use the_convex_100_language.Client.Live.{Manager}
use the_convex_100_language.Client.Receive.{Received, receive_message}
use the_convex_100_language.Client.Receive.Assembly.{receive_message_bounded}
use the_convex_100_language.Client.Worker.{
  World, Place, top, adding, removing, deciding, dialing, greeting, marking, receiving, exiting,
  snapshot, handling, Input, clock, outcome, network,
}
use the_convex_100_language.Client.Worker.Loop.{receive_step, step_at, step}
use the_convex_100_language.Client.Worker.Invariant.{IsManager, IsWorld, PlaceKnows}
use the_convex_100_language.Client.Worker.Connecting.{
  dialed-IsWorld, greeted-IsWorld, snapshot_sent-IsWorld, marked-IsWorld,
}
use the_convex_100_language.Client.Worker.Messages.{SameFlags, receive_message-SameFlags}
use the_convex_100_language.Client.Worker.Sections.{
  IsBase, enter_section-IsWorld, add_sent-IsWorld, remove_sent-IsWorld, decide-IsWorld,
  handle_failure-IsWorld, leave-IsWorld,
}

module _ {J : Type 0} (json : JsonLib J) (describe : Bytes → Bytes) where
  SameFlags-IsManager : (m m' : Manager J) → SameFlags m m' → IsManager m → IsManager m'
  SameFlags-IsManager m m' e v = record {
    listed = e.listed v.listed;
    debug = ground arith;
    connection = ground arith;
    leaves_after_close = ground arith;
  }

  receive_step-IsWorld :
      (w : World J) (r : Received) (alloc ready : Bool) (r' : Received) (alloc' : Bool)
      → IsBase w
      → IsWorld (receive_step json describe w r alloc ready r' alloc')
  unfolding receive_step
  receive_step-IsWorld w r alloc ready r' alloc' v =
      let first = receive_message json describe alloc w.manager w.receive_state r in
      let second = receive_message json describe alloc' first.manager first.state r' in
      let b1 = receive_message_bounded json describe alloc w.manager w.receive_state r v.buffer in
      let b2 = receive_message_bounded json describe alloc' first.manager first.state r' b1 in
      let m1 =
        SameFlags-IsManager w.manager first.manager
          (receive_message-SameFlags json describe alloc w.manager w.receive_state r)
          v.manager_ok in
      let m2 =
        SameFlags-IsManager first.manager second.manager
          (receive_message-SameFlags json describe alloc' first.manager first.state r') m1 in
      ground (arith, b1, b2, m1, m2)

  IsBase-IsWorld : (w : World J) → IsWorld w → IsBase w
  IsBase-IsWorld w v = record {
    manager_ok = v.manager_ok;
    knows = tt;
    backoff_low = v.backoff_low;
    backoff_high = v.backoff_high;
    buffer = v.buffer;
  }

  step_at-IsWorld :
      (p : Place) (i : Input) (w : World J)
      → PlaceKnows p w.manager
      → IsWorld w
      → IsWorld (step_at json describe p i w)
  unfolding step_at
  step_at-IsWorld top (clock now) w k v = enter_section-IsWorld w now (IsBase-IsWorld w v)
  step_at-IsWorld (adding a) (outcome o now) w k v = add_sent-IsWorld w a o now (IsBase-IsWorld w v)
  step_at-IsWorld (removing a) (outcome o now) w k v =
      remove_sent-IsWorld w a o now (IsBase-IsWorld w v)
  step_at-IsWorld (deciding active) (clock now) w k v =
      decide-IsWorld w active now (IsBase-IsWorld w v)
  step_at-IsWorld dialing (outcome o now) w k v = dialed-IsWorld w o now k v
  step_at-IsWorld greeting (outcome o now) w k v = greeted-IsWorld w o now k v
  step_at-IsWorld (snapshot seq) (outcome o now) w k v = snapshot_sent-IsWorld w seq o now k v
  step_at-IsWorld marking (clock now) w k v = marked-IsWorld w k v
  step_at-IsWorld receiving (network r alloc ready r' alloc') w k v =
      receive_step-IsWorld w r alloc ready r' alloc' (IsBase-IsWorld w v)
  step_at-IsWorld (handling code) (clock now) w k v =
      handle_failure-IsWorld w code now (IsBase-IsWorld w v)
  step_at-IsWorld exiting (clock now) w k v = leave-IsWorld w k (IsBase-IsWorld w v)
  step_at-IsWorld _ _ w k v = v

  -- Every step of the worker keeps what holds of it, whatever the network and the clock do.
  pub step-IsWorld : (w : World J) (i : Input) → IsWorld w → IsWorld (step json describe w i)
  unfolding step
  step-IsWorld w i v = step_at-IsWorld w.place i w v.knows v
