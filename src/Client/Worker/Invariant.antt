-- ===== src/Client/Worker/Invariant.antt =====
-- What holds of the worker and its manager between any two critical sections.
use the_convex_100_language.Common.{ℕ, ◌%◌, ◌^◌, ◌≤◌, ◌≡◌, ◌⊎◌, true, false, List, length, All}
use the_convex_100_language.Client.Queue.Refine.{IsRing}
use the_convex_100_language.Client.Live.{Subscription, Manager}
use the_convex_100_language.Client.Live.Numbering.{Numbered}
use the_convex_100_language.Client.Receive.{live_max_message}
use the_convex_100_language.Client.Worker.{
  World, Place, adding, dialing, greeting, marking, receiving, exiting, snapshot,
}

module _ {J : Type 0} where
  -- A subscription whose removal is done is not active, and its queue is a ring.
  pub record IsSound (s : Subscription J) : Type 0 where
    pub ring : IsRing s.queue
    pub done_inactive : s.remove_done ≡ true → s.active ≡ false

  -- The list and the two counters that number it.
  pub record IsList (ss : List (Subscription J)) (id seq : ℕ) : Type 0 where
    pub sound : All IsSound ss
    pub numbered : Numbered ss
    pub next_id : id ≡ length ss % 2 ^ 32
    pub next_seq : seq ≡ length ss % 2 ^ 64

  pub record IsManager (m : Manager J) : Type 0 where
    pub listed : IsList m.subscriptions m.next_query_id m.next_add_sequence
    -- a debug disconnection that was asked for is either still requested or completed
    pub debug : m.debug_requested ≡ false → m.debug_completed ≡ m.debug_generation
    -- only a worker that leaves closes the socket and stays marked as connected
    pub connection : m.connected ≡ true → (m.socket ≡ true) ⊎ (m.closing ≡ true)
    pub leaves_after_close : m.stopped ≡ true → m.closing ≡ true

  abbrev pub Unconnected : Manager J → Type 0
  Unconnected m = (m.connected ≡ false) ⊎ (m.closing ≡ true)

  -- What the worker knows where it is.
  abbrev pub PlaceKnows : Place → Manager J → Type 0
  PlaceKnows (adding k) m = m.socket ≡ true
  PlaceKnows dialing m = Unconnected m
  PlaceKnows greeting m = (m.socket ≡ true) × Unconnected m
  PlaceKnows (snapshot seq) m = (m.socket ≡ true) × Unconnected m
  PlaceKnows marking m = m.socket ≡ true
  PlaceKnows receiving m = m.socket ≡ true
  PlaceKnows exiting m = m.closing ≡ true
  PlaceKnows _ m = Unit

  pub record IsWorld (w : World J) : Type 0 where
    pub manager_ok : IsManager w.manager
    pub knows : PlaceKnows w.place w.manager
    pub backoff_low : 100 ≤ w.backoff
    pub backoff_high : w.backoff ≤ 15000
    pub buffer : length w.receive_state.message ≤ live_max_message
