-- ===== src/Client/Worker/Messages.antt =====
-- What the server's messages change of the manager.
use the_convex_100_language.Common.{
  ℕ, ◌≡◌, Option-cases, Bool-cases, same, ◌++◌, ◌⊎◌, inl, inr, refl, sym, subst, text, Bool, Option,
  some, none, List, [], ◌∷◌, arith, Bytes,
}
use the_convex_100_language.Client.Json.{JsonLib, member, found, string_of}
use the_convex_100_language.Client.Queue.Values.{copy_update, no_error}
use the_convex_100_language.Client.Queue.Refine.{enqueue-IsRing}
use the_convex_100_language.Client.Live.{Subscription, Manager, enqueue_update}
use the_convex_100_language.Client.Transition.{
  Transition, read_transition, validate_all, is_current, apply_updated, apply_failed, apply_to,
  apply_modification, apply_all, handle_transition, commit,
}
use the_convex_100_language.Client.Transition.Delivery.{
  apply_to_numbers, apply_cases, apply_found, change_by,
}
use the_convex_100_language.Client.Worker.Invariant.{IsSound, IsList}
use the_convex_100_language.Client.Worker.Preserve.{Keeps, Listed, IsList-change}
use the_convex_100_language.Client.Receive.{
  Received, again, broken, chunk, ReceiveState, receive_message, take_chunk, finish, dispatch,
  empty_state, after_transition,
}

-- A change of the manager that leaves its flags as they were, and keeps its list.
pub record SameFlags {J : Type 0} (m m' : Manager J) : Type 0 where
  pub listed : Listed m → Listed m'
  pub closing_is : m'.closing ≡ m.closing
  pub stopped_is : m'.stopped ≡ m.stopped
  pub requested_is : m'.debug_requested ≡ m.debug_requested
  pub connected_is : m'.connected ≡ m.connected
  pub socket_is : m'.socket ≡ m.socket
  pub generation_is : m'.debug_generation ≡ m.debug_generation
  pub completed_is : m'.debug_completed ≡ m.debug_completed

SameFlags-refl : {J : Type 0} (m : Manager J) → SameFlags m m
SameFlags-refl m = record {
  listed = λ l. l;
  closing_is = refl;
  stopped_is = refl;
  requested_is = refl;
  connected_is = refl;
  socket_is = refl;
  generation_is = refl;
  completed_is = refl;
}

module _ {J : Type 0} (json : JsonLib J) where
  apply_updated-IsSound :
      (s : Subscription J) (value logs : Option J)
      → IsSound s
      → IsSound (apply_updated json s value logs).0
  unfolding apply_updated enqueue_update
  apply_updated-IsSound s value logs h = ground (
    arith,
    enqueue-IsRing (copy_update (record { value = value; logs = logs; error = no_error })) h.ring,
  )

  apply_failed-IsSound :
      (s : Subscription J) (mod' logs : Option J)
      → IsSound s
      → IsSound (apply_failed json s mod' logs)
  unfolding apply_failed enqueue_update
  apply_failed-IsSound s mod' logs h = record {
    ring = enqueue-IsRing _ h.ring;
    done_inactive = h.done_inactive;
  }

  apply_to-IsSound :
      (mod' : Option J) (s : Subscription J) → IsSound s → IsSound (apply_to json s mod').0
  unfolding apply_to
  apply_to-IsSound mod' s h =
      let logs = found (member json mod' (text "logLines")) in
      ground (
        arith,
        apply_updated-IsSound s (found (member json mod' (text "value"))) logs h,
        apply_failed-IsSound s mod' logs h,
      )

  apply_to-Keeps : (mod' : Option J) → Keeps (change_by json mod')
  apply_to-Keeps mod' = record {
    sound = apply_to-IsSound mod';
    numbers = apply_to_numbers json mod';
  }

  apply_modification-IsList :
      (mod' : Option J) (ss : List (Subscription J)) (id seq : ℕ)
      → IsList ss id seq
      → IsList (apply_modification json mod' ss) id seq
  apply_modification-IsList mod' ss id seq l = elim (apply_cases json mod' ss) [
    | inl (e, _) ↦ subst (λ us. IsList us id seq) (sym e) l
    | inr (i, k, e, e') ↦
        subst (λ us. IsList us id seq) (sym (apply_found json mod' ss i k e e'))
          (IsList-change k _ ss id seq (apply_to-Keeps mod') l)
  ]

  pub apply_all-IsList :
      (mods : List (Option J)) (ss : List (Subscription J)) (id seq : ℕ)
      → IsList ss id seq
      → IsList (apply_all json mods ss) id seq
  unfolding apply_all
  apply_all-IsList [] ss id seq l = l
  apply_all-IsList (mod' ∷ mods) ss id seq l =
      apply_all-IsList mods (apply_modification json mod' ss) id seq
        (apply_modification-IsList mod' ss id seq l)

  commit-SameFlags : (m : Manager J) (t : Transition json) → SameFlags m (commit json m t)
  unfolding commit
  commit-SameFlags m t = record {
    listed = λ l. apply_all-IsList t.mods m.subscriptions _ _ l;
    closing_is = refl;
    stopped_is = refl;
    requested_is = refl;
    connected_is = refl;
    socket_is = refl;
    generation_is = refl;
    completed_is = refl;
  }

  handle_transition_cases :
      (m : Manager J) (message : Option J)
      → ((handle_transition json m message).0 ≡ m)
        ⊎ ((t : Transition json) × ((handle_transition json m message).0 ≡ commit json m t))
  unfolding handle_transition
  handle_transition_cases m message = elim (Option-cases (read_transition json message)) [
    | inl e ↦ inl (ground arith)
    | inr (t, e) ↦ elim (Bool-cases (is_current json m t.start)) [
      | inl current ↦ elim (Option-cases (validate_all json t.mods)) [
        | inl valid ↦ inr (t, ground arith)
        | inr (reason, invalid) ↦ inl (ground arith)
      ]
      | inr stale ↦ inl (ground arith)
    ]
  ]

  pub handle_transition-SameFlags :
      (m : Manager J) (message : Option J) → SameFlags m (handle_transition json m message).0
  handle_transition-SameFlags m message = elim (handle_transition_cases m message) [
    | inl e ↦ subst (SameFlags m) (sym e) (SameFlags-refl m)
    | inr (t, e) ↦ subst (SameFlags m) (sym e) (commit-SameFlags m t)
  ]

  after_transition_manager :
      (st : ReceiveState) (r : Manager J × Option Bytes)
      → (after_transition json st r).manager ≡ r.0
  after_transition_manager st (m, none) = refl
  after_transition_manager st (m, some reason) = refl

  -- What `receive_message` does to the manager is nothing, or a Transition.
  abbrev Handles : Manager J → Manager J → Type 0
  Handles m m' = (m' ≡ m) ⊎ ((message : J) × (m' ≡ (handle_transition json m (some message)).0))

  dispatch_manager :
      (m : Manager J) (st : ReceiveState) (message : J)
      → Handles m (dispatch json m st message).manager
  unfolding dispatch
  dispatch_manager m st message =
      elim (Option-cases (string_of json (found (member json (some message) (text "type"))))) [
        | inl e ↦ inl (ground arith)
        | inr (type, e) ↦ elim (Bool-cases (same type (text "Transition"))) [
          | inl is ↦ inr (
            message,
            ground (arith, after_transition_manager st (handle_transition json m (some message))),
          )
          | inr other ↦ inl (ground arith)
        ]
      ]

  finish_manager :
      (describe : Bytes → Bytes) (m : Manager J) (st : ReceiveState)
      → Handles m (finish json describe m st).manager
  unfolding finish
  finish_manager describe m st = elim (Option-cases (json.parse st.message)) [
    | inl e ↦ inl (ground arith)
    | inr (message, e) ↦ subst (Handles m) (ground arith) (dispatch_manager m empty_state message)
  ]

  receive_message_manager :
      (describe : Bytes → Bytes) (alloc : Bool) (m : Manager J) (st : ReceiveState) (r : Received)
      → Handles m (receive_message json describe alloc m st r).manager
  unfolding receive_message take_chunk
  receive_message_manager describe alloc m st again = inl refl
  receive_message_manager describe alloc m st (broken what) = inl refl
  receive_message_manager describe alloc m st (chunk none bytes) = inl refl
  receive_message_manager describe alloc m st (chunk (some meta) bytes) =
      ground (arith, finish_manager describe m (record st { message = st.message ++ bytes }))

  pub receive_message-SameFlags :
      (describe : Bytes → Bytes) (alloc : Bool) (m : Manager J) (st : ReceiveState) (r : Received)
      → SameFlags m (receive_message json describe alloc m st r).manager
  receive_message-SameFlags describe alloc m st r =
      elim (receive_message_manager describe alloc m st r) [
        | inl e ↦ subst (SameFlags m) (sym e) (SameFlags-refl m)
        | inr (message, e) ↦
            subst (SameFlags m) (sym e) (handle_transition-SameFlags m (some message))
      ]
