-- ===== src/Client/Receive/Assembly.antt =====
-- The assembly of a message from chunks.
use the_convex_100_language.Common.{
  ◌+◌, ◌≤◌, ◌≡◌, ◌≢◌, Bool, true, false, not, ◌||◌, none, some, List, [], ◌∷◌, ◌++◌, append-nil,
  append_assoc, length, length-append, All, Bytes, arith, Option-cases, inl, inr, if◌then◌else◌,
  ◌==◌, ◌⊎◌,
}
use the_convex_100_language.Client.Json.{JsonLib}
use the_convex_100_language.Client.Live.{Manager}
use the_convex_100_language.Client.Receive.{
  FrameMeta, Received, again, broken, chunk, ReceiveState, no_data, Outcome, empty_state,
  live_max_message, dispatch, finish, take_chunk, receive_message,
}

module _ {J : Type 0} (json : JsonLib J) (describe : Bytes → Bytes) where
  dispatch_state :
      (m : Manager J) (st : ReceiveState) (message : J) → (dispatch json m st message).state ≡ st
  unfolding dispatch
  dispatch_state m st message = ground arith

  finish_state :
      (m : Manager J) (st : ReceiveState) → (finish json describe m st).state ≡ empty_state
  unfolding finish
  finish_state m st = elim (Option-cases (json.parse st.message)) [
    | inl e ↦ ground arith
    | inr (message, e) ↦ ground (arith, dispatch_state m empty_state message)
  ]

  -- The buffer never holds more than LIVE_MAX_MESSAGE bytes, whatever the server sends.
  pub receive_message_bounded :
      (alloc : Bool) (m : Manager J) (st : ReceiveState) (r : Received)
      → length st.message ≤ live_max_message
      → length (receive_message json describe alloc m st r).state.message ≤ live_max_message
  unfolding receive_message take_chunk
  receive_message_bounded alloc m st again h = h
  receive_message_bounded alloc m st (broken what) h = h
  receive_message_bounded alloc m st (chunk none bytes) h = h
  receive_message_bounded alloc m st (chunk (some meta) bytes) h = ground (
    arith,
    length-append st.message bytes,
    finish_state m (record st { message = st.message ++ bytes }),
  )

  -- What the worker's repeated calls do with a run of results, up to the first that is not 0.
  abbrev carry_on : Outcome J → Outcome J → Outcome J
  carry_on o rest = elim o.code [ no_data ↦ rest | _ ↦ o ]

  pub receive_all : Manager J → ReceiveState → List Received → Outcome J
  receive_all m st [] = record { manager = m; state = st; code = no_data; reason = none }
  receive_all m st (r ∷ rs) =
      let o = receive_message json describe true m st r in
      let rest = receive_all o.manager o.state rs in carry_on o rest

  -- Results that do not end a message: nothing to read, a control frame, or a piece of a text frame
  -- or of a fragmented message. The bytes that they contribute:
  abbrev pub IsPartial : Received → Type 0
  IsPartial again = Unit
  IsPartial (broken _) = ⊥
  IsPartial (chunk none _) = ⊥
  IsPartial (chunk (some meta) bytes) =
      (meta.is_close ≡ false)
      × (((meta.is_ping || meta.is_pong) ≡ true)
          ⊎ ((meta.is_text ≡ true) × ((not (meta.bytesleft == 0) || meta.is_cont) ≡ true)))

  abbrev pub payload : Received → Bytes
  payload again = []
  payload (broken _) = []
  payload (chunk none _) = []
  payload (chunk (some meta) bytes) = if meta.is_ping || meta.is_pong then [] else bytes

  abbrev pub payloads : List Received → Bytes
  payloads [] = []
  payloads (r ∷ rs) = payload r ++ payloads rs

  receive_partial :
      (m : Manager J) (st : ReceiveState) (r : Received)
      → IsPartial r
      → length st.message + length (payload r) ≤ live_max_message
      → let o = receive_message json describe true m st r in
        (o.code ≡ no_data) × (o.manager ≡ m) × (o.state.message ≡ st.message ++ payload r)
  unfolding receive_message take_chunk
  receive_partial m st again p h = ground (arith, append-nil st.message)
  receive_partial m st (broken what) p h = absurd p
  receive_partial m st (chunk none bytes) p h = absurd p
  receive_partial m st (chunk (some meta) bytes) p h = ground (arith, append-nil st.message)

  -- The last piece of a message.
  abbrev pub IsLast : FrameMeta → Type 0
  IsLast meta =
      (meta.is_close ≡ false)
      × ((meta.is_ping || meta.is_pong) ≡ false)
      × (meta.is_text ≡ true)
      × (meta.bytesleft ≡ 0)
      × (meta.is_cont ≡ false)

  receive_last :
      (m : Manager J) (st : ReceiveState) (meta : FrameMeta) (bytes : Bytes)
      → IsLast meta
      → length st.message + length bytes ≤ live_max_message
      → receive_message json describe true m st (chunk (some meta) bytes)
        ≡ finish json describe m (record { message = st.message ++ bytes; fragmented = false })
  unfolding receive_message take_chunk finish
  receive_last m st meta bytes p h = ground arith

  finish-code : (m : Manager J) (st : ReceiveState) → (finish json describe m st).code ≢ no_data
  unfolding finish dispatch
  finish-code m st = ground arith

  -- A message that arrives in any number of pieces, with control frames between them, is handled as
  -- the concatenation of its pieces, if that is at most LIVE_MAX_MESSAGE bytes and there is memory.
  pub receive_all_reassembles :
      (rs : List Received) (m : Manager J) (st : ReceiveState) (meta : FrameMeta) (bytes : Bytes)
      → All IsPartial rs
      → IsLast meta
      → length st.message + (length (payloads rs) + length bytes) ≤ live_max_message
      → receive_all m st (rs ++ chunk (some meta) bytes ∷ [])
        ≡ finish json describe m
            (record { message = st.message ++ (payloads rs ++ bytes); fragmented = false })
  unfolding receive_all
  receive_all_reassembles [] m st meta bytes ps last h =
      let o = receive_last m st meta bytes last (omega arith) in
      ground
        (arith, o, finish-code m (record { message = st.message ++ bytes; fragmented = false }))
  receive_all_reassembles (r ∷ rs) m st meta bytes ps last h =
      let o = receive_message json describe true m st r in
      let (code, same', joined) =
        receive_partial m st r ps.0 (omega (arith, length-append (payload r) (payloads rs))) in
      ground (
        arith,
        code,
        same',
        joined,
        receive_all_reassembles rs o.manager o.state meta bytes ps.1 last (
            rw joined (
              omega (
                arith,
                length-append (payload r) (payloads rs),
                length-append st.message (payload r),
              ))),
        append_assoc st.message (payload r) (payloads rs ++ bytes),
        append_assoc (payload r) (payloads rs) bytes,
      )
