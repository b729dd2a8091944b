-- ===== src/Client/Receive.antt =====
-- `receive_message` of c/client/convex.c: one call of `curl_ws_recv`, the assembly of fragments, and
-- the dispatch of a whole message. libcurl is not part of the repository: what it returns is the
-- argument `Received`.
pub mod Assembly
use the_convex_100_language.Common.{
  ℕ, ◌+◌, ◌-◌, Bool, true, false, not, ◌&&◌, ◌||◌, Option, none, some, List, [], ◌∷◌, ◌++◌, length,
  ltb, ◌==◌, if◌then◌else◌, Bytes, text, same, clip,
}
use the_convex_100_language.Client.Json.{JsonLib, member, string_of, found}
use the_convex_100_language.Client.Live.{Manager}
use the_convex_100_language.Client.Transition.{handle_transition, or_empty}

abbrev pub live_max_message : ℕ
live_max_message = 2097152

-- The flags and the `bytesleft` of `struct curl_ws_frame`.
pub record FrameMeta : Type 0 where
  pub is_close : Bool
  pub is_ping : Bool
  pub is_pong : Bool
  pub is_text : Bool
  pub is_cont : Bool
  pub bytesleft : ℕ

-- What `curl_ws_recv` gives: CURLE_AGAIN, another error with its text, or a chunk of a frame, whose
-- metadata may be NULL.
pub data Received : Type 0 where
  again : Received
  broken : Bytes → Received
  chunk : Option FrameMeta → Bytes → Received

-- `struct ws_receive_state`, the pending bytes in place of pointer and length.
pub record ReceiveState : Type 0 where
  pub message : Bytes
  pub fragmented : Bool

abbrev pub empty_state : ReceiveState
empty_state = record { message = []; fragmented = false }

-- The results 1, 0, -1 and -2.
pub data Code : Type 0 where
  complete no_data transport protocol : Code

pub record Outcome (J : Type 0) : Type 0 where
  pub manager : Manager J
  pub state : ReceiveState
  pub code : Code
  -- what was written to `reason`, if anything was
  pub reason : Option Bytes

module _ {J : Type 0} (json : JsonLib J) where
  abbrev pub stop : Manager J → ReceiveState → Code → Bytes → Outcome J
  stop m st code reason = record {
    manager = m;
    state = st;
    code = code;
    reason = some (clip 256 reason);
  }

  abbrev pub quiet : Manager J → ReceiveState → Code → Outcome J
  quiet m st code = record { manager = m; state = st; code = code; reason = none }

  abbrev with_error : Option J → Bytes
  with_error none = []
  with_error (some e) = text ": " ++ json.get_string e

  abbrev pub after_transition : ReceiveState → Manager J × Option Bytes → Outcome J
  after_transition st (m, none) = quiet m st complete
  after_transition st (m, some reason) = record {
    manager = m;
    state = st;
    code = protocol;
    reason = some reason;
  }

  -- The end of `receive_message`, for a message that parsed.
  unfoldable pub dispatch : Manager J → ReceiveState → J → Outcome J
  dispatch m st message = elim (string_of json (found (member json (some message) (text "type")))) [
    | none ↦ stop m st protocol (text "server message omitted type")
    | some type ↦
        if same type (text "Transition")
        then after_transition st (handle_transition json m (some message))
        else if same type (text "Ping")
            || same type (text "MutationResponse")
            || same type (text "ActionResponse")
        then quiet m st complete
        else stop m st protocol
            (type ++ with_error (found (member json (some message) (text "error"))))
  ]

  -- The message is whole: it is parsed, and the buffer emptied either way. `describe` stands for
  -- `json_tokener_error_desc` at the error of that text.
  unfoldable pub finish : (Bytes → Bytes) → Manager J → ReceiveState → Outcome J
  finish describe m st = elim (json.parse st.message) [
    | none ↦ stop m empty_state protocol (text "decode server message: " ++ describe st.message)
    | some message ↦ dispatch m empty_state message
  ]

  abbrev too_long : ReceiveState → Bytes → Bool
  too_long st bytes =
      ltb live_max_message (length st.message)
      || ltb (live_max_message - length st.message) (length bytes)

  -- `alloc` tells whether `realloc` succeeds.
  unfoldable pub take_chunk :
      (Bytes → Bytes) → Bool → Manager J → ReceiveState → FrameMeta → Bytes → Outcome J
  take_chunk describe alloc m st meta bytes =
      let longer = record st { message = st.message ++ bytes } in
      if meta.is_close
      then stop m st transport (text "server closed Live WebSocket")
      else if meta.is_ping || meta.is_pong
      then quiet m st no_data
      else if not meta.is_text
      then stop m st protocol (text "Live server sent a non-text data frame")
      else if too_long st bytes
      then stop m st protocol (text "Live message exceeds 2097152 bytes")
      else if not alloc
      then stop m st protocol (text "out of memory")
      else if not (meta.bytesleft == 0)
      then quiet m longer no_data
      else if meta.is_cont
      then quiet m (record longer { fragmented = true }) no_data
      else finish describe m longer

  unfoldable pub receive_message :
      (Bytes → Bytes) → Bool → Manager J → ReceiveState → Received → Outcome J
  receive_message describe alloc m st again = quiet m st no_data
  receive_message describe alloc m st (broken what) =
      stop m st transport (text "live read: " ++ what)
  receive_message describe alloc m st (chunk none bytes) =
      stop m st protocol (text "live read omitted frame metadata")
  receive_message describe alloc m st (chunk (some meta) bytes) =
      take_chunk describe alloc m st meta bytes
