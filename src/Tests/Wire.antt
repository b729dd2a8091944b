-- ===== src/Tests/Wire.antt =====
-- Messages on the WebSocket.
use the_convex_100_language.Common.{
  ℕ, ◌≡◌, refl, arith, true, false, some, List, [], ◌∷◌, ◌++◌, All,
}
use the_convex_100_language.Client.Live.{Manager}
use the_convex_100_language.Client.Receive.{FrameMeta, Received, again, chunk, empty_state, finish}
use the_convex_100_language.Client.Receive.Assembly.{
  receive_all_reassembles, receive_all, IsPartial, IsLast, payloads,
}
use the_convex_100_language.Client.Send.{
  Round, Write, accepted, later, delivered, ws_send, send_rounds,
}
use the_convex_100_language.Client.Send.Progress.{on_wire}
use the_convex_100_language.Client.Api.{new_live}
use the_convex_100_language.Tests.Toy.{Toy, toy, describe}

abbrev frame : ℕ → FrameMeta
frame left = record {
  is_close = false;
  is_ping = false;
  is_pong = false;
  is_text = true;
  is_cont = false;
  bytesleft = left;
}

abbrev manager : Manager Toy
manager = new_live.manager

abbrev first_piece : List Received
first_piece = chunk (some (frame 2)) (7 ∷ 8 ∷ []) ∷ again ∷ []

first_piece-IsPartial : All (IsPartial toy describe) first_piece
first_piece-IsPartial = ground arith

frame-IsLast : IsLast toy describe (frame 0)
frame-IsLast = ground arith

receive_all_reassembles_example :
    receive_all toy describe manager empty_state
      (first_piece ++ chunk (some (frame 0)) (9 ∷ 10 ∷ []) ∷ [])
    ≡ finish toy describe manager (record {
      message = [] ++ (payloads toy describe first_piece ++ 9 ∷ 10 ∷ []);
      fragmented = false;
    })
receive_all_reassembles_example =
    receive_all_reassembles toy describe first_piece manager empty_state (frame 0) (9 ∷ 10 ∷ [])
      first_piece-IsPartial frame-IsLast (omega arith)

abbrev round : ℕ → Write → Round
round now write = record { cancelled = false; now = now; write = write; wait_ok = true }

abbrev two_rounds : List Round
two_rounds = round 10 (accepted 2) ∷ round 11 (accepted 1) ∷ []

two_rounds_deliver : (ws_send (1 ∷ 2 ∷ 3 ∷ []) 10 two_rounds).0 ≡ delivered
unfolding ws_send send_rounds
two_rounds_deliver = refl

-- A byte that a call takes beside CURLE_AGAIN goes out twice.
abbrev progress_beside_again : List Round
progress_beside_again = round 10 (later 1 []) ∷ round 11 (accepted 3) ∷ []

byte_goes_out_twice :
    on_wire (ws_send (1 ∷ 2 ∷ 3 ∷ []) 10 progress_beside_again).1 ≡ 1 ∷ 1 ∷ 2 ∷ 3 ∷ []
unfolding ws_send send_rounds
byte_goes_out_twice = refl
