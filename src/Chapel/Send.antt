-- ===== src/Chapel/Send.antt =====
-- `ct_ws_send` and `ws_send_all`: one text message over libcurl.
pub mod Delivery
use the_convex_100_language.Common.{
  ℕ, zero, suc, ◌+◌, Bool, true, false, not, ◌||◌, Option, none, some, List, [], ◌∷◌, length, drop,
  ltb, if◌then◌else◌, Bytes,
}
use the_convex_100_language.Chapel.Utf8.{valid_text_boundary}
use the_convex_100_language.Chapel.Socket.{Socket, Code, code_ok, code_again, code_failed}

-- One round: whether the deadline is past, what `curl_ws_send` returns and has sent, and whether
-- `wait_socket` finds the socket ready.
pub record SendRound : Type 0 where
  pub is_over : Bool
  pub code : Code
  pub sent : ℕ
  pub can_go_on : Bool

-- A call of `curl_ws_send`: the bytes handed over, how many of them it sent, and the size of the frame
-- that it announces, 0 within a frame.
pub record SendCall : Type 0 where
  pub handed : Bytes
  pub taken : ℕ
  pub announced : ℕ

-- The results 1 and 0, and a call that still sends when the rounds are used up.
pub data SendEnd : Type 0 where
  sent_all gave_up still_sending : SendEnd

-- With the calls that were made.
pub record Sending : Type 0 where
  pub ended_with : SendEnd
  pub calls : List SendCall

abbrev pub stop_at : SendEnd → Sending
stop_at end = record { ended_with = end; calls = [] }

abbrev pub with_call : SendCall → Sending → Sending
with_call c s = record s { calls = c ∷ s.calls }

-- After the call: `more` is the test of the loop and what follows it.
abbrev pub after_send : Code → Bool → Sending → Sending
after_send code_ok ready more = more
after_send code_again ready more = if ready then more else stop_at gave_up
after_send code_failed ready more = stop_at gave_up

abbrev pub next_call : Bytes → ℕ → Bool → ℕ → SendCall
next_call message offset issued sent = record {
  handed = drop offset message;
  taken = sent;
  announced = if issued then 0 else length message;
}

unfoldable pub send_loop : Bytes → ℕ → Bool → List SendRound → Sending
send_loop message offset issued [] = stop_at still_sending
send_loop message offset issued (r ∷ rounds) =
    let rest = send_loop message (offset + r.sent) true rounds in
    let more = if ltb (offset + r.sent) (length message) then rest else stop_at sent_all in
    if r.is_over
    then stop_at gave_up
    else with_call (next_call message offset issued r.sent) (after_send r.code r.can_go_on more)

unfoldable pub ws_send_all : Bytes → List SendRound → Sending
ws_send_all message rounds = send_loop message 0 false rounds

-- NULL is `none`.
unfoldable pub ct_ws_send : Option Socket → Bytes → Bool → List SendRound → Sending
ct_ws_send none message terminated rounds = stop_at gave_up
ct_ws_send (some s) message terminated rounds =
    if not (valid_text_boundary (some message) (length message) terminated) || s.interrupted
    then stop_at gave_up
    else ws_send_all message rounds
