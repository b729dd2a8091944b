-- ===== src/Client/Send.antt =====
-- `send_cancelled` and `ws_send_json` of c/client/convex.c: one message written in pieces, until all
-- of it is accepted, the deadline has passed, the caller has given up or libcurl fails. Time and
-- what libcurl does are the elements of a list, one for each round of the loop.
pub mod Progress
use the_convex_100_language.Common.{
  ℕ, ◌+◌, ◌-◌, Bool, true, false, not, ◌&&◌, ◌||◌, Option, none, some, List, [], ◌∷◌, ◌++◌, length,
  take, drop, ltb, leb, ◌==◌, if◌then◌else◌, Bytes, text, clip,
}
use the_convex_100_language.Client.Live.{Subscription, Manager}

abbrev pub live_send_timeout_ms : ℕ
live_send_timeout_ms = 500

-- `curl_ws_send`: CURLE_OK, CURLE_AGAIN, or another error, each with the bytes that it reports in
-- `sent`, and an error with the text of `curl_easy_strerror`. The loop looks at `sent` after CURLE_OK
-- only. With CURLE_OK and no bytes it waits and goes on whatever `ws_wait` says, as with any other
-- number.
pub data Write : Type 0 where
  accepted : ℕ → Write
  later failed : ℕ → Bytes → Write

pub record Round : Type 0 where
  -- `send_cancelled` in this round
  pub cancelled : Bool
  -- `monotonic_ms` in this round
  pub now : ℕ
  pub write : Write
  -- `ws_wait(…) >= 0`
  pub wait_ok : Bool

pub data Sending : Type 0 where
  delivered : Sending
  undelivered : Bytes → Sending
  -- the rounds that are given are used up
  unfinished : Sending

unfoldable pub send_cancelled : {J : Type 0} → Manager J → Option (Subscription J) → Bool → Bool
send_cancelled m none removing = m.closing
send_cancelled m (some s) removing = m.closing || (not removing && s.remove_pending)

-- A call of `curl_ws_send` with CURLWS_TEXT: the bytes handed over, and how many of them it took.
pub record SendCall : Type 0 where
  pub handed : Bytes
  pub took : ℕ

abbrev pub taken_by : Write → ℕ
taken_by (accepted sent) = sent
taken_by (later sent what) = sent
taken_by (failed sent what) = sent

-- The result, with the calls that were made.
abbrev pub with_call : SendCall → Sending × List SendCall → Sending × List SendCall
with_call c (result, calls) = (result, c ∷ calls)

-- What follows a call: the loop goes on where it was, or behind the bytes that were sent.
abbrev pub after_write :
    Write → Bool → Sending × List SendCall → (ℕ → Sending × List SendCall) → Sending × List SendCall
after_write (accepted sent) ok go_on after = after sent
after_write (later sent what) ok go_on after =
    if ok then go_on else (undelivered (clip 256 (text "live write: " ++ what)), [])
after_write (failed sent what) ok go_on after =
    (undelivered (clip 256 (text "live write: " ++ what)), [])

-- The loop. `deadline` is the time of the call and LIVE_SEND_TIMEOUT_MS.
module _ (message : Bytes) (deadline : ℕ) where
  abbrev pub call_at : ℕ → Write → SendCall
  call_at sent_total w = record { handed = drop sent_total message; took = taken_by w }

  unfoldable pub send_rounds : List Round → ℕ → Sending × List SendCall
  send_rounds [] sent_total =
      (if ltb sent_total (length message) then unfinished else delivered, [])
  send_rounds (r ∷ rs) sent_total =
      let go_on = send_rounds rs sent_total in
      let after = λ (sent : ℕ). send_rounds rs (sent_total + sent) in
      if not (ltb sent_total (length message))
      then (delivered, [])
      else if r.cancelled
      then (undelivered (clip 256 (text "live write cancelled")), [])
      else if leb deadline r.now
      then (undelivered (clip 256 (text "live write timed out")), [])
      else with_call (call_at sent_total r.write) (after_write r.write r.wait_ok go_on after)

unfoldable pub ws_send : Bytes → ℕ → List Round → Sending × List SendCall
ws_send message start rounds = send_rounds message (start + live_send_timeout_ms) rounds 0
