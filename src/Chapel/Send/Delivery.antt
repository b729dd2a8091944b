-- ===== src/Chapel/Send/Delivery.antt =====
-- `ct_ws_send`: the bytes that go out, the frames that are announced, and when the call succeeds.
use the_convex_100_language.Common.{
  ℕ, ◌+◌, ◌≤◌, ◌≡◌, refl, sym, ap, ◌∙◌, Bool, true, false, not, ◌||◌, Option, none, some, List, [],
  ◌∷◌, ◌++◌, length, take, take-add, drop, drop-drop, drop-of_le, take-append-drop, ltb,
  if◌then◌else◌, Bytes, All, arith, Bool-cases, inl, inr,
}
use the_convex_100_language.Chapel.Utf8.{valid_text_boundary}
use the_convex_100_language.Chapel.Socket.{Socket, Code, code_ok, code_again, code_failed}
use the_convex_100_language.Chapel.Send.{
  SendRound, SendCall, sent_all, gave_up, Sending, stop_at, with_call, after_send, next_call,
  send_loop, ws_send_all, ct_ws_send,
}

-- The bytes that went out.
abbrev pub on_wire : List SendCall → Bytes
on_wire [] = []
on_wire (c ∷ calls) = take c.taken c.handed ++ on_wire calls

-- No call sends more than it is handed.
abbrev pub Bounded : Bytes → ℕ → List SendRound → Type 0
Bounded message offset [] = Unit
Bounded message offset (r ∷ rounds) =
    (offset + r.sent ≤ length message) × Bounded message (offset + r.sent) rounds

abbrev pub Continues : List SendCall → Type 0
Continues [] = Unit
Continues (c ∷ calls) = (c.announced ≡ 0) × Continues calls

-- The first call announces a frame of the whole message, and the others go on with it.
abbrev pub OneFrame : Bytes → List SendCall → Type 0
OneFrame message [] = Unit
OneFrame message (c ∷ calls) = (c.announced ≡ length message) × Continues calls

-- How the bytes that went out stand to the ones that were left.
abbrev pub SentSo : Bytes → Sending → Type 0
SentSo left s =
    ((n : ℕ) × (on_wire s.calls ≡ take n left)) × (s.ended_with ≡ sent_all → on_wire s.calls ≡ left)

stopped : (left : Bytes) → SentSo left (stop_at gave_up)
stopped left = ((0, refl), λ e. ground (arith, e))

after_send-SentSo :
    (left : Bytes) (code : Code) (ready : Bool) (more : Sending)
    → SentSo left more
    → SentSo left (after_send code ready more)
after_send-SentSo left code_ok ready more h = h
after_send-SentSo left code_again true more h = h
after_send-SentSo left code_again false more h = stopped left
after_send-SentSo left code_failed ready more h = stopped left

with_call-SentSo :
    (message : Bytes) (offset sent : ℕ) (issued : Bool) (s : Sending)
    → SentSo (drop (offset + sent) message) s
    → SentSo (drop offset message) (with_call (next_call message offset issued sent) s)
with_call-SentSo message offset sent issued s ((n, e), whole) =
    let left = drop offset message in
    let skip : drop sent left ≡ drop (offset + sent) message = drop-drop sent offset message in
    let part : take sent left ++ on_wire s.calls ≡ take (sent + n) left =
      ap (λ b. take sent left ++ b) (e ∙ ap (take n) (sym skip)) ∙ take-add sent n left in
    (
      (sent + n, part),
      λ end. ap (λ b. take sent left ++ b) (whole end ∙ sym skip) ∙ take-append-drop sent left,
    )

send_loop-SentSo :
    (message : Bytes) (offset : ℕ) (issued : Bool) (rounds : List SendRound)
    → Bounded message offset rounds
    → SentSo (drop offset message) (send_loop message offset issued rounds)
unfolding send_loop
send_loop-SentSo message offset issued [] f = ((0, refl), λ e. ground (arith, e))
send_loop-SentSo message offset issued (r ∷ rounds) (few, f) =
    let rest = send_loop message (offset + r.sent) true rounds in
    let more = if ltb (offset + r.sent) (length message) then rest else stop_at sent_all in
    let inner : SentSo (drop (offset + r.sent) message) more =
      elim (Bool-cases (ltb (offset + r.sent) (length message))) [
        | inl e ↦ rw e (send_loop-SentSo message (offset + r.sent) true rounds f)
        | inr e ↦
            let none_left = drop-of_le (offset + r.sent) message (ground arith) in
            rw e ((0, refl), λ e'. sym none_left)
      ] in
    elim (Bool-cases r.is_over) [
      | inl e ↦ rw e (stopped (drop offset message))
      | inr e ↦ rw e (
          with_call-SentSo message offset r.sent issued (after_send r.code r.can_go_on more)
            (after_send-SentSo (drop (offset + r.sent) message) r.code r.can_go_on more inner))
    ]

after_send-Continues :
    (code : Code) (ready : Bool) (more : Sending)
    → Continues more.calls
    → Continues (after_send code ready more).calls
after_send-Continues code_ok ready more h = h
after_send-Continues code_again true more h = h
after_send-Continues code_again false more h = tt
after_send-Continues code_failed ready more h = tt

more-Continues :
    (b : Bool) (rest : Sending)
    → Continues rest.calls
    → Continues (if b then rest else stop_at sent_all).calls
more-Continues true rest h = h
more-Continues false rest h = tt

send_loop-Continues :
    (message : Bytes) (offset : ℕ) (rounds : List SendRound)
    → Continues (send_loop message offset true rounds).calls
unfolding send_loop
send_loop-Continues message offset [] = tt
send_loop-Continues message offset (r ∷ rounds) =
    let rest = send_loop message (offset + r.sent) true rounds in
    let later = send_loop-Continues message (offset + r.sent) rounds in
    elim (Bool-cases r.is_over) [
      | inl e ↦ rw e tt
      | inr e ↦ rw e (
        refl,
        after_send-Continues r.code r.can_go_on _
            (more-Continues (ltb (offset + r.sent) (length message)) rest later),
      )
    ]

ws_send_all-OneFrame :
    (message : Bytes) (rounds : List SendRound)
    → OneFrame message (ws_send_all message rounds).calls
unfolding ws_send_all send_loop
ws_send_all-OneFrame message [] = tt
ws_send_all-OneFrame message (r ∷ rounds) =
    let rest = send_loop message (0 + r.sent) true rounds in
    let later = send_loop-Continues message (0 + r.sent) rounds in
    elim (Bool-cases r.is_over) [
      | inl e ↦ rw e tt
      | inr e ↦ rw e (
        refl,
        after_send-Continues r.code r.can_go_on _
            (more-Continues (ltb (0 + r.sent) (length message)) rest later),
      )
    ]

-- `ct_ws_send` succeeds only when the message went out whole, in order and once; otherwise a part of it
-- from its start on went out. The calls make up one frame: the first one announces the size of the
-- whole message, also when the ones after it carry more of it. The hypothesis is that no call sends
-- more than it is handed.
pub ct_ws_send_sends :
    (socket : Option Socket) (message : Bytes) (terminated : Bool) (rounds : List SendRound)
    → Bounded message 0 rounds
    → (let s = ct_ws_send socket message terminated rounds in
        SentSo message s × OneFrame message s.calls)
unfolding ct_ws_send ws_send_all
ct_ws_send_sends none message terminated rounds f = (stopped message, tt)
ct_ws_send_sends (some s) message terminated rounds f =
    let valid = valid_text_boundary (some message) (length message) terminated in
    elim (Bool-cases (not valid || s.interrupted)) [
      | inl e ↦ rw e (stopped message, tt)
      | inr e ↦
          rw e (send_loop-SentSo message 0 false rounds f, ws_send_all-OneFrame message rounds)
    ]

-- A round in time, in which libcurl sends something or the socket becomes ready for more.
abbrev pub GoesOn : Code → Bool → Type 0
GoesOn code_ok ready = Unit
GoesOn code_again ready = ready ≡ true
GoesOn code_failed ready = false ≡ true

abbrev pub IsSteady : SendRound → Type 0
IsSteady r = (r.is_over ≡ false) × GoesOn r.code r.can_go_on

abbrev pub all_sent : List SendRound → ℕ
all_sent [] = 0
all_sent (r ∷ rounds) = r.sent + all_sent rounds

after_send-GoesOn :
    (code : Code) (ready : Bool) (more : Sending)
    → GoesOn code ready
    → after_send code ready more ≡ more
after_send-GoesOn code_ok ready more h = refl
after_send-GoesOn code_again ready more h = rw h refl
after_send-GoesOn code_failed ready more h = ground (arith, h)

send_loop_ends :
    (message : Bytes) (offset : ℕ) (issued : Bool) (r : SendRound) (rounds : List SendRound)
    → All IsSteady (r ∷ rounds)
    → length message ≤ offset + all_sent (r ∷ rounds)
    → (send_loop message offset issued (r ∷ rounds)).ended_with ≡ sent_all
unfolding send_loop
send_loop_ends message offset issued r [] ((on, goes), steady) enough =
    let last : ltb (offset + r.sent) (length message) ≡ false = ground arith in
    rw (on, last) (ap (λ s. s.ended_with) (after_send-GoesOn r.code r.can_go_on _ goes))
send_loop_ends message offset issued r (q ∷ rounds) ((on, goes), steady) enough =
    let rest = send_loop_ends message (offset + r.sent) true q rounds steady (omega arith) in
    elim (Bool-cases (ltb (offset + r.sent) (length message))) [
      | inl e ↦
          rw (on, e) (ap (λ s. s.ended_with) (after_send-GoesOn r.code r.can_go_on _ goes) ∙ rest)
      | inr e ↦ rw (on, e) (ap (λ s. s.ended_with) (after_send-GoesOn r.code r.can_go_on _ goes))
    ]

-- Text that passes the check is sent whole over a socket that is not interrupted, in at least one round,
-- when no round is late or fails, the socket becomes ready whenever libcurl asks to wait, no call sends
-- more than it is handed, and the rounds send as many bytes as the text has.
pub ct_ws_send_completes :
    (s : Socket) (message : Bytes) (terminated : Bool) (r : SendRound) (rounds : List SendRound)
    → s.interrupted ≡ false
    → valid_text_boundary (some message) (length message) terminated ≡ true
    → Bounded message 0 (r ∷ rounds)
    → All IsSteady (r ∷ rounds)
    → length message ≤ all_sent (r ∷ rounds)
    → (let t = ct_ws_send (some s) message terminated (r ∷ rounds) in
        (t.ended_with ≡ sent_all) × (on_wire t.calls ≡ message))
unfolding ct_ws_send ws_send_all
ct_ws_send_completes s message terminated r rounds open_ valid f steady enough =
    let (sound, one) = ct_ws_send_sends (some s) message terminated (r ∷ rounds) f in
    let end : (ct_ws_send (some s) message terminated (r ∷ rounds)).ended_with ≡ sent_all =
      rw (open_, valid) (send_loop_ends message 0 false r rounds steady (omega arith)) in
    (end, sound.1 end)
