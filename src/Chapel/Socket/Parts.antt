-- ===== src/Chapel/Socket/Parts.antt =====
-- The rounds of `ct_ws_receive` before the last part of a message.
use the_convex_100_language.Common.{
  ℕ, ◌+◌, ◌≤◌, ◌<◌, ◌≡◌, ◌⊎◌, inl, inr, refl, sym, ap, ◌∙◌, subst, Bool, true, false, not, ◌&&◌,
  ◌||◌, none, some, List, [], ◌∷◌, ◌++◌, append_assoc, append-nil, length, leb, ◌==◌, if◌then◌else◌,
  Bytes, arith, Bool-cases, length-append,
}
use the_convex_100_language.Common.Rules.{lengths}
use the_convex_100_language.Chapel.Buffer.{Buffer, append, append-fits}
use the_convex_100_language.Chapel.Socket.{
  Socket, Meta, code_ok, code_again, Watched, came, Round, is_ready, Outcome, again, max_ws,
  is_between, disarm, probe, after_control, deliver, take_chunk, after_receive, arm, is_late, watch,
  receive_round, receive_rounds,
}

-- What libcurl hands over before the last part: a part of a text message, a ping or pong with any
-- payload, or nothing.
pub data Event : Type 0 where
  part : Bytes → Meta → Event
  control : Bytes → Meta → Event
  stall : Event

abbrev pub watched_of : Event → Watched
watched_of (part chunk m) = came code_ok chunk (some m)
watched_of (control payload m) = came code_ok payload (some m)
watched_of stall = came code_again [] none

abbrev pub is_complete : Meta → Bool
is_complete m = (m.bytesleft == 0) && not m.cont_flag

abbrev pub IsData : Meta → Type 0
IsData m = (m.close_flag ≡ false) × (m.ping_flag ≡ false) × (m.pong_flag ≡ false)

abbrev pub IsEvent : Event → Type 0
IsEvent (part chunk m) = IsData m × (is_complete m ≡ false)
IsEvent (control payload m) = (m.close_flag ≡ false) × (m.ping_flag || m.pong_flag ≡ true)
IsEvent stall = Unit

abbrev pub chunk_of : Event → Bytes
chunk_of (part chunk m) = chunk
chunk_of _ = []

abbrev pub chunks : List Event → Bytes
chunks [] = []
chunks (e ∷ es) = chunk_of e ++ chunks es

-- Whether the first part is marked as text; only there libcurl has to say so. `m` belongs to the last
-- part.
abbrev pub first_flag : List Event → Meta → Bool
first_flag [] m = m.text_flag
first_flag (part chunk n ∷ es) m = n.text_flag
first_flag (control payload n ∷ es) m = first_flag es m
first_flag (stall ∷ es) m = first_flag es m

-- The clock stays within a second from `start` on and before the call's deadline, and neither the
-- socket nor the allocator fails.
pub record OnTime (start deadline_ms : ℕ) (r : Round) : Type 0 where
  pub starts : start ≤ r.now_start
  pub frame : r.now_frame < start + 1000
  pub call : r.now_first < deadline_ms
  pub readable : r.ready ≡ is_ready
  pub allocates : r.alloc ≡ true

abbrev pub Runs : ℕ → ℕ → List Round → List Event → Type 0
Runs start deadline_ms [] [] = Unit
Runs start deadline_ms (r ∷ rs) (e ∷ es) =
    OnTime start deadline_ms r
    × (r.watched ≡ watched_of e)
    × IsEvent e
    × Runs start deadline_ms rs es
Runs start deadline_ms _ _ = ⊥

-- No deadline is set, or it is a second from `start` on at least.
abbrev pub Fresh : ℕ → Socket → Type 0
Fresh start s = (s.frame_deadline_ms ≡ 0) ⊎ (start + 1000 ≤ s.frame_deadline_ms)

pub round-OnTime :
    (s : Socket) (start deadline_ms : ℕ) (r : Round)
    → OnTime start deadline_ms r
    → Fresh start s
    → receive_round s deadline_ms r ≡ watch (arm s r.now_start) r.watched true
unfolding receive_round
round-OnTime s start deadline_ms r h f =
    let early : leb deadline_ms r.now_first ≡ false = let c = h.call in ground arith in
    let fresh : is_late s r.now_frame ≡ false = let c = h.frame in ground arith in
    let go = watch (arm s r.now_start) r.watched true in
    elim (Bool-cases s.may_have_internal) [
      | inl e ↦ simp (early, fresh, e, h.allocates)
      | inr e ↦ simp (early, fresh, e, h.allocates, h.readable)
    ]

arm-Fresh : (s : Socket) (start now : ℕ) → start ≤ now → Fresh start s → Fresh start (arm s now)
arm-Fresh s start now h f = elim (Bool-cases (s.frame_deadline_ms == 0)) [
  | inl z ↦ simp z (inr (omega arith))
  | inr n ↦ simp n f
]

-- A round that is not the last one.
abbrev Goes : ℕ → Socket → Bytes → Bool → Outcome → Type 0
Goes start s chunk later o =
    (t : Socket) × (o ≡ again t)
    × Fresh start t
    × (t.partial.bytes ≡ s.partial.bytes ++ chunk)
    × (t.partial_text || later ≡ true)

disarm-Fresh :
    (s : Socket) (start : ℕ) → Fresh start s → Fresh start (if is_between s then disarm s else s)
disarm-Fresh s start f = elim (Bool-cases (is_between s)) [
  | inl b ↦ simp b (inl refl)
  | inr b ↦ simp b f
]

disarm-bytes :
    (s : Socket) → (if is_between s then disarm s else s).partial.bytes ≡ s.partial.bytes ++ []
disarm-bytes s = elim (Bool-cases (is_between s)) [
  | inl b ↦ simp b (sym (append-nil s.partial.bytes))
  | inr b ↦ simp b (sym (append-nil s.partial.bytes))
]

disarm-text : (s : Socket) → (if is_between s then disarm s else s).partial_text ≡ s.partial_text
disarm-text s = elim (Bool-cases (is_between s)) [ inl b ↦ simp b refl | inr b ↦ simp b refl ]

control-Goes :
    (s : Socket) (start : ℕ) (m : Meta) (later : Bool)
    → Fresh start s
    → s.partial_text || later ≡ true
    → Goes start s [] later (again (after_control s (some m)))
control-Goes s start m later f o = elim (Bool-cases (m.bytesleft == 0)) [
  | inl e ↦
      let t = if is_between s then disarm s else s in
      rw e (
        probe t,
        refl,
        disarm-Fresh s start f,
        disarm-bytes s,
        ap (λ b. b || later) (disarm-text s) ∙ o,
      )
  | inr e ↦ rw e (s, refl, f, sym (append-nil s.partial.bytes), o)
]

-- A part of a text message that fits.
pub text_step :
    (s : Socket) (chunk : Bytes) (m : Meta) (partial : Buffer)
    → IsData m
    → s.partial_text || m.text_flag ≡ true
    → append s.partial chunk max_ws true ≡ some partial
    → watch s (came code_ok chunk (some m)) true ≡ (
        let u = record s { partial_text = true; partial = partial } in
        if is_complete m then deliver u else again (probe u))
unfolding watch after_receive take_chunk
text_step s chunk m partial (c, i, o) begun e =
    let taken : take_chunk (record s { partial_text = true }) chunk (some m) true ≡ (
        let u = record s { partial_text = true; partial = partial } in
        if is_complete m then deliver u else again (probe u)) =
      rw (e, take_chunk) refl in
    simp (c, i, o, begun) taken

event-Goes :
    (s : Socket) (start : ℕ) (e : Event) (es : List Event) (n : Meta)
    → IsEvent e
    → s.partial_text || first_flag (e ∷ es) n ≡ true
    → Fresh start s
    → length (s.partial.bytes ++ chunk_of e) ≤ max_ws
    → Goes start s (chunk_of e) (first_flag es n) (watch s (watched_of e) true)
unfolding watch after_receive
event-Goes s start (part chunk m) es n (data_, more) o f l =
    let (partial, e, joined) =
      append-fits s.partial chunk max_ws (omega (arith, length-append s.partial.bytes chunk)) in
    let u = record s { partial_text = true; partial = partial } in
    let step : watch s (came code_ok chunk (some m)) true ≡ again (probe u) =
      text_step s chunk m partial data_ o e ∙ rw more refl in
    (probe u, step, f, joined, refl)
event-Goes s start (control payload m) es n (c, which) o f l = elim (Bool-cases m.ping_flag) [
  | inl e ↦ simp (c, e) (control-Goes s start m (first_flag es n) f o)
  | inr e ↦
      let p : m.pong_flag ≡ true = ground arith in
      simp (c, e, p) (control-Goes s start m (first_flag es n) f o)
]
event-Goes s start stall es n h o f l = (
  (if is_between s then disarm s else s),
  refl,
  disarm-Fresh s start f,
  disarm-bytes s,
  ap (λ b. b || first_flag es n) (disarm-text s) ∙ o,
)

-- The rounds before the last one.
pub rounds_before :
    (rs : List Round) (es : List Event) (n : Meta) (s : Socket) (start deadline_ms : ℕ)
    (later : List Round)
    → Runs start deadline_ms rs es
    → s.partial_text || first_flag es n ≡ true
    → Fresh start s
    → length (s.partial.bytes ++ chunks es) ≤ max_ws
    → (t : Socket) × (receive_rounds s deadline_ms (rs ++ later)
        ≡ receive_rounds t deadline_ms later)
      × Fresh start t
      × (t.partial.bytes ≡ s.partial.bytes ++ chunks es)
      × (t.partial_text || n.text_flag ≡ true)
unfolding receive_rounds
rounds_before [] [] n s start deadline_ms later h o f l =
    (s, refl, f, sym (append-nil s.partial.bytes), o)
rounds_before [] (e ∷ es) n s start deadline_ms later h o f l = absurd h
rounds_before (r ∷ rs) [] n s start deadline_ms later h o f l = absurd h
rounds_before (r ∷ rs) (e ∷ es) n s start deadline_ms later (on_time, what, event, more) o f l =
    let armed = arm-Fresh s start r.now_start on_time.starts f in
    let prefix : length (s.partial.bytes ++ chunk_of e) ≤ max_ws = grind (arith, lengths) in
    let (t, goes, f', joined, o') =
      event-Goes (arm s r.now_start) start e es n event o armed prefix in
    let step : receive_round s deadline_ms r ≡ again t =
      round-OnTime s start deadline_ms r on_time f
      ∙ ap (λ w. watch (arm s r.now_start) w true) what
      ∙ goes in
    let whole : t.partial.bytes ++ chunks es ≡ s.partial.bytes ++ chunks (e ∷ es) =
      ap (λ b. b ++ chunks es) joined ∙ append_assoc s.partial.bytes (chunk_of e) (chunks es) in
    let (u, rest, f'', all, begun) =
      rounds_before rs es n t start deadline_ms later more o' f'
        (subst (λ b. length b ≤ max_ws) (sym whole) l) in
    (u, rw (step, receive_rounds) rest, f'', all ∙ whole, begun)
