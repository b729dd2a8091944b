-- ===== src/Extension/Receiver/Total.antt =====
-- `do_ws_recv`: the passes of its loop.
use the_convex_100_language.Common.{
  ℕ, zero, suc, ◌+◌, ◌≤◌, ◌<◌, ◌≡◌, ◌≢◌, ◌⊎◌, inl, inr, refl, sym, ap, Bool, some, List, [], ◌∷◌,
  ◌++◌, length, length-append, take, drop, length-drop, ltb, leb, if◌then◌else◌, Bytes, arith,
  Option-cases, Bool-cases, drop-of_le,
}
use the_convex_100_language.Common.Rules.{lengths}
use the_convex_100_language.Extension.{
  Connection, Status, ok, timeout, eof, error, read_chunk, max_message,
}
use the_convex_100_language.Extension.Buffer.{buffer_reserve}
use the_convex_100_language.Extension.Transport.{
  ReadAttempt, got, ended, wait, read_failed, ready, late, broken, connection_read, fill_pending,
  consume_pending,
}
use the_convex_100_language.Extension.Frame.{Parsed, incomplete, violation, complete, parse_frame}
use the_convex_100_language.Extension.Frame.Fits.{parse_frame_fits}
use the_convex_100_language.Extension.Receiver.{
  Reply, out_of_fuel, Round, Taken, reply, more, take_close, take_fragment, take_frame, recv_loop,
  bytes_of, passes, start_clock, do_ws_recv,
}

-- `consume_pending` drops bytes in front and changes nothing else.
pub consume_pending_lem :
    (c : Connection) (count : ℕ) → consume_pending c count ≡ record c { rbuf = drop count c.rbuf }
unfolding consume_pending
consume_pending_lem c count = elim (Bool-cases (leb (length c.rbuf) count)) [
  | inl all ↦
      rw all (ap (λ b. record c { rbuf = b }) (sym (drop-of_le count c.rbuf (ground arith))))
  | inr some' ↦ rw some' refl
]

-- A fragment after which the loop goes on: it was joined, within the bound, and consumed.
pub take_fragment_more :
    (fin : Bool) (payload : Bytes) (c : Connection) (count : ℕ) (alloc : Bool) (now : ℕ)
    (d : Connection)
    → take_fragment fin payload c count alloc now ≡ more d
    → (d.rbuf ≡ drop count c.rbuf)
      × (d.frag ≡ c.frag ++ payload)
      × (d.frag_opcode ≡ c.frag_opcode)
      × (length c.frag + length payload ≤ max_message)
unfolding take_fragment
take_fragment_more fin payload c count alloc now d e =
    elim (Option-cases (buffer_reserve c.frag_cap (length c.frag + length payload + 1) alloc)) [
      | inl full ↦ absurd (ground arith)
      | inr (room, r) ↦
          let joined = record c { frag = c.frag ++ payload; frag_cap = room } in
          let used = consume_pending_lem joined count in
          (ground (arith, used), ground (arith, used), ground (arith, used), ground arith)
    ]

take_close_more :
    (payload : Bytes) (c : Connection) (now : ℕ) (d : Connection)
    → take_close payload c now ≢ more d
unfolding take_close
take_close_more payload c now d e = ground arith

-- The frame after which the loop goes on is a fragment, the first one with its opcode.
pub take_frame_more :
    (c : Connection) (fin : Bool) (opcode offset size : ℕ) (alloc : Bool) (now : ℕ) (d : Connection)
    → take_frame c fin opcode offset size alloc now ≡ more d
    → (d.rbuf ≡ drop (offset + size) c.rbuf) × (length d.frag ≤ max_message) × (d.frag_opcode ≢ 0)
unfolding take_frame
take_frame_more c fin opcode offset size alloc now d e =
    let payload = take size (drop offset c.rbuf) in
    let first = record c { frag_opcode = opcode; frag = [] } in
    let n = length-append c.frag payload in
    let no_close = take_close_more payload (consume_pending c (offset + size)) now d in
    ground (
      arith,
      take_fragment_more fin payload c (offset + size) alloc now d,
      take_fragment_more fin payload first (offset + size) alloc now d,
    )

connection_read_bytes :
    (attempts : List ReadAttempt) (c : Connection) (s : Status) (bytes : Bytes) (d : Connection)
    → connection_read c attempts ≡ some (s, bytes, d)
    → (length bytes ≤ bytes_of attempts) × (d.rbuf ≡ c.rbuf)
unfolding connection_read
connection_read_bytes [] c s bytes d e = absurd (ground arith)
connection_read_bytes (got b ∷ rest) c s bytes d e = ground arith
connection_read_bytes (ended ∷ rest) c s bytes d e = ground arith
connection_read_bytes (wait ready ∷ rest) c s bytes d e = connection_read_bytes rest c s bytes d e
connection_read_bytes (wait late ∷ rest) c s bytes d e = ground arith
connection_read_bytes (wait broken ∷ rest) c s bytes d e = ground arith
connection_read_bytes (read_failed ∷ rest) c s bytes d e = ground arith

pub fill_pending_bytes :
    (attempts : List ReadAttempt) (c : Connection) (alloc : Bool) (s : Status) (d : Connection)
    → fill_pending c alloc attempts ≡ some (s, d)
    → length d.rbuf ≤ length c.rbuf + bytes_of attempts
unfolding fill_pending
fill_pending_bytes attempts c alloc s d e =
    elim (Option-cases (buffer_reserve c.rcap (length c.rbuf + read_chunk) alloc)) [
      | inl full ↦ ground arith
      | inr (cap, e1) ↦ elim (Option-cases (connection_read (record c { rcap = cap }) attempts)) [
        | inl none' ↦ absurd (ground arith)
        | inr ((t, bytes, f), e2) ↦
            let facts = connection_read_bytes attempts (record c { rcap = cap }) t bytes f e2 in
            grind (arith, lengths)
      ]
    ]

pub Parsed-cases :
    (p : Parsed)
    → (p ≡ incomplete)
      ⊎ (p ≡ violation)
      ⊎ ((fin : Bool) × (opcode : ℕ) × (offset : ℕ) × (size : ℕ) × (rbuf : Bytes) × (p
            ≡ complete fin opcode offset size rbuf))
Parsed-cases incomplete = inl refl
Parsed-cases violation = inr (inl refl)
Parsed-cases (complete f o a n b) = inr (inr (f, o, a, n, b, refl))

pub Taken-cases :
    (t : Taken)
    → ((r : Reply) × (d : Connection) × (t ≡ reply r d)) ⊎ ((d : Connection) × (t ≡ more d))
Taken-cases (reply r d) = inl (r, d, refl)
Taken-cases (more d) = inr (d, refl)

passes-rbuf :
    (c d : Connection) (rounds : List Round) (k : ℕ)
    → length d.rbuf + k ≤ length c.rbuf
    → passes d rounds + k ≤ passes c rounds
passes-rbuf c d [] k h = h
passes-rbuf c d (r ∷ rs) k h = omega (arith, passes-rbuf c d rs k h)

pub passes-fill :
    (c d : Connection) (rounds : List Round) (k : ℕ)
    → length d.rbuf ≤ length c.rbuf + k
    → passes d rounds ≤ passes c rounds + k
passes-fill c d [] k h = h
passes-fill c d (r ∷ rs) k h = omega (arith, passes-fill c d rs k h)

-- A frame after which the loop goes on takes at least two bytes.
passes-more :
    (c d : Connection) (rounds : List Round) (fin : Bool) (opcode offset size : ℕ) (rbuf : Bytes)
    (alloc : Bool) (now : ℕ)
    → parse_frame c.rbuf c.server_role ≡ complete fin opcode offset size rbuf
    → take_frame (record c { rbuf = rbuf }) fin opcode offset size alloc now ≡ more d
    → passes d rounds + 2 ≤ passes c rounds
passes-more c d rounds fin opcode offset size rbuf alloc now p t =
    let (low, in', same', legal) =
      parse_frame_fits c.rbuf c.server_role fin opcode offset size rbuf p in
    let (used, f1, f2) =
      take_frame_more (record c { rbuf = rbuf }) fin opcode offset size alloc now d t in
    passes-rbuf c d rounds 2 (omega (arith, ap length used, length-drop (offset + size) rbuf))

-- With more fuel than passes the loop does not run out of it.
pub recv_loop_total :
    (n : ℕ) (c : Connection) (rounds : List Round) (alloc : Bool) (now : ℕ)
    → passes c rounds < n
    → recv_loop n c rounds alloc now ≢ out_of_fuel
unfolding recv_loop
recv_loop_total zero c rounds alloc now h e = omega arith
recv_loop_total (suc n) c rounds alloc now h e =
    elim (Parsed-cases (parse_frame c.rbuf c.server_role)) [
      | inr (inl bad) ↦ ground arith
      | inl part ↦
          (elim rounds
              as (λ rs. passes c rs < suc n → recv_loop (suc n) c rs alloc now ≢ out_of_fuel) [
                | [] ↦ λ k q. ground arith
                | r ∷ rs ↦ λ k q. elim (Option-cases (fill_pending c alloc r.attempts)) [
                  | inl blocked ↦ ground arith
                  | inr ((ok, d), f) ↦
                      let more' = fill_pending_bytes r.attempts c alloc ok d f in
                      let less =
                        passes-fill c (start_clock d r.now) rs (bytes_of r.attempts) more' in
                      ground (
                        arith,
                        recv_loop_total n (start_clock d r.now) rs alloc r.now (omega arith),
                      )
                  | inr ((timeout, d), f) ↦ ground arith
                  | inr ((eof, d), f) ↦ ground arith
                  | inr ((error, d), f) ↦ ground arith
                ]
              ])
            h e
      | inr (inr (fin, opcode, offset, size, rbuf, p)) ↦
          elim (Taken-cases
            (take_frame (record c { rbuf = rbuf }) fin opcode offset size alloc now)) [
              | inl (r, d, t) ↦ ground arith
              | inr (d, t) ↦
                  let less = passes-more c d rounds fin opcode offset size rbuf alloc now p t in
                  ground (arith, recv_loop_total n d rounds alloc now (omega arith))
            ]
    ]

-- A call of `do_ws_recv` always returns, or waits for its socket: the loop over the frames ends,
-- whatever the peer sends.
pub do_ws_recv_total :
    (c : Connection) (rounds : List Round) (alloc : Bool) (now : ℕ)
    → do_ws_recv c rounds alloc now ≢ out_of_fuel
unfolding do_ws_recv
do_ws_recv_total c rounds alloc now e =
    let begun = if ltb 0 (length c.rbuf) then start_clock c now else c in
    let same' : length begun.rbuf ≤ length c.rbuf + 0 = ground arith in
    let less = passes-fill c begun rounds 0 same' in
    ground (arith, recv_loop_total (suc (passes c rounds)) begun rounds alloc now (omega arith))
