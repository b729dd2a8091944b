-- ===== src/Extension/Receiver/Reassembly.antt =====
-- Fragmented messages, from the peer's frames to the reply.
use the_convex_100_language.Common.{
  ℕ, zero, suc, ◌+◌, ◌≤◌, ◌<◌, ◌≡◌, ◌≢◌, ◌⊎◌, inl, inr, refl, sym, ap, ap₂, ◌∙◌, Bool, true, false,
  not, ◌||◌, List, [], ◌∷◌, ◌++◌, append_assoc, length, length-append, take, drop, All, ltb, ◌==◌,
  if◌then◌else◌, Bytes, arith, Option-cases,
}
use the_convex_100_language.Extension.{Connection, max_message}
use the_convex_100_language.Extension.Bits.{IsByte}
use the_convex_100_language.Extension.Buffer.{buffer_reserve, buffer_reserve-none_iff}
use the_convex_100_language.Extension.Frame.{Parsed, incomplete, violation, complete, parse_frame}
use the_convex_100_language.Extension.Writer.{frame_bytes, is_sendable}
use the_convex_100_language.Extension.Writer.RoundTrip.{Delivers, write_parse}
use the_convex_100_language.Extension.Receiver.{
  message, Result, returned, Round, Taken, reply, more, take_fragment, take_frame, recv_loop,
  restart_clock,
}
use the_convex_100_language.Extension.Receiver.Total.{consume_pending_lem}

-- A connection whose reassembly buffer took a payload, and whose frame is consumed.
abbrev pub joined : Connection → Bytes → ℕ → ℕ → Connection
joined c payload count room = record c {
  frag = c.frag ++ payload;
  frag_cap = room;
  rbuf = drop count c.rbuf;
}

abbrev outcome : Bool → Connection → ℕ → Taken
outcome fin j now =
    if fin
    then reply (message j.frag_opcode j.frag)
        (restart_clock (record j { frag_opcode = 0; frag = [] }) now)
    else more j

take_fragment_fits :
    (fin : Bool) (payload : Bytes) (c : Connection) (count now : ℕ)
    → length c.frag + length payload ≤ max_message
    → (room : ℕ) × (take_fragment fin payload c count true now
        ≡ outcome fin (joined c payload count room) now)
unfolding take_fragment
take_fragment_fits fin payload c count now h =
    let size = length c.frag + length payload + 1 in
    elim (Option-cases (buffer_reserve c.frag_cap size true)) [
      | inl full ↦ absurd (omega (arith, (buffer_reserve-none_iff c.frag_cap size).0 full))
      | inr (room, r) ↦
          let fits : ltb max_message (length c.frag + length payload) ≡ false = ground arith in
          (
            room,
            rw
                (
                  fits,
                  r,
                  consume_pending_lem (record c { frag = c.frag ++ payload; frag_cap = room })
                      count,
                )
                refl,
          )
    ]

-- A continuation frame, and the first frame of a fragmented message.
take_frame_next :
    (fin : Bool) (payload : Bytes) (c : Connection) (offset size now : ℕ)
    → take size (drop offset c.rbuf) ≡ payload
    → c.frag_opcode ≢ 0
    → length c.frag + length payload ≤ max_message
    → (room : ℕ) × (take_frame c fin 0 offset size true now
        ≡ outcome fin (joined c payload (offset + size) room) now)
unfolding take_frame
take_frame_next fin payload c offset size now e started h =
    let open' : (c.frag_opcode == 0) ≡ false = ground arith in
    let (room, t) = take_fragment_fits fin payload c (offset + size) now h in
    (room, rw (open', e) t)

pub take_frame_first :
    (opcode : ℕ) (payload : Bytes) (c : Connection) (offset size now : ℕ)
    → take size (drop offset c.rbuf) ≡ payload
    → c.frag_opcode ≡ 0
    → (opcode ≡ 1) ⊎ (opcode ≡ 2)
    → length payload ≤ max_message
    → (room : ℕ) × (take_frame c false opcode offset size true now
        ≡ more (joined (record c { frag_opcode = opcode; frag = [] }) payload (offset + size) room))
unfolding take_frame
take_frame_first opcode payload c offset size now e idle o h =
    let first = record c { frag_opcode = opcode; frag = [] } in
    let (room, t) = take_fragment_fits false payload first (offset + size) now (omega (arith, h)) in
    let free : (c.frag_opcode == 0) ≡ true = ground arith in
    let n9 : (opcode == 9) ≡ false = ground arith in
    let n10 : (opcode == 10) ≡ false = ground arith in
    let n8 : (opcode == 8) ≡ false = ground arith in
    let is' : ((opcode == 1) || (opcode == 2)) ≡ true = ground arith in
    (room, rw (n9, n10, n8, is', free, e) t)

-- A frame that was delivered, in its parts.
parts :
    (p : Parsed) (fin : Bool) (opcode : ℕ) (payload rest : Bytes)
    → Delivers fin opcode payload rest p
    → (offset : ℕ) × (size : ℕ) × (rbuf : Bytes) × (p ≡ complete fin opcode offset size rbuf)
      × (take size (drop offset rbuf) ≡ payload)
      × (drop (offset + size) rbuf ≡ rest)
parts incomplete fin opcode payload rest d = absurd d
parts violation fin opcode payload rest d = absurd d
parts (complete f o offset size rbuf) fin opcode payload rest (e1, e2, e3, e4, e5) =
    (offset, size, rbuf, ap₂ (λ x y. complete x y offset size rbuf) e1 e2, e4, e5)

-- The frames of the middle of a message: masks and payloads.
abbrev pub middle : Bool → List (Bytes × Bytes) → Bytes
middle server_role [] = []
middle server_role ((mask, payload) ∷ ps) =
    frame_bytes server_role false 0 mask payload ++ middle server_role ps

abbrev pub payloads : List (Bytes × Bytes) → Bytes
payloads [] = []
payloads ((mask, payload) ∷ ps) = payload ++ payloads ps

abbrev pub IsFrame : Bytes × Bytes → Type 0
IsFrame (mask, payload) = (length mask ≡ 4) × All IsByte payload

abbrev go_on : ℕ → List Round → ℕ → Taken → Result
go_on n rounds now (reply r d) = returned r d
go_on n rounds now (more d) = recv_loop n d rounds true now

-- The loop at a frame that is there.
pub recv_loop_frame :
    (n : ℕ) (c : Connection) (rounds : List Round) (now : ℕ) (fin : Bool) (opcode offset size : ℕ)
    (rbuf : Bytes) (t : Taken)
    → parse_frame c.rbuf c.server_role ≡ complete fin opcode offset size rbuf
    → take_frame (record c { rbuf = rbuf }) fin opcode offset size true now ≡ t
    → recv_loop (suc n) c rounds true now ≡ go_on n rounds now t
unfolding recv_loop
recv_loop_frame n c rounds now fin opcode offset size rbuf (reply r d) p f =
    rw (p, f, recv_loop) refl
recv_loop_frame n c rounds now fin opcode offset size rbuf (more d) p f = rw (p, f, recv_loop) refl

-- A frame of the peer at the front of the buffer.
pub frame_parts :
    (fin server_role : Bool) (opcode : ℕ) (mask payload rest : Bytes) (c : Connection)
    → IsFrame (mask, payload)
    → is_sendable fin opcode (length payload) ≡ true
    → c.server_role ≡ not server_role
    → c.rbuf ≡ frame_bytes server_role fin opcode mask payload ++ rest
    → (offset : ℕ) × (size : ℕ) × (rbuf : Bytes) × (parse_frame c.rbuf c.server_role
        ≡ complete fin opcode offset size rbuf)
      × (take size (drop offset rbuf) ≡ payload)
      × (drop (offset + size) rbuf ≡ rest)
frame_parts fin server_role opcode mask payload rest c good sends role e =
    let d = write_parse fin server_role opcode mask payload rest sends good.0 good.1 in
    let d' : Delivers fin opcode payload rest (parse_frame c.rbuf c.server_role) = rw (e, role) d in
    parts (parse_frame c.rbuf c.server_role) fin opcode payload rest d'

-- A connection of the other side whose buffer starts with some bytes.
abbrev pub Faces : Connection → Bool → Bytes → Type 0
Faces c server_role bytes = (c.server_role ≡ not server_role) × (c.rbuf ≡ bytes)

-- A reply with a message, after which the rest of the buffer waits.
abbrev pub Gives : Result → ℕ → Bytes → Bytes → Type 0
Gives result opcode bytes rest =
    (d : Connection) × (result ≡ returned (message opcode bytes) d)
    × (d.rbuf ≡ rest)
    × (d.frag_opcode ≡ 0)

recv_last :
    (n : ℕ) (server_role : Bool) (mask payload rest : Bytes) (c : Connection) (rounds : List Round)
    (now : ℕ)
    → IsFrame (mask, payload)
    → Faces c server_role (frame_bytes server_role true 0 mask payload ++ rest)
    → c.frag_opcode ≢ 0
    → length c.frag + length payload ≤ max_message
    → Gives (recv_loop (suc n) c rounds true now) c.frag_opcode (c.frag ++ payload) rest
recv_last n server_role mask payload rest c rounds now good faces started h =
    let sends : is_sendable true 0 (length payload) ≡ true = ground arith in
    let (offset, size, rbuf, p, t, r) =
      frame_parts true server_role 0 mask payload rest c good sends faces.0 faces.1 in
    let b = record c { rbuf = rbuf } in
    let (room, f) = take_frame_next true payload b offset size now t started h in
    let last : Connection = joined b payload (offset + size) room in
    (
      restart_clock (record last { frag_opcode = 0; frag = [] }) now,
      recv_loop_frame n c rounds now true 0 offset size rbuf _ p f,
      r,
      refl,
    )

-- The loop at the continuation frames.
pub recv_rest :
    (ps : List (Bytes × Bytes)) (n : ℕ) (server_role : Bool) (mask payload rest : Bytes)
    (c : Connection) (rounds : List Round) (now : ℕ)
    → length ps < n
    → All IsFrame ps
    → IsFrame (mask, payload)
    → Faces c server_role
        (middle server_role ps ++ (frame_bytes server_role true 0 mask payload ++ rest))
    → c.frag_opcode ≢ 0
    → length c.frag + (length (payloads ps) + length payload) ≤ max_message
    → Gives (recv_loop n c rounds true now) c.frag_opcode (c.frag ++ (payloads ps ++ payload)) rest
recv_rest ps zero server_role mask payload rest c rounds now f frames good faces started h =
    absurd (omega arith)
recv_rest [] (suc n) server_role mask payload rest c rounds now f frames good faces started h =
    recv_last n server_role mask payload rest c rounds now good faces started (omega (arith, h))
recv_rest ((m, p) ∷ ps) (suc n) server_role mask payload rest c rounds now f frames good faces
      started h =
    let n1 = length-append p (payloads ps) in
    let sends : is_sendable false 0 (length p) ≡ true = ground arith in
    let behind = middle server_role ps ++ (frame_bytes server_role true 0 mask payload ++ rest) in
    let e : c.rbuf ≡ frame_bytes server_role false 0 m p ++ behind =
      faces.1 ∙ append_assoc (frame_bytes server_role false 0 m p) (middle server_role ps) _ in
    let (offset, size, rbuf, q, t, r) =
      frame_parts false server_role 0 m p behind c frames.0 sends faces.0 e in
    let b = record c { rbuf = rbuf } in
    let (room, g) = take_frame_next false p b offset size now t started (omega (arith, h, n1)) in
    let j : Connection = joined b p (offset + size) room in
    let step = recv_loop_frame n c rounds now false 0 offset size rbuf _ q g in
    let n2 = length-append c.frag p in
    let (d, d1, d2, d3) =
      recv_rest ps n server_role mask payload rest j rounds now (omega arith) frames.1 good
        (faces.0, r) started (omega (arith, h, n1, n2)) in
    let text : (c.frag ++ p) ++ (payloads ps ++ payload)
        ≡ c.frag ++ ((p ++ payloads ps) ++ payload) =
      append_assoc c.frag p (payloads ps ++ payload)
      ∙ ap (λ x. c.frag ++ x) (sym (append_assoc p (payloads ps) payload)) in
    (d, step ∙ d1 ∙ ap (λ x. returned (message c.frag_opcode x) d) text, d2, d3)
