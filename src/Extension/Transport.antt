-- ===== src/Extension/Transport.antt =====
-- `connection_read`, `connection_write`, `fill_pending` and `consume_pending`. Each call of OpenSSL, of
-- `read` or `write`, and of `wait_ready` is one element of a list of attempts.
use the_convex_100_language.Common.{
  ℕ, zero, suc, ◌+◌, ◌≡◌, ◌⊎◌, inl, inr, refl, ap, ◌∙◌, Bool, true, false, Option, none, some, List,
  [], ◌∷◌, ◌++◌, append-nil, length, take, take-of_le, take-add, drop, ltb, leb, if◌then◌else◌,
  Bytes, arith, Option-cases, Bool-cases,
}
use the_convex_100_language.Extension.{Connection, Status, ok, timeout, eof, error, read_chunk}
use the_convex_100_language.Extension.Buffer.{buffer_reserve}

-- `wait_ready`: 1, 0 at the deadline, or -1.
pub data Ready : Type 0 where
  ready late broken : Ready

-- What a read gives: bytes; the orderly or the abrupt end of the stream; a wish to wait, with the
-- outcome of that wait; or a failure. A plain socket first waits, which is `wait` again.
pub data ReadAttempt : Type 0 where
  got : Bytes → ReadAttempt
  ended : ReadAttempt
  wait : Ready → ReadAttempt
  read_failed : ReadAttempt

abbrev fail_conn : Connection → Connection
fail_conn c = record c { failed = true }

-- The bytes read, with CONVEX_OK, or another status. `none` while the loop goes on. A result of
-- `read` with EINTR, EAGAIN or EWOULDBLOCK is `wait ready`.
unfoldable pub connection_read :
    Connection → List ReadAttempt → Option (Status × Bytes × Connection)
connection_read c [] = none
connection_read c (got bytes ∷ rest) = some (ok, bytes, c)
connection_read c (ended ∷ rest) = some (eof, [], record c { saw_eof = true })
connection_read c (wait ready ∷ rest) = connection_read c rest
connection_read c (wait late ∷ rest) = some (timeout, [], c)
connection_read c (wait broken ∷ rest) = some (error, [], fail_conn c)
connection_read c (read_failed ∷ rest) = some (error, [], fail_conn c)

pub data WriteAttempt : Type 0 where
  wrote : ℕ → WriteAttempt
  write_wait : Ready → WriteAttempt
  write_failed : WriteAttempt

-- The status after a wait that did not end with readiness.
abbrev given_up : Ready → ℕ → Status
given_up late zero = timeout
given_up _ _ = error

abbrev poison : Connection → ℕ → Connection
poison c written = if ltb 0 written then fail_conn c else c

-- The loop, with `written` and the bytes that went out so far: the status, the connection, and all
-- bytes that went out. Each attempt is handed the bytes from `written` on, and takes the first `n` of
-- them. `none` while the loop goes on.
unfoldable pub write_rounds :
    Connection → Bytes → ℕ → Bytes → List WriteAttempt → Option (Status × Connection × Bytes)
write_rounds c data_ written out [] = if ltb written (length data_) then none else some (ok, c, out)
write_rounds c data_ written out (wrote n ∷ rest) =
    let later = write_rounds c data_ (written + n) (out ++ take n (drop written data_)) rest in
    if ltb written (length data_) then later else some (ok, c, out)
write_rounds c data_ written out (write_wait ready ∷ rest) =
    let later = write_rounds c data_ written out rest in
    if ltb written (length data_) then later else some (ok, c, out)
write_rounds c data_ written out (write_wait late ∷ rest) =
    if ltb written (length data_)
    then some (given_up late written, poison c written, out)
    else some (ok, c, out)
write_rounds c data_ written out (write_wait broken ∷ rest) =
    if ltb written (length data_)
    then some (given_up broken written, poison c written, out)
    else some (ok, c, out)
write_rounds c data_ written out (write_failed ∷ rest) =
    if ltb written (length data_) then some (error, fail_conn c, out) else some (ok, c, out)

unfoldable pub connection_write :
    Connection → Bytes → List WriteAttempt → Option (Status × Connection × Bytes)
connection_write c data_ attempts = write_rounds c data_ 0 [] attempts

-- What a caller may rely on after a write: by its status.
abbrev pub Written : Connection → Bytes → Option (Status × Connection × Bytes) → Type 0
Written c data_ none = Unit
Written c data_ (some (ok, c', out)) = (out ≡ data_) × (c' ≡ c)
Written c data_ (some (timeout, c', out)) = (out ≡ []) × (c' ≡ c)
Written c data_ (some (eof, c', out)) = ⊥
Written c data_ (some (error, c', out)) = (out ≡ []) ⊎ (c'.failed ≡ true)

-- The state of a connection once a read has failed or ended, and the bytes of one that did not.
unfoldable pub fill_pending : Connection → Bool → List ReadAttempt → Option (Status × Connection)
fill_pending c alloc attempts = elim (buffer_reserve c.rcap (length c.rbuf + read_chunk) alloc) [
  | none ↦ some (error, fail_conn c)
  | some cap ↦ elim (connection_read (record c { rcap = cap }) attempts) [
    | none ↦ none
    | some (s, bytes, d) ↦ some (s, record d { rbuf = d.rbuf ++ bytes })
  ]
]

unfoldable pub consume_pending : Connection → ℕ → Connection
consume_pending c count =
    if leb (length c.rbuf) count
    then record c { rbuf = [] }
    else record c { rbuf = drop count c.rbuf }

finished : (n : ℕ) (d out : Bytes) → out ≡ take n d → ltb n (length d) ≡ false → out ≡ d
finished n d out e h = e ∙ take-of_le n d (ground arith)

late_ends :
    (c : Connection) (d : Bytes) (n : ℕ) (out : Bytes)
    → out ≡ take n d
    → Written c d (some (given_up late n, poison c n, out))
late_ends c d zero out e = (e, refl)
late_ends c d (suc n) out e = inr (ground arith)

broken_ends :
    (c : Connection) (d : Bytes) (n : ℕ) (out : Bytes)
    → out ≡ take n d
    → Written c d (some (given_up broken n, poison c n, out))
broken_ends c d zero out e = inl e
broken_ends c d (suc n) out e = inr (ground arith)

write_rounds-Written :
    (attempts : List WriteAttempt) (c : Connection) (data_ : Bytes) (written : ℕ) (out : Bytes)
    → out ≡ take written data_
    → Written c data_ (write_rounds c data_ written out attempts)
unfolding write_rounds
write_rounds-Written [] c data_ written out e = elim (Bool-cases (ltb written (length data_))) [
  | inl more ↦ rw more tt
  | inr all ↦ rw all (finished written data_ out e all, refl)
]
write_rounds-Written (wrote n ∷ rest) c data_ written out e =
    let piece = take n (drop written data_) in
    let next : out ++ piece ≡ take (written + n) data_ =
      ap (λ b. b ++ piece) e ∙ take-add written n data_ in
    elim (Bool-cases (ltb written (length data_))) [
      | inl more ↦ rw more (write_rounds-Written rest c data_ (written + n) (out ++ piece) next)
      | inr all ↦ rw all (finished written data_ out e all, refl)
    ]
write_rounds-Written (write_wait ready ∷ rest) c data_ written out e =
    elim (Bool-cases (ltb written (length data_))) [
      | inl more ↦ rw more (write_rounds-Written rest c data_ written out e)
      | inr all ↦ rw all (finished written data_ out e all, refl)
    ]
write_rounds-Written (write_wait late ∷ rest) c data_ written out e =
    elim (Bool-cases (ltb written (length data_))) [
      | inl more ↦ rw more (late_ends c data_ written out e)
      | inr all ↦ rw all (finished written data_ out e all, refl)
    ]
write_rounds-Written (write_wait broken ∷ rest) c data_ written out e =
    elim (Bool-cases (ltb written (length data_))) [
      | inl more ↦ rw more (broken_ends c data_ written out e)
      | inr all ↦ rw all (finished written data_ out e all, refl)
    ]
write_rounds-Written (write_failed ∷ rest) c data_ written out e =
    elim (Bool-cases (ltb written (length data_))) [
      | inl more ↦ rw more (inr refl)
      | inr all ↦ rw all (finished written data_ out e all, refl)
    ]

-- Whichever way the socket takes the bytes, in pieces and with waits between them: with CONVEX_OK
-- exactly the data went out, each byte once and in order; with CONVEX_TIMEOUT nothing went out, and the
-- connection is as it was; after CONVEX_ERROR either nothing went out or the connection is marked as
-- failed, so that nobody goes on in the middle of a frame.
pub connection_write_lem :
    (attempts : List WriteAttempt) (c : Connection) (data_ : Bytes)
    → Written c data_ (connection_write c data_ attempts)
unfolding connection_write
connection_write_lem attempts c data_ = write_rounds-Written attempts c data_ 0 [] refl

connection_read_lem :
    (attempts : List ReadAttempt) (c : Connection) (s : Status) (bytes : Bytes) (d : Connection)
    → connection_read c attempts ≡ some (s, bytes, d)
    → (d.rbuf ≡ c.rbuf) × ((s ≡ ok) ⊎ (bytes ≡ []))
unfolding connection_read
connection_read_lem [] c s bytes d e = absurd (ground arith)
connection_read_lem (got b ∷ rest) c s bytes d e = ground arith
connection_read_lem (ended ∷ rest) c s bytes d e = ground arith
connection_read_lem (wait ready ∷ rest) c s bytes d e = connection_read_lem rest c s bytes d e
connection_read_lem (wait late ∷ rest) c s bytes d e = ground arith
connection_read_lem (wait broken ∷ rest) c s bytes d e = ground arith
connection_read_lem (read_failed ∷ rest) c s bytes d e = ground arith

-- The pending bytes are never lost: a fill that does not succeed leaves them as they were.
pub fill_pending_keeps :
    (attempts : List ReadAttempt) (c : Connection) (alloc : Bool) (s : Status) (d : Connection)
    → fill_pending c alloc attempts ≡ some (s, d)
    → (bytes : Bytes) × (d.rbuf ≡ c.rbuf ++ bytes) × ((s ≡ ok) ⊎ (bytes ≡ []))
unfolding fill_pending
fill_pending_keeps attempts c alloc s d e =
    elim (Option-cases (buffer_reserve c.rcap (length c.rbuf + read_chunk) alloc)) [
      | inl full ↦ ([], ground (arith, append-nil c.rbuf), inr refl)
      | inr (cap, e1) ↦ elim (Option-cases (connection_read (record c { rcap = cap }) attempts)) [
        | inl none' ↦ absurd (ground arith)
        | inr ((t, bytes, f), e2) ↦
            let facts = connection_read_lem attempts (record c { rcap = cap }) t bytes f e2 in
            (bytes, ground arith, ground arith)
      ]
    ]
