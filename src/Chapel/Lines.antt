-- ===== src/Chapel/Lines.antt =====
-- `ct_read_line`, `ct_interrupt_fd` and `ct_write_line`: the lines of the adapter.
pub mod Ends
pub mod Reads
pub mod Writes
use the_convex_100_language.Common.{
  ℕ, zero, suc, ◌+◌, ◌-◌, Bool, true, false, not, ◌&&◌, ◌||◌, Option, none, some, List, [], ◌∷◌,
  ◌++◌, length, get_or, take, drop, ltb, leb, ◌==◌, if◌then◌else◌, Bytes,
}
use the_convex_100_language.Chapel.Buffer.{Buffer, empty_buffer, append}
use the_convex_100_language.Chapel.Utf8.{valid_text_boundary}

-- `poll` on the input and the interrupt pipe: an error, a signal, the time-out, or which of them is
-- ready.
pub data Polled : Type 0 where
  poll_failed poll_signal poll_timeout : Polled
  poll_ready : Bool → Bool → Polled

-- `read` of one byte.
pub data Got : Type 0 where
  at_end retry read_failed : Got
  byte : ℕ → Got

-- One pass of the inner loop: the interrupt flag, `poll`, `read` if it comes to it, and whether
-- `realloc` succeeds.
pub record Look : Type 0 where
  pub interrupted : Bool
  pub polled : Polled
  pub got : Got
  pub alloc : Bool

-- The results 1, 0, -1 and -2, and a call that still waits when the passes are used up.
pub data Line : Type 0 where
  line : Bytes → Line
  ended failed invalid waiting : Line

pub data Step : Type 0 where
  stop : Line → Step
  next : Buffer → Step
  complete : Step

-- After a `read`.
unfoldable pub take_byte : Buffer → ℕ → Got → Bool → Step
take_byte value limit at_end alloc = if length value.bytes == 0 then stop ended else complete
take_byte value limit retry alloc = next value
take_byte value limit read_failed alloc = stop failed
take_byte value limit (byte c) alloc =
    if c == 10
    then complete
    else elim (append value (c ∷ []) limit alloc) [ none ↦ stop failed | some value' ↦ next value' ]

unfoldable pub after_poll : Buffer → ℕ → Polled → Got → Bool → Step
after_poll value limit poll_failed got alloc = stop failed
after_poll value limit poll_signal got alloc = next value
after_poll value limit poll_timeout got alloc = next value
after_poll value limit (poll_ready pipe readable) got alloc =
    if pipe then stop failed else if readable then take_byte value limit got alloc else next value

unfoldable pub look_step : Buffer → ℕ → Look → Step
look_step value limit k =
    if k.interrupted then stop failed else after_poll value limit k.polled k.got k.alloc

-- `if (value.length && value.data[value.length - 1] == '\r') value.data[--value.length] = '\0'`
unfoldable pub strip_return : Bytes → Bytes
strip_return value =
    if not (length value == 0) && (get_or value (length value - 1) 0 == 13)
    then take (length value - 1) value
    else value

unfoldable pub finish_line : Bytes → Line
finish_line value =
    if valid_text_boundary (some (strip_return value)) (length (strip_return value)) true
    then line (strip_return value)
    else invalid

-- The loop; the passes that are left are for the next call.
unfoldable pub read_loop : Buffer → ℕ → List Look → Line × List Look
read_loop value limit [] = (waiting, [])
read_loop value limit (k ∷ looks) = elim (look_step value limit k) [
  | stop result ↦ (result, looks)
  | next value' ↦ read_loop value' limit looks
  | complete ↦ (finish_line value.bytes, looks)
]

-- `reader_fd` and `reader_interrupted`, with the descriptor that is shut down, if any.
pub record Reader : Type 0 where
  pub reader_fd : ℕ
  pub reader_interrupted : Bool
  pub shut_down : Option ℕ

-- The descriptor becomes the one that `ct_interrupt_fd` shuts down.
unfoldable pub ct_read_line : Reader → ℕ → ℕ → List Look → Reader × (Line × List Look)
ct_read_line r fd limit looks = (
  record r { reader_fd = fd },
  (if r.reader_interrupted then (failed, looks) else read_loop empty_buffer limit looks),
)

-- The byte in the interrupt pipe shows in what `poll` reports to the reader.
unfoldable pub ct_interrupt_fd : Reader → ℕ → Reader
ct_interrupt_fd r fd = record r {
  reader_interrupted = true;
  shut_down = if r.reader_fd == fd then some fd else r.shut_down;
}

-- One round of `ct_write_line`: whether the deadline is past, `poll` reports the descriptor writable,
-- and what `send` or `write` gives.
pub data Wrote : Type 0 where
  write_retry write_failed : Wrote
  wrote : ℕ → Wrote

pub record Push : Type 0 where
  pub late : Bool
  pub writable : Bool
  pub result : Wrote

-- The result 1 or 0 with what was written, or a call that still waits.
pub data Written : Type 0 where
  sent given_up stuck : Bytes → Written

abbrev pub after_write : Bytes → ℕ → Bytes → Wrote → (ℕ → Bytes → Written) → Written
after_write text offset out write_retry more = more offset out
after_write text offset out write_failed more = given_up out
after_write text offset out (wrote n) more =
    if offset == length text
    then sent (out ++ take n (10 ∷ []))
    else more (offset + n) (out ++ take n (drop offset text))

-- The loop `while (offset <= length)`; `out` is what was written.
unfoldable pub write_loop : Bytes → ℕ → Bytes → List Push → Written
write_loop text offset out [] = stuck out
write_loop text offset out (p ∷ pushes) =
    let round =
      after_write text offset out p.result (λ offset' out'. write_loop text offset' out' pushes) in
    if ltb (length text) offset
    then given_up out
    else if p.late || not p.writable
    then given_up out
    else round

-- The descriptor: whether it is a socket, whether its flags can be read, and O_NONBLOCK.
pub record Descriptor : Type 0 where
  pub is_socket : Bool
  pub has_flags : Bool
  pub nonblocking : Bool

abbrev pub restore_flags : Descriptor → Bool
restore_flags d = not d.is_socket && d.has_flags && not d.nonblocking

-- `fcntl` sets the flag for the loop, if that succeeds, and takes it back behind it.
unfoldable pub ct_write_line : Descriptor → Bytes → Bool → Bool → List Push → Written × Descriptor
ct_write_line d text terminated can_set pushes =
    let during = if restore_flags d then record d { nonblocking = true } else d in
    let after = if restore_flags d then record during { nonblocking = false } else during in
    if not (valid_text_boundary (some text) (length text) terminated)
    then (given_up [], d)
    else if restore_flags d && not can_set
    then (given_up [], d)
    else (write_loop text 0 [] pushes, after)
