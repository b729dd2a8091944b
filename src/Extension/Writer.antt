-- ===== src/Extension/Writer.antt =====
-- `ws_write_frame`: one frame out.
pub mod Headers
pub mod RoundTrip
use the_convex_100_language.Common.{
  ℕ, zero, suc, ◌+◌, ◌-◌, ◌*◌, ◌/◌, ◌%◌, ◌^◌, ◌≤◌, ◌<◌, ◌≡◌, ◌⊎◌, inl, inr, refl, sym, ap, ap₂, ◌∙◌,
  subst, Bool, true, false, not, ◌&&◌, ◌||◌, Option, none, some, List, [], ◌∷◌, ◌++◌, append_assoc,
  append-nil, length, get_or, take, drop, All, take-length_append, drop-length_append, ltb, leb,
  ◌==◌, if◌then◌else◌, Bytes, arith, Bool-cases, length-append, length-take, length-drop,
}
use the_convex_100_language.Client.Json.{is_some}
use the_convex_100_language.Extension.{
  Connection, Status, error, max_message, max_buffer, read_chunk,
}
use the_convex_100_language.Extension.Bits.{
  apply_mask, length-apply_mask, apply_mask-involutive, IsByte,
}
use the_convex_100_language.Extension.Frame.{
  Parsed, incomplete, violation, complete, sized, wide_length, read_length, is_control, is_data,
  is_legal, same_bool, read_payload, parse_frame,
}
use the_convex_100_language.Extension.Transport.{WriteAttempt, connection_write}

-- `header[1]` and the extended length, most significant byte first; `flag` is `mask_flag`, and the two
-- are joined by `|`, which adds, since the length takes seven bits.
unfoldable pub size_bytes : ℕ → ℕ → Bytes
size_bytes flag size =
    if ltb size 126
    then (flag + size) ∷ []
    else if ltb size 65536
    then (flag + 126) ∷ (size / 256) % 256 ∷ size % 256 ∷ []
    else (flag + 127)
      ∷ (size / 2 ^ 56) % 256
      ∷ (size / 2 ^ 48) % 256
      ∷ (size / 2 ^ 40) % 256
      ∷ (size / 2 ^ 32) % 256
      ∷ (size / 2 ^ 24) % 256
      ∷ (size / 2 ^ 16) % 256
      ∷ (size / 2 ^ 8) % 256
      ∷ size % 256
      ∷ []

abbrev pub mask_flag : Bool → ℕ
mask_flag server_role = if server_role then 0 else 128

abbrev pub first_byte : Bool → ℕ → ℕ
first_byte fin opcode = (if fin then 128 else 0) + opcode % 16

-- The frame: a client masks, a server does not.
unfoldable pub frame_bytes : Bool → Bool → ℕ → Bytes → Bytes → Bytes
frame_bytes server_role fin opcode mask payload =
    (first_byte fin opcode ∷ size_bytes (mask_flag server_role) (length payload))
    ++ (if server_role then payload else mask ++ apply_mask mask 0 payload)

-- The guards of the call.
abbrev pub is_sendable : Bool → ℕ → ℕ → Bool
is_sendable fin opcode size =
    (is_data opcode || is_control opcode)
    && leb size max_message
    && not (is_control opcode && (ltb 125 size || not fin))

abbrev mask_of : Option Bytes → Bytes
mask_of none = []
mask_of (some mask) = mask

-- `random` is the mask of `RAND_bytes`, if that succeeds; `alloc` tells whether `malloc` does. The
-- result has the status, the connection and the bytes that went out, and is `none` while the write
-- goes on.
unfoldable pub ws_write_frame :
    Connection
    → Bool
    → ℕ
    → Bytes
    → Option Bytes
    → Bool
    → List WriteAttempt
    → Option (Status × Connection × Bytes)
ws_write_frame c fin opcode payload random alloc attempts =
    let frame = frame_bytes c.server_role fin opcode (mask_of random) payload in
    let sending = connection_write c frame attempts in
    if not (is_sendable fin opcode (length payload))
    then some (error, c, [])
    else if not c.server_role && not (is_some random)
    then some (error, c, [])
    else if not alloc
    then some (error, c, [])
    else sending
