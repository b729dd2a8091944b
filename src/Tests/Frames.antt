-- ===== src/Tests/Frames.antt =====
-- The frames of the Awk extension.
use the_convex_100_language.Common.{
  ℕ, ◌≡◌, ◌≢◌, ◌↔◌, inl, refl, arith, true, false, Option, some, List, [], ◌∷◌, ◌++◌, replicate,
  set, drop, All, Bytes, text, same,
}
use the_convex_100_language.Extension.{Connection, blank, Status}
use the_convex_100_language.Extension.Slots.{allocate_slot, fresh}
use the_convex_100_language.Extension.Buffer.{buffer_reserve, grow}
use the_convex_100_language.Extension.Transport.{
  got, wait, late, wrote, write_wait, connection_write, Written, fill_pending, connection_read,
  connection_write_lem,
}
use the_convex_100_language.Extension.Frame.{incomplete, parse_frame}
use the_convex_100_language.Extension.Writer.{frame_bytes, size_bytes}
use the_convex_100_language.Extension.Writer.RoundTrip.{Delivers, write_parse}
use the_convex_100_language.Extension.Receiver.{Round, out_of_fuel, do_ws_recv}
use the_convex_100_language.Extension.Receiver.Total.{do_ws_recv_total}
use the_convex_100_language.Extension.Receiver.Bounded.{IsAssembling, IsSmallResult}
use the_convex_100_language.Extension.Receiver.Bounded.Loop.{do_ws_recv_bounded}
use the_convex_100_language.Extension.Receiver.Reassembly.{Gives, IsFrame, middle}
use the_convex_100_language.Extension.Receiver.Whole.{Arrives, begun_at, do_ws_recv_reassembles}
use the_convex_100_language.Extension.Utf8.{do_utf8_valid, IsScalar, encode_all}
use the_convex_100_language.Extension.Utf8.Exact.{do_utf8_valid_iff}
use the_convex_100_language.Extension.Timestamp.{
  Base64, decode_timestamp, do_ts_cmp, order_of, value, do_ts_cmp_lem,
}

abbrev table : List Connection
table = replicate 16 blank

first_is_free : allocate_slot table ≡ some (0, set table 0 fresh)
unfolding allocate_slot
first_is_free = refl

grown : buffer_reserve 4096 5000 true ≡ some 8192
unfolding buffer_reserve grow
grown = refl

connection_write_lem_example :
    Written blank
      (1 ∷ 2 ∷ 3 ∷ [])
      (connection_write blank (1 ∷ 2 ∷ 3 ∷ []) (wrote 2 ∷ write_wait late ∷ []))
connection_write_lem_example =
    connection_write_lem (wrote 2 ∷ write_wait late ∷ []) blank (1 ∷ 2 ∷ 3 ∷ [])

abbrev half : Connection
half = record blank { in_use = true; rbuf = 129 ∷ []; rcap = 131072 }

timed_out : fill_pending half true (wait late ∷ []) ≡ some (Status.timeout, half)
unfolding fill_pending buffer_reserve connection_read
timed_out = refl

half_incomplete : parse_frame half.rbuf false ≡ incomplete
unfolding parse_frame
half_incomplete = refl

abbrev mask : Bytes
mask = 11 ∷ 22 ∷ 33 ∷ 44 ∷ []

write_parse_example :
    Delivers true 1
      (104 ∷ 105 ∷ [])
      (9 ∷ [])
      (parse_frame (frame_bytes false true 1 mask (104 ∷ 105 ∷ []) ++ 9 ∷ []) true)
write_parse_example =
    write_parse true false 1 mask (104 ∷ 105 ∷ []) (9 ∷ []) refl refl
      (omega arith, (omega arith, tt))

do_ws_recv_total_example :
    do_ws_recv half (record { attempts = got (1 ∷ []) ∷ []; now = 7 } ∷ []) true 5 ≢ out_of_fuel
do_ws_recv_total_example =
    do_ws_recv_total half (record { attempts = got (1 ∷ []) ∷ []; now = 7 } ∷ []) true 5

half-IsAssembling : IsAssembling half
half-IsAssembling = record { frag_in = omega arith; opcode_in = omega arith }

do_ws_recv_bounded_example :
    IsSmallResult (do_ws_recv half (record { attempts = got (1 ∷ []) ∷ []; now = 7 } ∷ []) true 5)
do_ws_recv_bounded_example =
    do_ws_recv_bounded half (record { attempts = got (1 ∷ []) ∷ []; now = 7 } ∷ []) true 5
      half-IsAssembling

abbrev fragment : ℕ → Bytes × Bytes
fragment b = (mask, b ∷ [])

abbrev stream : Bytes
stream =
    frame_bytes true false 1 mask (65 ∷ [])
    ++ (middle true (fragment 66 ∷ []) ++ (frame_bytes true true 0 mask (67 ∷ []) ++ 9 ∷ []))

-- The first byte waits, and one read brings the others.
abbrev begun_stream : Connection
begun_stream = record blank { in_use = true; rbuf = 1 ∷ [] }

abbrev arrived : Round
arrived = record { attempts = got (drop 1 stream) ∷ []; now = 7 }

abbrev waiting_stream : Connection
waiting_stream = record begun_stream { rbuf = stream; rcap = 131072; frame_started_ms = 5 }

abbrev filled_stream : Connection
filled_stream = record waiting_stream { rbuf = (1 ∷ []) ++ drop 1 stream }

stream-Arrives : Arrives (begun_at begun_stream 5) (arrived ∷ []) waiting_stream
unfolding parse_frame fill_pending connection_read buffer_reserve grow frame_bytes size_bytes
stream-Arrives = (refl, (filled_stream, refl, refl))

piece-IsFrame : IsFrame (fragment 65)
piece-IsFrame = (refl, (omega arith, tt))

next-IsFrame : IsFrame (fragment 66)
next-IsFrame = (refl, (omega arith, tt))

last-IsFrame : IsFrame (fragment 67)
last-IsFrame = (refl, (omega arith, tt))

do_ws_recv_reassembles_example :
    Gives (do_ws_recv begun_stream ((arrived ∷ []) ++ []) true 5) 1 (65 ∷ 66 ∷ 67 ∷ []) (9 ∷ [])
do_ws_recv_reassembles_example =
    do_ws_recv_reassembles begun_stream waiting_stream (arrived ∷ []) [] 5 true 1 (fragment 65)
      (fragment 67) (fragment 66 ∷ []) (9 ∷ []) (inl refl) piece-IsFrame (next-IsFrame, tt)
      last-IsFrame (omega arith) refl (inl refl) stream-Arrives refl (refl, refl)

do_utf8_valid_iff_example :
    (do_utf8_valid (195 ∷ 169 ∷ []) ≡ true)
    ↔ ((cs : List ℕ) × All IsScalar cs × (encode_all cs ≡ 195 ∷ 169 ∷ []))
do_utf8_valid_iff_example = do_utf8_valid_iff (195 ∷ 169 ∷ []) (omega arith, (omega arith, tt))

-- A base64 library that knows two timestamps.
abbrev bytes_of_one : Bytes
bytes_of_one = 1 ∷ replicate 7 0

abbrev decode : Bytes → Option Bytes
decode s = elim (same s (text "AQAAAAAAAAA=")) [
  | true ↦ some (bytes_of_one ++ 0 ∷ [])
  | false ↦ some (replicate 9 0)
]

abbrev encode : Bytes → Bytes
encode bytes = elim (same bytes bytes_of_one) [
  | true ↦ text "AQAAAAAAAAA="
  | false ↦ text "AAAAAAAAAAA="
]

abbrev base64 : Base64
base64 = record { decode_block = decode; encode_block = encode }

decodes_one : decode_timestamp base64 (text "AQAAAAAAAAA=") ≡ some bytes_of_one
unfolding decode_timestamp same text
decodes_one = refl

decodes_zero : decode_timestamp base64 (text "AAAAAAAAAAA=") ≡ some (replicate 8 0)
unfolding decode_timestamp same text
decodes_zero = refl

do_ts_cmp_lem_example :
    do_ts_cmp base64 (text "AQAAAAAAAAA=") (text "AAAAAAAAAAA=")
    ≡ order_of (value 8 bytes_of_one) (value 8 (replicate 8 0))
do_ts_cmp_lem_example =
    do_ts_cmp_lem base64 (text "AQAAAAAAAAA=") (text "AAAAAAAAAAA=") bytes_of_one (replicate 8 0)
      decodes_one decodes_zero (ground arith) (ground arith)
