-- ===== src/Client/Send/Progress.antt =====
-- `ws_send_json`: the bytes that libcurl takes and the end of the loop.
use the_convex_100_language.Common.{ℕ, ◌≡◌, List, [], ◌∷◌, ◌++◌, take, Bytes}
use the_convex_100_language.Client.Send.{
  Write, accepted, later, failed, Round, Sending, delivered, SendCall,
}

-- The bytes that libcurl took in these calls.
abbrev pub on_wire : List SendCall → Bytes
on_wire [] = []
on_wire (c ∷ calls) = take c.took c.handed ++ on_wire calls

-- Only a call that returns CURLE_OK takes bytes.
abbrev Plain : Write → Type 0
Plain (accepted sent) = Unit
Plain (later sent what) = sent ≡ 0
Plain (failed sent what) = sent ≡ 0

abbrev pub IsPlain : Round → Type 0
IsPlain r = Plain r.write

-- How the bytes that libcurl took stand to the ones that were left.
abbrev pub TookSo : Bytes → Sending × List SendCall → Type 0
TookSo left r = ((n : ℕ) × (on_wire r.1 ≡ take n left)) × (r.0 ≡ delivered → on_wire r.1 ≡ left)
