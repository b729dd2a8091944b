-- ===== src/Chapel/Url.antt =====
-- `ct_deployment_url`: the address of a deployment, or of its WebSocket.
pub mod Authority
pub mod Accepts
use the_convex_100_language.Common.{
  ℕ, Bool, true, false, not, ◌&&◌, ◌||◌, Option, none, some, List, [], ◌∷◌, ◌++◌, length, drop,
  ◌==◌, if◌then◌else◌, Bytes, text, starts_with,
}
use the_convex_100_language.Client.Http.{strip_slashes}

-- The characters of "/?#".
abbrev pub is_end : ℕ → Bool
is_end c = (c == b'/') || (c == b'?') || (c == b'#')

-- From the start to what `strpbrk(rest, "/?#")` finds.
unfoldable pub authority_of : Bytes → Bytes
authority_of [] = []
authority_of (c ∷ rest) = if is_end c then [] else c ∷ authority_of rest

-- `memchr` and `strchr`
unfoldable pub contains : ℕ → Bytes → Bool
contains c [] = false
contains c (x ∷ rest) = (x == c) || contains c rest

-- The loop over what follows the authority.
unfoldable pub only_slashes : Bytes → Bool
only_slashes [] = true
only_slashes (c ∷ rest) = (c == b'/') && only_slashes rest

abbrev pub suffix : Bool → Bytes
suffix websocket = if websocket then text "/api/sync" else []

-- What follows the scheme; the loop that takes off the slashes at the end is the one of `convex_new`.
unfoldable pub address : Bytes → Bytes → Bool → Bool → Option Bytes
address scheme rest websocket alloc =
    let authority = authority_of rest in
    if (length authority == 0)
      || (contains b'@' authority || (contains b'?' rest || contains b'#' rest))
    then none
    else if not (only_slashes (drop (length authority) rest))
    then none
    else if not alloc
    then none
    else some (scheme ++ (strip_slashes rest ++ suffix websocket))

-- NULL is `none`; `alloc` tells whether `malloc` succeeds. The address is shorter than 2 ^ 31 bytes, so
-- that the conversion of its length to `int` keeps it.
unfoldable pub ct_deployment_url : Option Bytes → Bool → Bool → Option Bytes
ct_deployment_url none websocket alloc = none
ct_deployment_url (some value) websocket alloc =
    if starts_with value (text "https://")
    then address (if websocket then text "wss://" else text "https://") (drop 8 value) websocket
        alloc
    else if starts_with value (text "http://")
    then address (if websocket then text "ws://" else text "http://") (drop 7 value) websocket alloc
    else none
