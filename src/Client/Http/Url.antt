-- ===== src/Client/Http/Url.antt =====
-- The client's URL and the URL of its WebSocket.
use the_convex_100_language.Common.{
  ℕ, zero, suc, ◌-◌, ◌≤◌, ◌<◌, ◌≡◌, refl, sym, ap, ◌∙◌, Bool, true, false, [], ◌∷◌, ◌++◌,
  append-nil, append_assoc, length, length-append, length-take, take, take-of_le, replicate, Bytes,
  text, starts_with, clip, arith, split_last, Bool-cases, inl, inr,
}
use the_convex_100_language.Client.Api.{Client}
use the_convex_100_language.Client.Http.{ends_in_slash, strip_rounds, strip_slashes, sync_url}

abbrev pub slashes : ℕ → Bytes
slashes n = replicate n b'/'

slashes_more : (n : ℕ) → slashes n ++ slashes 1 ≡ slashes (suc n)
slashes_more zero = refl
slashes_more (suc n) = ap (◌∷◌ b'/') (slashes_more n)

-- The URL is what is left and slashes, and what is left does not end in one.
abbrev pub Strips : Bytes → Bytes → Type 0
Strips url r = (n : ℕ) × (url ≡ r ++ slashes n) × (ends_in_slash r ≡ false)

cut-Strips :
    (url r : Bytes) → ends_in_slash url ≡ true → Strips (take (length url - 1) url) r → Strips url r
cut-Strips url r e (n, cut, clean) =
    let whole : url ≡ take (length url - 1) url ++ slashes 1 =
      split_last (length url - 1) url 0 b'/' (ground arith) (ground arith) in
    let joined = ap (λ xs. xs ++ slashes 1) cut ∙ append_assoc r (slashes n) (slashes 1) in
    (suc n, whole ∙ joined ∙ ap (λ xs. r ++ xs) (slashes_more n), clean)

strip_rounds-Strips : (n : ℕ) (url : Bytes) → length url ≤ n → Strips url (strip_rounds n url)
unfolding strip_rounds
strip_rounds-Strips zero [] h = (0, refl, refl)
strip_rounds-Strips zero (c ∷ url) h = absurd (omega arith)
strip_rounds-Strips (suc n) url h = elim (Bool-cases (ends_in_slash url)) [
  | inl e ↦
      rw (e, strip_rounds)
        (cut-Strips url (strip_rounds n (take (length url - 1) url)) e (
          strip_rounds-Strips n (take (length url - 1) url)
            (omega (arith, length-take (length url - 1) url))))
  | inr e ↦ rw (e, strip_rounds) (0, sym (append-nil url), e)
]

-- `convex_new` takes off all the slashes at the end of the URL, and nothing else.
pub strip_slashes-Strips : (url : Bytes) → Strips url (strip_slashes url)
unfolding strip_slashes
strip_slashes-Strips url = strip_rounds-Strips (length url) url (omega arith)

-- The schemes of the client's URL and of its WebSocket.
abbrev pub http_scheme : Bool → Bytes
http_scheme true = text "https://"
http_scheme false = text "http://"

abbrev pub ws_scheme : Bool → Bytes
ws_scheme true = text "wss://"
ws_scheme false = text "ws://"

uncut : (n : ℕ) (s : Bytes) → length s < n → clip n s ≡ s
unfolding clip
uncut n s h = take-of_le (n - 1) s (omega arith)

-- The buffer is large enough for the WebSocket's URL, which has the host and path of the client's URL
-- and the scheme that goes with it.
pub sync_url_lem :
    {J : Type 0} (c : Client J) (secure : Bool) (host : Bytes)
    → c.url ≡ http_scheme secure ++ host
    → sync_url c ≡ ws_scheme secure ++ (host ++ text "/api/sync")
unfolding sync_url text starts_with
sync_url_lem c true host e =
    rw (e, sync_url) (uncut _ _ (omega (arith, length-append host (text "/api/sync"))))
sync_url_lem c false host e =
    rw (e, sync_url) (uncut _ _ (omega (arith, length-append host (text "/api/sync"))))
