-- ===== src/Chapel/Url/Accepts.antt =====
-- The addresses that `ct_deployment_url` accepts, and what it makes of them.
use the_convex_100_language.Common.{
  ℕ, ◌≡◌, ◌↔◌, refl, sym, ap, ◌∙◌, Bool, true, false, ◌||◌, some, [], ◌∷◌, ◌++◌, length, drop,
  drop-length_append, ◌==◌, if◌then◌else◌, Bytes, text, starts_with, arith, Bool-cases, inl, inr,
}
use the_convex_100_language.Client.Http.{strip_slashes}
use the_convex_100_language.Client.Http.Url.{slashes, http_scheme, ws_scheme}
use the_convex_100_language.Chapel.Url.{
  authority_of, contains, only_slashes, suffix, address, ct_deployment_url,
}
use the_convex_100_language.Chapel.Url.Authority.{
  Authority, strip_slashes-Authority, authority_of-append, contains-append, contains-slashes,
  contains-plain, only_slashes-slashes, slashes-only, split_authority, authority_of-IsPlain,
}

abbrev refused : Bytes → Bool
refused rest =
    (length (authority_of rest) == 0)
    || (contains b'@' (authority_of rest) || (contains b'?' rest || contains b'#' rest))

accepted :
    (rest a : Bytes) (n : ℕ)
    → Authority rest a n
    → (authority_of rest ≡ a)
      × (refused rest ≡ false)
      × (only_slashes (drop (length (authority_of rest)) rest) ≡ true)
accepted rest a n (e, some', plain) =
    let same : authority_of rest ≡ a = ap authority_of e ∙ authority_of-append a n plain in
    let (at, question, hash) = contains-plain a plain in
    let question' : contains b'?' rest ≡ false =
      ap (contains b'?') e
      ∙ contains-append b'?' a (slashes n)
      ∙ rw question (contains-slashes b'?' n (omega arith)) in
    let hash' : contains b'#' rest ≡ false =
      ap (contains b'#') e
      ∙ contains-append b'#' a (slashes n)
      ∙ rw hash (contains-slashes b'#' n (omega arith)) in
    let over : drop (length (authority_of rest)) rest ≡ slashes n =
      rw (same, e) (drop-length_append a (slashes n)) in
    (same, rw (same, question', hash') (ground arith), rw over (only_slashes-slashes n))

found :
    (rest : Bytes)
    → refused rest ≡ false
    → only_slashes (drop (length (authority_of rest)) rest) ≡ true
    → Authority rest (authority_of rest) (length (drop (length (authority_of rest)) rest))
found rest fine over =
    let at : contains b'@' (authority_of rest) ≡ false = ground arith in
    (
      sym (split_authority rest) ∙ ap (λ b. authority_of rest ++ b) (slashes-only _ over),
      ground arith,
      authority_of-IsPlain rest at,
    )

-- The address that is made.
abbrev pub Made : Bytes → Bytes → Bool → Bytes → Type 0
Made scheme rest websocket url =
    (a : Bytes) × (n : ℕ) × Authority rest a n × (url ≡ scheme ++ (a ++ suffix websocket))

address-Made :
    (scheme rest url : Bytes) (websocket : Bool)
    → (address scheme rest websocket true ≡ some url) ↔ Made scheme rest websocket url
unfolding address
address-Made scheme rest url websocket = (there, back)
  where
    back : Made scheme rest websocket url → address scheme rest websocket true ≡ some url
    back (a, n, h, e) =
        let (same, fine, over) = accepted rest a n h in
        rw (fine, over)
          (ap some (
            ap (λ b. scheme ++ (b ++ suffix websocket)) (strip_slashes-Authority rest a n h)
            ∙ sym e))

    there : address scheme rest websocket true ≡ some url → Made scheme rest websocket url
    there h = elim (Bool-cases (refused rest)) [
      | inl e ↦ absurd (ground (arith, h, e))
      | inr e ↦ elim (Bool-cases (only_slashes (drop (length (authority_of rest)) rest))) [
        | inr e' ↦ absurd (ground (arith, h, e, e'))
        | inl e' ↦
            let f = found rest e e' in
            let u : url ≡ scheme ++ (strip_slashes rest ++ suffix websocket) =
              ground (arith, h, e, e') in
            (
              authority_of rest,
              length (drop (length (authority_of rest)) rest),
              f,
              u ∙ ap (λ b. scheme ++ (b ++ suffix websocket)) (strip_slashes-Authority rest _ _ f),
            )
      ]
    ]

starts_with-split : (s p : Bytes) → starts_with s p ≡ true → s ≡ p ++ drop (length p) s
unfolding starts_with
starts_with-split s [] h = refl
starts_with-split [] (y ∷ p) h = absurd (ground (arith, h))
starts_with-split (x ∷ s) (y ∷ p) h =
    let first : x ≡ y = ground arith in
    let others : starts_with s p ≡ true = ground arith in
    rw first (ap (◌∷◌ y) (starts_with-split s p others))

abbrev pub scheme_for : Bool → Bool → Bytes
scheme_for secure websocket = if websocket then ws_scheme secure else http_scheme secure

url_of-scheme :
    (secure websocket : Bool) (rest : Bytes)
    → ct_deployment_url (some (http_scheme secure ++ rest)) websocket true
      ≡ address (scheme_for secure websocket) rest websocket true
unfolding ct_deployment_url starts_with text
url_of-scheme true true rest = refl
url_of-scheme true false rest = refl
url_of-scheme false true rest = refl
url_of-scheme false false rest = refl

scheme-cases :
    (value url : Bytes) (websocket : Bool)
    → ct_deployment_url (some value) websocket true ≡ some url
    → (secure : Bool) × (rest : Bytes) × (value ≡ http_scheme secure ++ rest)
unfolding ct_deployment_url
scheme-cases value url websocket h = elim (Bool-cases (starts_with value (text "https://"))) [
  | inl e ↦ (true, _, starts_with-split value (text "https://") e)
  | inr e ↦ elim (Bool-cases (starts_with value (text "http://"))) [
    | inl e' ↦ (false, _, starts_with-split value (text "http://") e')
    | inr e' ↦ absurd (ground (arith, h, e, e'))
  ]
]

-- `ct_deployment_url` accepts exactly `http://` or `https://` with an authority and any number of slashes
-- behind it, when memory is there: the authority is not empty and has none of the characters `/?#@`.
-- The result is the scheme, or for the WebSocket the one that goes with it, the authority, and for the
-- WebSocket `/api/sync`.
pub ct_deployment_url_iff :
    (value url : Bytes) (websocket : Bool)
    → (ct_deployment_url (some value) websocket true ≡ some url) ↔ (
        (secure : Bool) × (rest : Bytes) × (value ≡ http_scheme secure ++ rest)
        × Made (scheme_for secure websocket) rest websocket url)
ct_deployment_url_iff value url websocket = (there, back)
  where
    back :
        ((secure : Bool) × (rest : Bytes) × (value ≡ http_scheme secure ++ rest)
          × Made (scheme_for secure websocket) rest websocket url)
        → ct_deployment_url (some value) websocket true ≡ some url
    back (secure, rest, e, made) =
        ap (λ v. ct_deployment_url (some v) websocket true) e
        ∙ url_of-scheme secure websocket rest
        ∙ (address-Made (scheme_for secure websocket) rest url websocket).1 made

    there :
        ct_deployment_url (some value) websocket true ≡ some url
        → (secure : Bool) × (rest : Bytes) × (value ≡ http_scheme secure ++ rest)
          × Made (scheme_for secure websocket) rest websocket url
    there h =
        let (secure, rest, e) = scheme-cases value url websocket h in
        let made = address-Made (scheme_for secure websocket) rest url websocket in
        (
          secure,
          rest,
          e,
          made.0 (
              sym (url_of-scheme secure websocket rest)
              ∙ ap (λ v. ct_deployment_url (some v) websocket true) (sym e)
              ∙ h),
        )
