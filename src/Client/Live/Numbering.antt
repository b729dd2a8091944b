-- ===== src/Client/Live/Numbering.antt =====
-- Query ids and addresses.
use the_convex_100_language.Common.{
  ℕ, ◌+◌, ◌%◌, ◌^◌, ◌≤◌, ◌<◌, ◌≡◌, ◌≢◌, refl, some, List, [], ◌∷◌, map, length, arith,
}
use the_convex_100_language.Client.Live.{Subscription, at, change, find_subscription}

module _ {J : Type 0} where
  -- Every subscription has the id and the sequence number of its place in the order of creation.
  abbrev pub Numbered : List (Subscription J) → Type 0
  Numbered [] = Unit {0}
  Numbered (s ∷ ss) =
      (s.query_id ≡ length ss % 2 ^ 32) × (s.add_sequence ≡ (length ss + 1) % 2 ^ 64) × Numbered ss

  pub length-change :
      (k : ℕ) (f : Subscription J → Subscription J) (ss : List (Subscription J))
      → length (change k f ss) ≡ length ss
  unfolding change
  length-change k f [] = refl
  length-change k f (s ∷ ss) = ground (arith, length-change k f ss)

  pub length-map :
      (f : Subscription J → Subscription J) (ss : List (Subscription J))
      → length (map f ss) ≡ length ss
  length-map f [] = refl
  length-map f (s ∷ ss) = omega (arith, length-map f ss)

  pub at-change_self :
      (k : ℕ) (f : Subscription J → Subscription J) (ss : List (Subscription J))
      (t : Subscription J)
      → at k ss ≡ some t
      → at k (change k f ss) ≡ some (f t)
  unfolding at change
  at-change_self k f [] t e = ground arith
  at-change_self k f (s ∷ ss) t e = ground (arith, at-change_self k f ss t, length-change k f ss)

  pub at-change_ne :
      (k j : ℕ) (f : Subscription J → Subscription J) (ss : List (Subscription J))
      → k ≢ j
      → at j (change k f ss) ≡ at j ss
  unfolding at change
  at-change_ne k j f [] ne = refl
  at-change_ne k j f (s ∷ ss) ne = ground (arith, at-change_ne k j f ss, length-change k f ss)

  -- Addresses are below the length of the list.
  pub at-lt :
      (k : ℕ) (ss : List (Subscription J)) (t : Subscription J) → at k ss ≡ some t → k < length ss
  unfolding at
  at-lt k [] t e = ground arith
  at-lt k (s ∷ ss) t e = ground (arith, at-lt k ss t)

  -- While at most 2^32 subscriptions were made, the subscription at an address is the one that is
  -- found under its id, and the id is the address.
  pub find_subscription-at :
      (k : ℕ) (ss : List (Subscription J)) (t : Subscription J)
      → Numbered ss
      → length ss ≤ 2 ^ 32
      → at k ss ≡ some t
      → (find_subscription t.query_id ss ≡ some k) × (t.query_id ≡ k)
  unfolding at find_subscription
  find_subscription-at k [] t n h e = ground arith
  find_subscription-at k (s ∷ ss) t n h e =
      let small : length ss % 2 ^ 32 ≡ length ss = omega arith in
      let rest = find_subscription-at k ss t n.2 (omega arith) in
      ground (arith, n.0, small, rest, at-lt k ss t)

  -- A change that keeps the numbers of a subscription keeps the numbering.
  pub Numbered-change :
      (k : ℕ) (f : Subscription J → Subscription J) (ss : List (Subscription J))
      → ((t : Subscription J)
          → ((f t).query_id ≡ t.query_id) × ((f t).add_sequence ≡ t.add_sequence))
      → Numbered ss
      → Numbered (change k f ss)
  unfolding change
  Numbered-change k f [] keep n = tt
  Numbered-change k f (s ∷ ss) keep n =
      ground (arith, keep s, Numbered-change k f ss keep n.2, length-change k f ss)

  pub Numbered-map :
      (f : Subscription J → Subscription J) (ss : List (Subscription J))
      → ((t : Subscription J)
          → ((f t).query_id ≡ t.query_id) × ((f t).add_sequence ≡ t.add_sequence))
      → Numbered ss
      → Numbered (map f ss)
  Numbered-map f [] keep n = tt
  Numbered-map f (s ∷ ss) keep n =
      ground (arith, keep s, Numbered-map f ss keep n.2, length-map f ss)
