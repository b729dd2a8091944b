-- ===== src/Client/Worker/Snapshot.antt =====
-- The snapshot of the query set that a new connection starts with.
use the_convex_100_language.Common.{
  ℕ, zero, suc, ◌⊎◌, inl, inr, ◌+◌, ◌%◌, ◌^◌, ◌≤◌, ◌<◌, ◌≡◌, refl, some, none, List, [], ◌∷◌,
  length, ltb, if◌then◌else◌, arith,
}
use the_convex_100_language.Client.Live.{Subscription, at, active_count}
use the_convex_100_language.Client.Live.Numbering.{Numbered, length-map, at-lt}
use the_convex_100_language.Client.Worker.{World, snapshot}
use the_convex_100_language.Client.Worker.Invariant.{IsWorld}
use the_convex_100_language.Client.Worker.Scan.{added, settle, settle_one}
use the_convex_100_language.Client.Worker.Connect.{greeted, snapshot_sent}

module _ {J : Type 0} where
  at-sequence :
      (k : ℕ) (ss : List (Subscription J)) (s : Subscription J)
      → Numbered ss
      → at k ss ≡ some s
      → s.add_sequence ≡ (k + 1) % 2 ^ 64
  unfolding at
  at-sequence k [] s n e = absurd (ground arith)
  at-sequence k (t ∷ ss) s n e = ground (arith, at-sequence k ss s n.2)

  at-settle :
      (seq k : ℕ) (ss : List (Subscription J)) (s : Subscription J)
      → at k ss ≡ some s
      → at k (settle seq ss) ≡ some (settle_one seq s)
  unfolding at settle
  at-settle seq k [] s e = absurd (ground arith)
  at-settle seq k (t ∷ ss) s e =
      ground (arith, at-settle seq k ss s, length-map (settle_one seq) ss)

  greeted_place :
      (w : World J) (seq now : ℕ)
      → (greeted w none now).place ≡ snapshot seq
      → seq ≡ w.manager.next_add_sequence
  unfolding greeted
  greeted_place w seq now e = elim (zero_or_more (active_count w.manager.subscriptions)) [
    | inl none' ↦ absurd (ground arith)
    | inr (n, some') ↦ ground arith
  ]
    where
      zero_or_more : (n : ℕ) → (n ≡ 0) ⊎ ((m : ℕ) × (n ≡ suc m))
      zero_or_more zero = inl refl
      zero_or_more (suc m) = inr (m, refl)

  -- Between the snapshot of a new connection's query set and its delivery other threads may subscribe.
  -- After the delivery exactly the subscriptions that were there when the snapshot was taken count as
  -- added: a later one keeps what it has pending, so that its Add is still sent. This holds of any two
  -- states that satisfy the invariant, while fewer than 2^64 subscriptions were made.
  pub snapshot_exact :
      (before after : World J) (seq k now now' : ℕ) (s : Subscription J)
      → IsWorld before
      → IsWorld after
      → length before.manager.subscriptions ≤ length after.manager.subscriptions
      → length after.manager.subscriptions < 2 ^ 64
      → (greeted before none now).place ≡ snapshot seq
      → at k after.manager.subscriptions ≡ some s
      → at k (snapshot_sent after seq none now').manager.subscriptions
        ≡ some (if ltb k (length before.manager.subscriptions) then added s else s)
  unfolding snapshot_sent
  snapshot_exact before after seq k now now' s b a grows small taken there =
      let e = greeted_place before seq now taken in
      let listed = b.manager_ok.listed.next_seq in
      let own = at-sequence k after.manager.subscriptions s a.manager_ok.listed.numbered there in
      let low = at-lt k after.manager.subscriptions s there in
      let done' = at-settle seq k after.manager.subscriptions s there in
      let same' : seq ≡ length before.manager.subscriptions = omega (arith, e, listed) in
      let mine : s.add_sequence ≡ k + 1 = omega (arith, own, low) in
      ground (arith, done', same', mine)
