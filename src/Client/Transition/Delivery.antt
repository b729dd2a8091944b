-- ===== src/Client/Transition/Delivery.antt =====
-- What one subscription sees of a Transition.
use the_convex_100_language.Common.{
  ℕ, ◌^◌, ◌≤◌, ◌<◌, ◌≡◌, ◌⊎◌, inl, inr, refl, sym, subst, Bool, true, false, ◌&&◌, Option, none,
  some, List, [], ◌∷◌, ◌++◌, length, arith, Option-cases, Bool-cases, ◌==◌, if◌then◌else◌,
  ℕ_discrete,
}
use the_convex_100_language.Client.Json.{JsonLib}
use the_convex_100_language.Client.Queue.Values.{Update, no_error, copy_update}
use the_convex_100_language.Client.Queue.Refine.{
  IsRing, contents, keep_last, enqueue_refines, enqueue-IsRing,
}
use the_convex_100_language.Client.Live.{
  Subscription, at, change, is_wanted, rehydrate, enqueue_update, find_subscription,
}
use the_convex_100_language.Client.Live.Numbering.{
  Numbered, at-change_self, at-change_ne, find_subscription-at, Numbered-change, length-change,
}
use the_convex_100_language.Client.Transition.{
  modification_query_id, same_value, apply_updated, apply_failed, apply_to, apply_modification,
  apply_all,
}

module _ {J : Type 0} (json : JsonLib J) where
  -- A subscription is found under an id that it has.
  find_subscription_lem :
      (id k : ℕ) (ss : List (Subscription J)) (s : Subscription J)
      → find_subscription id ss ≡ some k
      → at k ss ≡ some s
      → s.query_id ≡ id
  unfolding find_subscription at
  find_subscription_lem id k [] s e h = ground arith
  find_subscription_lem id k (t ∷ ss) s e h =
      ground (arith, find_subscription_lem id k ss s, find-lt id k ss)
    where
      find-lt :
          (id k : ℕ) (ss : List (Subscription J)) → find_subscription id ss ≡ some k → k < length ss
      find-lt id k [] e = ground arith
      find-lt id k (t ∷ ss) e = ground (arith, find-lt id k ss)

  pub apply_to_numbers :
      (mod' : Option J) (s : Subscription J)
      → ((apply_to json s mod').0.query_id ≡ s.query_id)
        × ((apply_to json s mod').0.add_sequence ≡ s.add_sequence)
  unfolding apply_to apply_updated apply_failed enqueue_update
  apply_to_numbers mod' s = ground arith

  abbrev pub change_by : Option J → Subscription J → Subscription J
  change_by mod' s = (apply_to json s mod').0

  pub apply_found :
      (mod' : Option J) (ss : List (Subscription J)) (id k : ℕ)
      → modification_query_id json mod' ≡ some id
      → find_subscription id ss ≡ some k
      → apply_modification json mod' ss ≡ change k (change_by mod') ss
  unfolding apply_modification
  apply_found mod' ss id k e h = ground arith

  -- Either no subscription has the modification's id, or one is changed.
  pub apply_cases :
      (mod' : Option J) (ss : List (Subscription J))
      → ((apply_modification json mod' ss ≡ ss)
          × ((id : ℕ) → modification_query_id json mod' ≡ some id → find_subscription id ss ≡ none))
        ⊎ ((id : ℕ) × (k : ℕ) × (modification_query_id json mod' ≡ some id)
            × (find_subscription id ss ≡ some k))
  unfolding apply_modification
  apply_cases mod' ss = elim (Option-cases (modification_query_id json mod')) [
    | inl e ↦ inl (ground arith, λ id h. ground arith)
    | inr (id, e) ↦ elim (Option-cases (find_subscription id ss)) [
      | inl e' ↦ inl (ground arith, λ i h. ground arith)
      | inr (k, e') ↦ inr (id, k, e, e')
    ]
  ]

  abbrev KeepsNumbers : List (Subscription J) → List (Subscription J) → Type 0
  KeepsNumbers ss us = Numbered us × (length us ≡ length ss)

  pub apply_modification-Numbered :
      (mod' : Option J) (ss : List (Subscription J))
      → Numbered ss
      → KeepsNumbers ss (apply_modification json mod' ss)
  apply_modification-Numbered mod' ss n = elim (apply_cases mod' ss) [
    | inl (e, _) ↦ subst (KeepsNumbers ss) (sym e) (n, refl)
    | inr (id, k, e, e') ↦ subst (KeepsNumbers ss) (sym (apply_found mod' ss id k e e')) (
      Numbered-change k (change_by mod') ss (apply_to_numbers mod') n,
      length-change k (change_by mod') ss,
    )
  ]

  -- What a subscription makes of the modifications in order: those with another id pass it by.
  abbrev pub is_for : ℕ → Option J → Bool
  is_for id mod' = elim (modification_query_id json mod') [ none ↦ false | some i ↦ i == id ]

  pub own : Subscription J → List (Option J) → Subscription J
  own s [] = s
  own s (mod' ∷ mods) = own (if is_for s.query_id mod' then (apply_to json s mod').0 else s) mods

  at-apply_modification :
      (mod' : Option J) (k : ℕ) (ss : List (Subscription J)) (s : Subscription J)
      → Numbered ss
      → length ss ≤ 2 ^ 32
      → at k ss ≡ some s
      → at k (apply_modification json mod' ss)
        ≡ some (if is_for s.query_id mod' then (apply_to json s mod').0 else s)
  at-apply_modification mod' k ss s n h e =
      let (finds, _) = find_subscription-at k ss s n h e in
      elim (apply_cases mod' ss) [
        | inl (same', others) ↦ ground (arith, others s.query_id)
        | inr (id, j, e1, e2) ↦ elim (ℕ_discrete id s.query_id) [
          | yes hit ↦
              ground
                (arith, apply_found mod' ss id j e1 e2, at-change_self k (change_by mod') ss s e)
          | no miss ↦ ground (
            arith,
            apply_found mod' ss id j e1 e2,
            find_subscription_lem id j ss s e2,
            at-change_ne j k (change_by mod') ss,
          )
        ]
      ]

  -- In a Transition each subscription undergoes exactly the modifications with its own id, in their
  -- order, whatever the others do, while the ids follow the order of creation and at most 2^32
  -- subscriptions were made.
  pub at-apply_all :
      (mods : List (Option J)) (k : ℕ) (ss : List (Subscription J)) (s : Subscription J)
      → Numbered ss
      → length ss ≤ 2 ^ 32
      → at k ss ≡ some s
      → at k (apply_all json mods ss) ≡ some (own s mods)
  unfolding apply_all own
  at-apply_all [] k ss s n h e = e
  at-apply_all (mod' ∷ mods) k ss s n h e =
      let (n', len) = apply_modification-Numbered mod' ss n in
      at-apply_all mods k (apply_modification json mod' ss) _ n' (omega arith)
        (at-apply_modification mod' k ss s n h e)

  -- A subscription that is being removed, or is closed, is not touched by any Transition.
  pub own_unwanted :
      (s : Subscription J) (mods : List (Option J)) → is_wanted s ≡ false → own s mods ≡ s
  unfolding own apply_to
  own_unwanted s [] e = refl
  own_unwanted s (mod' ∷ mods) e = ground (arith, own_unwanted s mods e)

  abbrev delivery : Option J → Option J → Update J
  delivery value logs = record { value = value; logs = logs; error = no_error }

  abbrev pub delivered : Subscription J → Option J → Option J → List (Option (Update J))
  delivered s value logs =
      keep_last (contents s.queue ++ some (copy_update (delivery value logs)) ∷ [])

  apply_updated_delivers :
      (s : Subscription J) (value logs : Option J)
      → IsRing s.queue
      → contents (apply_updated json s value logs).0.queue ≡ (
          if s.rehydrating && (s.has_last_value && same_value json s.last_value value)
          then contents s.queue
          else delivered s value logs)
  unfolding apply_updated enqueue_update
  apply_updated_delivers s value logs v =
      let test = s.rehydrating && (s.has_last_value && same_value json s.last_value value) in
      elim (Bool-cases test) [
        | inl e ↦ rw e refl
        | inr e ↦ rw e (enqueue_refines (copy_update (delivery value logs)) v)
      ]

  apply_updated_state :
      (s : Subscription J) (value logs : Option J)
      → let t = (apply_updated json s value logs).0 in
        (t.rehydrating ≡ false) × (t.has_last_value ≡ true) × (t.last_value ≡ value)
  unfolding apply_updated enqueue_update
  apply_updated_state s value logs = ground arith

  apply_updated-IsRing :
      (s : Subscription J) (value logs : Option J)
      → IsRing s.queue
      → IsRing (apply_updated json s value logs).0.queue
  unfolding apply_updated enqueue_update
  apply_updated-IsRing s value logs v =
      ground (arith, enqueue-IsRing (copy_update (delivery value logs)) v)

  -- After a disconnection the first value of a live query is delivered unless the query had a last
  -- value and the new value equals it; the value after that one is delivered, also if it repeats.
  pub rehydrate_delivers :
      (s : Subscription J) (first second logs logs' : Option J)
      → IsRing s.queue
      → is_wanted s ≡ true
      → let t = (apply_updated json (rehydrate s) first logs).0 in
        (contents t.queue ≡ (
          if s.has_last_value && same_value json s.last_value first
          then contents s.queue
          else delivered s first logs))
        × (contents (apply_updated json t second logs').0.queue ≡ delivered t second logs')
  rehydrate_delivers s first second logs logs' v wanted =
      let t = (apply_updated json (rehydrate s) first logs).0 in
      let valid : IsRing (rehydrate s).queue = ground arith in
      ground (
        arith,
        apply_updated_delivers (rehydrate s) first logs valid,
        apply_updated_state (rehydrate s) first logs,
        apply_updated_delivers t second logs' (apply_updated-IsRing (rehydrate s) first logs valid),
      )
