-- ===== src/Client/Closing.antt =====
-- The parts of `convex_close` and `convex_debug_disconnect` of c/client/convex.c that look at the client
-- itself.
use the_convex_100_language.Common.{
  ℕ, ◌≡◌, refl, Bool, true, false, not, ◌||◌, Option, none, some, Bytes, text, arith, Bool-cases,
  inl, inr,
}
use the_convex_100_language.Client.Json.{JsonLib}
use the_convex_100_language.Client.Queue.Values.{Error, fail}
use the_convex_100_language.Client.Live.{Manager}
use the_convex_100_language.Client.Worker.{World}
use the_convex_100_language.Client.Api.{
  Client, Result, ok, err, ensure_live, is_empty, request_close, request_disconnect, subscribe,
}
use the_convex_100_language.Client.Http.{Request, Transfer, is_object, set_auth, convex_call}

module _ {J : Type 0} where
  -- The start of `convex_close`; the flag tells whether the call returns 1 at once.
  unfoldable pub begin_close : Client J → Client J × Bool
  begin_close c = elim c.live [
    | none ↦ (record c { closed = true }, true)
    | some w ↦ (
      record c { closed = true; live = some (record w { manager = request_close w.manager }) },
      false,
    )
  ]

  abbrev with_manager_of : Client J → World J → Result J (Manager J × ℕ) → Result J (Client J × ℕ)
  with_manager_of c w (err e) = err e
  with_manager_of c w (ok (m, n)) = ok (record c { live = some (record w { manager = m }) }, n)

  -- The start of `convex_debug_disconnect`, with the generation that it waits for.
  unfoldable pub begin_disconnect : Client J → Result J (Client J × ℕ)
  begin_disconnect c = elim c.live [
    | none ↦ err (fail (text "TransportError") (text "Live WebSocket is not connected") none)
    | some w ↦ with_manager_of c w (request_disconnect w.manager)
  ]

  -- A result that is an error.
  abbrev pub IsError : {A : Type 0} → Result J A → Type 0
  IsError (ok a) = ⊥
  IsError (err e) = Unit

  -- The error of a call that returns 0.
  abbrev pub Reports : Option (Error J) → Type 0
  Reports none = ⊥
  Reports (some e) = Unit

module _ {J : Type 0} (json : JsonLib J) where
  subscribe_closed :
      (d : Client J) (path : Bytes) (args : Option J) (x y z : Bool)
      → d.closed ≡ true
      → ((subscribe json d path args x y z).0 ≡ d) × IsError (subscribe json d path args x y z).1
  unfolding subscribe ensure_live
  subscribe_closed d path none x y z e = (refl, tt)
  subscribe_closed d path (some j) x y z e =
      elim (Bool-cases (is_empty path || not (is_object json (some j)))) [
        | inl bad ↦ rw bad (refl, tt)
        | inr good ↦ simp (good, e) (refl, tt)
      ]

  convex_call_closed :
      (network : Request J → Transfer) (d : Client J) (operation path : Bytes) (args : Option J)
      (x y z : Bool)
      → d.closed ≡ true
      → IsError (convex_call json network d operation path args x y z)
  unfolding convex_call
  convex_call_closed network d operation path none x y z e = rw (e, convex_call) tt
  convex_call_closed network d operation path (some j) x y z e = rw (e, convex_call) tt

  set_auth_closed :
      (d : Client J) (token : Option Bytes) (x : Bool)
      → d.closed ≡ true
      → ((set_auth d token x).0 ≡ d) × Reports (set_auth d token x).1
  unfolding set_auth
  set_auth_closed d token x e = simp e (refl, tt)

  begin_close_closed : (c : Client J) → (begin_close c).0.closed ≡ true
  unfolding begin_close
  begin_close_closed c = ground arith

  -- From the start of `convex_close` on, whether or not it completes, a new query, a call or a new
  -- token is refused with an error whatever its arguments; the query and the token leave the client as
  -- it is.
  pub begin_close_refuses :
      (network : Request J → Transfer) (c : Client J) (operation path : Bytes) (args : Option J)
      (token : Option Bytes) (x y z : Bool)
      → let d = (begin_close c).0 in
        ((subscribe json d path args x y z).0 ≡ d)
        × IsError (subscribe json d path args x y z).1
        × IsError (convex_call json network d operation path args x y z)
        × ((set_auth d token x).0 ≡ d)
        × Reports (set_auth d token x).1
  begin_close_refuses network c operation path args token x y z =
      let d = (begin_close c).0 in
      let e = begin_close_closed c in
      let (s1, s2) = subscribe_closed d path args x y z e in
      let (t1, t2) = set_auth_closed d token x e in
      (s1, s2, convex_call_closed network d operation path args x y z e, t1, t2)
