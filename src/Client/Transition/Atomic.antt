-- ===== src/Client/Transition/Atomic.antt =====
-- `handle_transition` as a whole: its checks, its refusals and the version.
use the_convex_100_language.Common.{
  ℕ, ◌^◌, ◌<◌, ◌≡◌, ◌↔◌, refl, true, Option, none, some, List, [], ◌∷◌, length, take, take-of_le,
  Bytes, text, same_iff, clip, ℤ, pos, negsuc, arith, All,
}
use the_convex_100_language.Client.Json.{JsonLib}
use the_convex_100_language.Client.Live.{Manager}
use the_convex_100_language.Client.Transition.{
  Version, Transition, as_uint32, state_version, validate_modification, validate_all, is_current,
  read_transition, commit, handle_transition,
}

-- What the manager's version fields can hold.
pub record IsVersion (v : Version) : Type 0 where
  pub query_set_in : v.query_set < 2 ^ 32
  pub identity_in : v.identity < 2 ^ 32
  pub timestamp_in : length v.timestamp < 128

as_uint32-lt : (z : ℤ) {n : ℕ} → as_uint32 z ≡ some n → n < 2 ^ 32
unfolding as_uint32
as_uint32-lt (pos n) e = ground arith
as_uint32-lt (negsuc n) e = ground arith

module _ {J : Type 0} (json : JsonLib J) where
  state_version-IsVersion :
      (root : Option J) (name : Bytes) (v : Version)
      → state_version json root name ≡ some v
      → IsVersion v
  unfolding state_version as_uint32
  state_version-IsVersion root name v e = ground arith

  pub read_transition-IsVersion :
      (message : Option J) (t : Transition json)
      → read_transition json message ≡ some t
      → IsVersion t.start × IsVersion t.finish
  unfolding read_transition
  read_transition-IsVersion message t e = ground (
    arith,
    state_version-IsVersion message (text "startVersion") t.start,
    state_version-IsVersion message (text "endVersion") t.finish,
  )

  -- Every element of the array passed `validate_modification`.
  abbrev pub AllValid : List (Option J) → Type 0
  AllValid = All (λ mod'. validate_modification json mod' ≡ none)

  pub validate_all_iff : (mods : List (Option J)) → (validate_all json mods ≡ none) ↔ AllValid mods
  unfolding validate_all
  validate_all_iff [] = (λ _. tt, λ _. refl)
  validate_all_iff (mod' ∷ mods) = ground (arith, validate_all_iff mods)

  -- A message that is refused changes nothing: no queue, no version, no subscription.
  pub handle_transition_atomic :
      (m : Manager J) (message : Option J) (reason : Bytes)
      → (handle_transition json m message).1 ≡ some reason
      → (handle_transition json m message).0 ≡ m
  unfolding handle_transition
  handle_transition_atomic m message reason e = ground arith

  -- When a message is taken: all its fields are there, its start version is the local version, and
  -- every modification is valid.
  pub record Acceptable (m : Manager J) (message : Option J) (t : Transition json) : Type 0 where
    pub reads : read_transition json message ≡ some t
    pub query_set_is : t.start.query_set ≡ m.remote_query_set
    pub identity_is : t.start.identity ≡ m.remote_identity
    pub timestamp_is : t.start.timestamp ≡ m.remote_ts
    pub valid : AllValid t.mods

  -- After a message is taken the local version is its end version, the timestamp included, so that
  -- exactly the messages that start there are current.
  pub handle_transition_version :
      (m : Manager J) (message : Option J) (t : Transition json) (v : Version)
      → Acceptable m message t
      → (is_current json (handle_transition json m message).0 v ≡ true) ↔ (v ≡ t.finish)
  unfolding handle_transition commit clip
  handle_transition_version m message t v a =
      let valid = (validate_all_iff t.mods).1 a.valid in
      let (_, fits) = read_transition-IsVersion message t a.reads in
      let whole : take 127 t.finish.timestamp ≡ t.finish.timestamp =
        take-of_le 127 t.finish.timestamp (omega arith) in
      ground (
        arith,
        a.reads,
        a.query_set_is,
        same_iff t.start.timestamp m.remote_ts,
        same_iff v.timestamp t.finish.timestamp,
        valid,
        whole,
      )
