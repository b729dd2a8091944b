-- ===== src/Chapel/Command/Accepts.antt =====
-- The commands that `ct_validate_adapter_command` accepts.
use the_convex_100_language.Common.{
  ℕ, ◌≡◌, inl, inr, refl, sym, ap, ◌∙◌, subst, Bool, true, false, ◌||◌, Option, none, some, List,
  [], ◌∷◌, length, if◌then◌else◌, Bytes, text, same, same_iff, arith, Bool-cases,
}
use the_convex_100_language.Client.Json.{JsonLib, JsonType, is_type, is_some}
use the_convex_100_language.Chapel.Fields.{Tokened, parse_json}
use the_convex_100_language.Chapel.Command.{
  Verdict, has_fields, exact_fields, string_field, id_field, hello, call, subscribe, unsubscribe,
  auth, control, is_valid, read_id, judge, examine, ct_validate_adapter_command,
}
use the_convex_100_language.Chapel.Command.Keys.{has, distinct, no_others}

-- The fields of the operations of the protocol.
abbrev pub fields_of : Bytes → Option (List Bytes)
fields_of operation =
    if same operation (text "hello")
    then some hello
    else if same operation (text "query")
        || same operation (text "mutation")
        || same operation (text "action")
    then some call
    else if same operation (text "subscribe")
    then some subscribe
    else if same operation (text "unsubscribe")
    then some unsubscribe
    else if same operation (text "setAuth")
    then some auth
    else if same operation (text "debugDisconnect") || same operation (text "close")
    then some control
    else none

distinct-hello : distinct hello ≡ true
unfolding text same
distinct-hello = refl

distinct-call : distinct call ≡ true
unfolding text same
distinct-call = refl

distinct-subscribe : distinct subscribe ≡ true
unfolding text same
distinct-subscribe = refl

distinct-unsubscribe : distinct unsubscribe ≡ true
unfolding text same
distinct-unsubscribe = refl

distinct-auth : distinct auth ≡ true
unfolding text same
distinct-auth = refl

distinct-control : distinct control ≡ true
unfolding text same
distinct-control = refl

-- The member names of an object, as json-c counts and finds them.
pub record Members {J : Type 0} (json : JsonLib J) (object_length : J → ℕ) : Type 0 where
  pub names : J → List Bytes
  pub counts : (j : J) → object_length j ≡ length (names j)
  pub finds : (j : J) (k : Bytes) → is_some (json.get_ex j k) ≡ has (names j) k

module _ {J : Type 0} (json : JsonLib J) (object_length : J → ℕ)
    (m : Members json object_length) where
  has_fields-has :
      (root : J) (fields : List Bytes)
      → has_fields json object_length root fields ≡ true
      → (f : Bytes) → has fields f ≡ true
      → has (m.names root) f ≡ true
  unfolding has_fields
  has_fields-has root [] h f hf = absurd (ground arith)
  has_fields-has root (g ∷ fields) h f hf = elim (Bool-cases (same g f)) [
    | inl here ↦
        let first : has (m.names root) g ≡ true = sym (m.finds root g) ∙ ground arith in
        subst (λ k. has (m.names root) k ≡ true) ((same_iff g f).0 here) first
    | inr there ↦ has_fields-has root fields (ground arith) f (ground arith)
  ]

  both : (a b : Bool) → (a ≡ true → b ≡ true) → (b ≡ true → a ≡ true) → a ≡ b
  both true b h k = sym (h refl)
  both false true h k = k refl
  both false false h k = refl

  -- An object with exactly the fields has no other member.
  exact_fields-names :
      (root : J) (fields : List Bytes)
      → distinct fields ≡ true
      → exact_fields json object_length root fields ≡ true
      → (k : Bytes) → has (m.names root) k ≡ has fields k
  unfolding exact_fields
  exact_fields-names root fields d h k =
      let all = has_fields-has root fields (ground arith) in
      let counted = m.counts root in
      let as_many : length (m.names root) ≡ length fields = ground arith in
      let back = no_others fields (m.names root) d as_many all k in
      both (has (m.names root) k) (has fields k) back (all k)

  -- Each operation asks for its fields.
  is_valid-fields :
      (root : J) (operation : Bytes)
      → is_valid json object_length root operation ≡ true
      → (fields : List Bytes) × (fields_of operation ≡ some fields)
        × (distinct fields ≡ true)
        × (exact_fields json object_length root fields ≡ true)
  unfolding is_valid
  is_valid-fields root operation h = elim (Bool-cases (same operation (text "hello"))) [
    | inl e ↦ (hello, rw e refl, distinct-hello, ground arith)
    | inr e1 ↦
        elim (Bool-cases (
          same operation (text "query")
          || same operation (text "mutation")
          || same operation (text "action"))) [
            | inl e ↦ (call, rw (e1, e) refl, distinct-call, ground arith)
            | inr e2 ↦ elim (Bool-cases (same operation (text "subscribe"))) [
              | inl e ↦ (subscribe, rw (e1, e2, e) refl, distinct-subscribe, ground arith)
              | inr e3 ↦ elim (Bool-cases (same operation (text "unsubscribe"))) [
                | inl e ↦ (unsubscribe, rw (e1, e2, e3, e) refl, distinct-unsubscribe, ground arith)
                | inr e4 ↦ elim (Bool-cases (same operation (text "setAuth"))) [
                  | inl e ↦ (auth, rw (e1, e2, e3, e4, e) refl, distinct-auth, ground arith)
                  | inr e5 ↦
                      elim (Bool-cases (
                        same operation (text "debugDisconnect") || same operation (text "close"))) [
                          | inl e ↦ (
                            control,
                            rw (e1, e2, e3, e4, e5, e) refl,
                            distinct-control,
                            ground arith,
                          )
                          | inr e6 ↦ absurd (ground arith)
                        ]
                ]
              ]
            ]
          ]
  ]

  abbrev accepted : Bytes → Verdict
  accepted id = record { safe_id = some id; complaint = none }

  judge-accepts :
      (root : J) (id : Bytes) (i o : Option Bytes)
      → judge json object_length root i o ≡ accepted id
      → (i ≡ some id)
        × ((operation : Bytes) × (o ≡ some operation)
            × (is_valid json object_length root operation ≡ true))
  judge-accepts root id none o h = absurd (let c = ap (λ v. v.complaint) h in ground arith)
  judge-accepts root id (some i) none h = absurd (let c = ap (λ v. v.complaint) h in ground arith)
  judge-accepts root id (some i) (some o) h =
      let c = ap (λ v. v.complaint) h in
      let e = ap (λ v. v.safe_id) h in (e, (o, refl, ground arith))

  examine-accepts :
      (r : Option J) (id : Bytes)
      → examine json object_length r ≡ accepted id
      → (root : J) × (r ≡ some root)
        × (judge json object_length root
              (read_id json object_length root)
              (string_field json object_length root (text "op"))
            ≡ accepted id)
  examine-accepts none id h = absurd (let c = ap (λ v. v.complaint) h in ground arith)
  examine-accepts (some root) id h =
      elim (Bool-cases (is_type (json.get_type root) JsonType.object)) [
        | inl e ↦ (root, refl, rw e at h)
        | inr e ↦ absurd (let c = ap (λ v. v.complaint) (rw e at h) in ground arith)
      ]

  read_id-field :
      (root : J) (id : Bytes)
      → read_id json object_length root ≡ some id
      → (string_field json object_length root (text "id") ≡ some id)
        × (id_field json object_length root (text "id") ≡ true)
  unfolding read_id
  read_id-field root id h = elim (Bool-cases (id_field json object_length root (text "id"))) [
    | inl e ↦ (ground arith, e)
    | inr e ↦ absurd (ground arith)
  ]

  -- The object with its id, its operation and exactly the fields of the operation.
  abbrev pub Accepted : (Bytes → Tokened J) → Bytes → Bytes → Type 0
  Accepted parse_ex s id =
      (root : J) × (parse_json json parse_ex s ≡ some root)
      × (string_field json object_length root (text "id") ≡ some id)
      × (id_field json object_length root (text "id") ≡ true)
      × ((operation : Bytes) × (fields : List Bytes) × (string_field json object_length root
              (text "op")
            ≡ some operation)
          × (fields_of operation ≡ some fields)
          × ((k : Bytes) → has (m.names root) k ≡ has fields k))

  -- A command that is accepted is an object that names an operation of the protocol and has the fields
  -- of that operation, all of them and no other, and an id of 1 to 128 characters that are not all white
  -- space, which is handed back. The hypothesis is that json-c counts and finds the members of an
  -- object.
  pub ct_validate_adapter_command_accepts :
      (parse_ex : Bytes → Tokened J) (s id : Bytes)
      → ct_validate_adapter_command json object_length parse_ex s
        ≡ record { safe_id = some id; complaint = none }
      → Accepted parse_ex s id
  unfolding ct_validate_adapter_command
  ct_validate_adapter_command_accepts parse_ex s id h =
      let (root, parsed, judged) = examine-accepts (parse_json json parse_ex s) id h in
      let (i, (operation, op, valid)) = judge-accepts root id _ _ judged in
      let (id', counted) = read_id-field root id i in
      let (fields, of, apart, exact) = is_valid-fields root operation valid in
      (
        root,
        parsed,
        id',
        counted,
        (operation, fields, op, of, exact_fields-names root fields apart exact),
      )
