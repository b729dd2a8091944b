-- ===== src/Extension/Slots.antt =====
-- The table of connections: `slot_for`, `allocate_slot` and `release_slot`.
use the_convex_100_language.Common.{
  ℕ, suc, ◌<◌, ◌≡◌, ◌↔◌, true, false, not, Option, none, some, List, [], ◌∷◌, get_elem?, set,
  length, All, ℤ, pos, negsuc, if◌then◌else◌, arith, leb, Option-cases, Bool-cases, inl, inr,
}
use the_convex_100_language.Extension.{Connection, blank, max_connections}

abbrev if_used : Option Connection → Option Connection
if_used none = none
if_used (some c) = if c.in_use then some c else none

-- The connection of a handle that was cast to `int`.
unfoldable pub slot_for : List Connection → ℤ → Option Connection
slot_for connections (negsuc n) = none
slot_for connections (pos n) =
    if leb max_connections n then none else if_used (get_elem? connections n)

abbrev pub fresh : Connection
fresh = record blank { in_use = true }

abbrev shift : Connection → Option (ℕ × List Connection) → Option (ℕ × List Connection)
shift c none = none
shift c (some (k, cs)) = some (suc k, c ∷ cs)

-- The first free slot, zeroed and taken.
unfoldable pub allocate_slot : List Connection → Option (ℕ × List Connection)
allocate_slot [] = none
allocate_slot (c ∷ cs) =
    let rest = allocate_slot cs in if not c.in_use then some (0, fresh ∷ cs) else shift c rest

-- The descriptor that is closed, if one is, and the slot.
unfoldable pub release_slot : Connection → Option ℕ × Connection
release_slot c = (if c.borrowed then none else c.fd, blank)

free_of :
    (cs : List Connection) (k : ℕ) (cs' : List Connection)
    → allocate_slot cs ≡ some (k, cs')
    → (c : Connection) × (get_elem? cs k ≡ some c)
      × (c.in_use ≡ false)
      × (cs' ≡ set cs k fresh)
      × (get_elem? cs' k ≡ some fresh)
      × (k < length cs)
unfolding allocate_slot
free_of [] k cs' e = absurd (ground arith)
free_of (c ∷ cs) k cs' e = elim (Bool-cases c.in_use) [
  | inr unused ↦ (c, ground arith, ground arith, ground arith, ground arith, ground arith)
  | inl used ↦ elim (Option-cases (allocate_slot cs)) [
    | inl full ↦ absurd (ground arith)
    | inr ((j, ds), found) ↦
        let (d, f1, f2, f3, f4, f5) = free_of cs j ds found in
        (d, ground arith, ground arith, ground arith, ground arith, ground arith)
  ]
]

-- In a table of sixteen `allocate_slot` takes a slot that was free, leaves every other as it was, and the handle that it
-- returns then names a fresh connection.
pub allocate_slot_lem :
    (cs : List Connection) (k : ℕ) (cs' : List Connection)
    → length cs ≡ max_connections
    → allocate_slot cs ≡ some (k, cs')
    → (slot_for cs (pos k) ≡ none) × (slot_for cs' (pos k) ≡ some fresh) × (cs' ≡ set cs k fresh)
unfolding slot_for
allocate_slot_lem cs k cs' n e = let (c, f1, f2, f3, f4, f5) = free_of cs k cs' e in ground arith

-- It fails exactly if every slot is in use.
pub allocate_slot-none_iff :
    (cs : List Connection) → (allocate_slot cs ≡ none) ↔ All (λ c. c.in_use ≡ true) cs
unfolding allocate_slot
allocate_slot-none_iff [] = ground arith
allocate_slot-none_iff (c ∷ cs) = elim (Option-cases (allocate_slot cs)) [
  | inl full ↦ ground (arith, allocate_slot-none_iff cs)
  | inr (found, e) ↦ ground (arith, allocate_slot-none_iff cs)
]
