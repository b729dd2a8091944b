-- ===== src/Tests/Toy.antt =====
-- A small JSON library, to run the models with.
use the_convex_100_language.Common.{
  Bool, true, false, Option, none, some, List, [], ◌∷◌, Bytes, text, same, ℤ, pos, negsuc, ◌==◌,
  if◌then◌else◌,
}
use the_convex_100_language.Client.Json.{JsonType, JsonLib}

-- Arrays and objects are chains of items and members.
pub data Toy : Type 0 where
  nothing : Toy
  number : ℤ → Toy
  word : Bytes → Toy
  no_items : Toy
  item : Toy → Toy → Toy
  no_members : Toy
  field : Bytes → Toy → Toy → Toy

abbrev kind_of : Toy → JsonType
kind_of nothing = JsonType.null
kind_of (number _) = JsonType.int
kind_of (word _) = JsonType.string
kind_of no_items = JsonType.array
kind_of (item _ _) = JsonType.array
kind_of no_members = JsonType.object
kind_of (field _ _ _) = JsonType.object

abbrev or_null : Toy → Option Toy
or_null nothing = none
or_null (number z) = some (number z)
or_null (word s) = some (word s)
or_null no_items = some no_items
or_null (item a b) = some (item a b)
or_null no_members = some no_members
or_null (field k a b) = some (field k a b)

abbrev of_null : Option Toy → Toy
of_null none = nothing
of_null (some t) = t

abbrev get : Toy → Bytes → Option (Option Toy)
get (field k v rest) key =
    let later = get rest key in if same k key then some (or_null v) else later
get _ key = none

abbrev int_of : Toy → ℤ
int_of (number z) = z
int_of _ = pos 0

abbrev word_of : Toy → Bytes
word_of (word s) = s
word_of _ = []

abbrev items_of : Toy → List (Option Toy)
items_of (item a rest) = or_null a ∷ items_of rest
items_of _ = []

abbrev same_int : ℤ → ℤ → Bool
same_int (pos a) (pos b) = a == b
same_int (negsuc a) (negsuc b) = a == b
same_int _ _ = false

abbrev equals : Toy → Toy → Bool
equals nothing nothing = true
equals (number a) (number b) = same_int a b
equals (word a) (word b) = same a b
equals _ _ = false

abbrev pub object : List (Bytes × Option Toy) → Toy
object [] = no_members
object ((k, v) ∷ rest) = field k (of_null v) (object rest)

abbrev pub array : List (Option Toy) → Toy
array [] = no_items
array (v ∷ rest) = item (of_null v) (array rest)

-- It prints words only, and reads any text that is not empty as a successful answer of that word.
abbrev read : Bytes → Option Toy
read [] = none
read (c ∷ cs) = some (
    object
      ((text "status", some (word (text "success"))) ∷ (text "value", some (word (c ∷ cs))) ∷ []))

abbrev pub toy : JsonLib Toy
toy = record {
  get_type = kind_of;
  get_ex = get;
  get_int64 = int_of;
  get_string = word_of;
  elements = items_of;
  equal = equals;
  new_object = object;
  new_array = array;
  new_string = word;
  new_int64 = number;
  to_plain = word_of;
  parse = read;
}

abbrev pub describe : Bytes → Bytes
describe s = text "bad JSON"
