-- ===== src/Client/Queue/Values.antt =====
-- `convex_error`, `convex_update` and their copies (c/client/convex.h and convex.c). JSON values are
-- shared by reference counts in the code and are plain values here.
use the_convex_100_language.Common.{Option, none, some, Bytes, text}

pub record Error (J : Type 0) : Type 0 where
  pub name : Option Bytes
  pub message : Option Bytes
  pub data_ : Option J
  pub logs : Option J

pub record Update (J : Type 0) : Type 0 where
  pub value : Option J
  pub logs : Option J
  pub error : Error J

abbrev pub or_text : Option Bytes → Bytes → Option Bytes
or_text none t = some t
or_text (some s) t = some s

module _ {J : Type 0} where
  abbrev pub no_error : Error J
  no_error = record { name = none; message = none; data_ = none; logs = none }

  -- `fail`, at a non-NULL `e`
  pub fail : Bytes → Bytes → Option J → Error J
  fail name message detail = record {
    name = some name;
    message = some message;
    data_ = detail;
    logs = none;
  }

  pub copy_error : Error J → Error J
  copy_error e = record e {
    name = or_text e.name (text "Error");
    message = or_text e.message (text "unknown error");
  }

  abbrev copy_if_named : Option Bytes → Error J → Error J
  copy_if_named none e = no_error
  copy_if_named (some _) e = copy_error e

  -- The copy that `enqueue_update_locked` writes into a slot.
  pub copy_update : Update J → Update J
  unfolding copy_error
  copy_update u = record u { error = copy_if_named u.error.name u.error }
