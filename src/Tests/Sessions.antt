-- ===== src/Tests/Sessions.antt =====
-- Session ids and deadlines.
use the_convex_100_language.Common.{◌≡◌, some, length, get_or, replicate}
use the_convex_100_language.Client.Session.{session_id, IsVariant, session_id_form, Timespec}

session_id_form_example :
    let id = session_id (some (replicate 16 255)) 0 in
    (length id ≡ 36)
    × (get_or id 8 0 ≡ b'-')
    × (get_or id 13 0 ≡ b'-')
    × (get_or id 18 0 ≡ b'-')
    × (get_or id 23 0 ≡ b'-')
    × (get_or id 14 0 ≡ b'4')
    × IsVariant (get_or id 19 0)
session_id_form_example = session_id_form (some (replicate 16 255)) 0

abbrev clock : Timespec
clock = record { tv_sec = 10; tv_nsec = 999000000 }
