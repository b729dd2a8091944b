-- ===== src/Common/Rules.antt =====
-- Sets of lemmas for the tactics.
use the_convex_100_language.Common.Lists.{length-append, length-set, length-take, length-drop}

-- The lengths of lists that are put together or cut.
pub ruleset lengths = (length-append, length-set, length-take, length-drop)
