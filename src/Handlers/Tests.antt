-- ===== src/Handlers/Tests.antt =====
-- The theorems on the handlers at concrete uses.
use middleware_player_interf.Common.{true, some, ◌≡◌, refl, List, [], ◌∷◌, arith, All}
use middleware_player_interf.Handlers.{
  init, disable, count_scope, handler_end, wait_loop, get_scope_helper, empty_scope_helper,
  move_assign, move_construct, destroy,
}
use middleware_player_interf.Handlers.Counting.{
  Operation, get_scope, empty_scope, destroy_scope, move_scope, assign_scope, perform, perform_all,
  Counts, AreUses, no_scopes, perform_all-Counts,
}
use middleware_player_interf.Handlers.Quiet.{
  entered, System, begin, leave, here, next, no_handlers, quiet_after_wait, IsIdle,
}

abbrev uses : List Operation
uses = get_scope ∷ empty_scope ∷ assign_scope 1 0 ∷ move_scope 1 ∷ destroy_scope 2 ∷ []

uses-AreUses : AreUses uses no_scopes
unfolding perform get_scope_helper empty_scope_helper move_assign move_construct destroy count_scope
uses-AreUses = (tt, (tt, ((omega arith, omega arith), (omega arith, (omega arith, tt)))))

perform_all-Counts_example : Counts (perform_all uses no_scopes)
perform_all-Counts_example = perform_all-Counts uses uses-AreUses

-- One handler is there when the control is disabled; it ends, and another begins.
abbrev one : System
one = record { control = count_scope init; handlers = entered ∷ [] }

abbrev off : System
off = record { control = disable (count_scope init); handlers = entered ∷ [] }

abbrev empty : System
empty = record { control = handler_end (disable (count_scope init)); handlers = [] }

abbrev later : System
later = record {
  control = count_scope (handler_end (disable (count_scope init)));
  handlers = entered ∷ [];
}

seen : wait_loop empty.control.instance_count true [] ≡ some true
unfolding wait_loop handler_end disable count_scope init
seen = refl

quiet_after_wait_example : (empty.handlers ≡ []) × All IsIdle later.handlers
quiet_after_wait_example =
    quiet_after_wait {s = one} {t = empty} {u = later} (next (begin no_handlers) here)
      (next (leave (disable (count_scope init)) [] [] entered) here) (next (begin empty) here)
      (tt, tt) seen (tt, tt)
