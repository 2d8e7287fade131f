-- ===== src/Handlers.antt =====
-- GstHandlerControl.h and GstHandlerControl.cpp: the count of the handlers that run, the scope helpers
-- that keep it, and the wait for their end. What the source does under `mSync` is one function.
pub mod Counting
pub mod Quiet
mod Tests
use middleware_player_interf.Common.{
  ℕ, zero, suc, ◌+◌, ◌-◌, ◌≡◌, ◌<◌, Bool, true, false, ◌&&◌, not, List, [], ◌∷◌, ◌++◌, Option, none,
  some, ◌==◌, if◌then◌else◌, length, get_or, set,
}

-- `instance_count` never gets below 0: `handlerEnd` puts it back there.
pub record Control : Type 0 where
  pub enabled : Bool
  pub instance_count : ℕ

unfoldable pub init : Control
init = record { enabled = true; instance_count = 0 }

unfoldable pub enable : Control → Control
enable c = record c { enabled = true }

unfoldable pub disable : Control → Control
disable c = record c { enabled = false }

-- `mInstanceCount--`, and 0 where that is negative.
unfoldable pub handler_end : Control → Control
handler_end c = record c { instance_count = c.instance_count - 1 }

-- The count of `getScopeHelper`.
unfoldable pub count_scope : Control → Control
count_scope c = record c { instance_count = c.instance_count + 1 }

-- The scope helpers of a program, by number: whether each refers to the control.
pub record Scopes : Type 0 where
  pub control : Control
  pub held : List Bool

-- `getScopeHelper`, and the default constructor
unfoldable pub get_scope_helper : Scopes → Scopes
unfolding count_scope
get_scope_helper s = record { control = count_scope s.control; held = s.held ++ (true ∷ []) }

unfoldable pub empty_scope_helper : Scopes → Scopes
empty_scope_helper s = record s { held = s.held ++ (false ∷ []) }

-- What the destructor and the assignment do to the helper that they find.
abbrev pub end_held : Bool → Control → Control
end_held true c = handler_end c
end_held false c = c

-- The destructor; a helper that is gone refers to nothing.
unfoldable pub destroy : ℕ → Scopes → Scopes
unfolding handler_end
destroy i s = record {
  control = end_held (get_or s.held i false) s.control;
  held = set s.held i false;
}

-- The constructor that moves from another helper.
unfoldable pub move_construct : ℕ → Scopes → Scopes
move_construct i s = record s { held = set s.held i false ++ (get_or s.held i false ∷ []) }

-- The assignment that moves from helper `j` to helper `i`, which may be the same.
unfoldable pub move_assign : ℕ → ℕ → Scopes → Scopes
unfolding handler_end
move_assign i j s = record {
  control = end_held (get_or s.held i false) s.control;
  held = set (set s.held i (get_or s.held j false)) j false;
}

-- `returnStraightAway`
unfoldable pub return_straight_away : ℕ → Scopes → Bool
return_straight_away i s = not (get_or s.held i false && s.control.enabled)

-- The loop of `waitForDone` and the test behind it. A round is what the loop finds when it has been
-- woken: the count, and whether there is time left. `none`: it still waits.
unfoldable pub wait_loop : ℕ → Bool → List (ℕ × Bool) → Option Bool
wait_loop count in_time [] = if not (count == 0) && in_time then none else some (count == 0)
wait_loop count in_time ((count', in_time') ∷ rounds) =
    let rest = wait_loop count' in_time' rounds in
    if not (count == 0) && in_time then rest else some (count == 0)
