-- ===== src/Captions/Users.antt =====
-- closedcaptions/subtec/PlayerSubtecCCManager.cpp: the users of the manager. The counter of the
-- identifiers is an `int`, held as its bit pattern: beyond 2 ^ 31 - 1 the increment is undefined in C++, and
-- the model wraps.
use middleware_player_interf.Common.{
  ℕ, ◌+◌, ◌%◌, ◌^◌, Bool, true, false, List, [], ◌∷◌, ◌++◌, ◌==◌, if◌then◌else◌,
}
use middleware_player_interf.Captions.{CcManager, reset_channel, close}

-- `GetId`; until the counter wraps, a new identifier is the largest of the set.
unfoldable pub get_id : CcManager → CcManager × ℕ
get_id m =
    let next : ℕ = (m.id + 1) % 2 ^ 32 in
    (record m { id = next; id_set = m.id_set ++ (next ∷ []) }, next)

-- `erase`: the set without the identifier, and whether it was there.
unfoldable pub erase : ℕ → List ℕ → List ℕ × Bool
erase id [] = ([], false)
erase id (i ∷ is) =
    let (rest, found) = erase id is in if i == id then (is, true) else (i ∷ rest, found)

abbrev close_hal : CcManager → CcManager
close_hal m =
    if m.hal_initialized then record (close m) { hal_initialized = false; cc_handle = 0 } else m

-- What `Release` does when no user is left.
unfoldable pub release_all : CcManager → CcManager
release_all m = record (close_hal (reset_channel m)) {
  trickplay_started = false;
  parental_ctrl_locked = false;
}

unfoldable pub release_erased : List ℕ × Bool → CcManager → CcManager
release_erased (is, false) m = m
release_erased ([], true) m = release_all (record m { id_set = [] })
release_erased (i ∷ is, true) m = record m { id_set = i ∷ is }

unfoldable pub release : ℕ → CcManager → CcManager
release id m = release_erased (erase id m.id_set) m
