-- ===== src/Sessions/Slots.antt =====
-- drm/DrmSessionManager.cpp: the search for the slot of a key id, and the choice of the slot that a new
-- key id takes.
use middleware_player_interf.Common.{
  ℕ, suc, Bool, true, false, ◌&&◌, not, List, [], ◌∷◌, Option, none, some, if◌then◌else◌, ltb,
  get_or, set, drop,
}
use middleware_player_interf.Common.Bytes.{same_text}
use middleware_player_interf.Common.Search.{first_from}
use middleware_player_interf.Sessions.{Bytes, KeyId, blank_key_id, Manager}

-- `std::find` over a vector of key ids, compared with its end.
unfoldable pub has_key : Bytes → List Bytes → Bool
has_key key [] = false
has_key key (k ∷ ks) = let rest = has_key key ks in if same_text k key then true else rest

abbrev pub is_empty : List Bytes → Bool
is_empty [] = true
is_empty (k ∷ ks) = false

-- The loop over the slots that stops at the first one with the key.
abbrev pub slot_has : Bytes → KeyId → Bool
slot_has key k = not (is_empty k.keys) && has_key key k.keys

unfoldable pub find_slot : Bytes → List KeyId → Option ℕ
find_slot key ks = first_from (slot_has key) 0 ks

-- `IsKeyIdProcessed`: `none` where the key is not cached, else the status.
unfoldable pub slot_status : List KeyId → Option ℕ → Option Bool
slot_status ks none = none
slot_status ks (some i) = some (not (get_or ks i blank_key_id).is_failed_key_id)

unfoldable pub is_key_id_processed : Bytes → Manager → Option Bool
is_key_id_processed key m = slot_status m.cached_key_ids (find_slot key m.cached_key_ids)

-- The first slot that is not primary.
unfoldable pub first_free : List KeyId → Option ℕ
first_free ks = first_from (λ k. not k.is_primary_key_id) 0 ks

-- The loop from `index` on that moves to each older slot; `slot` and `time` are those of the moment.
unfoldable pub older : ℕ → ℕ → ℕ → List KeyId → ℕ
older index slot time [] = slot
older index slot time (k ∷ ks) =
    let is_older = ltb k.creation_time time in
    older (suc index) (if is_older then index else slot)
      (if is_older then k.creation_time else time) ks

unfoldable pub older_slot : List KeyId → Option ℕ → Option ℕ
older_slot ks none = none
older_slot ks (some i) =
    some (older (suc i) i (get_or ks i blank_key_id).creation_time (drop (suc i) ks))

unfoldable pub choose_slot : List KeyId → Option ℕ
choose_slot ks = older_slot ks (first_free ks)

-- What the part of `getDrmSession` under `cachedKeyMutex` comes to: `KEY_ERROR`, or a slot and the array
-- as it is then.
pub data Selection : Type 0 where
  refused : Selection
  selected : ℕ → List KeyId → Selection

unfoldable pub select_cached : ℕ → Bool → ℕ → List KeyId → Selection
select_cached now primary i ks =
    if (get_or ks i blank_key_id).is_failed_key_id
    then refused
    else selected i (
        set ks i
          (record (get_or ks i blank_key_id) { creation_time = now; is_primary_key_id = primary }))

unfoldable pub select_new : List Bytes → ℕ → Bool → List KeyId → Option ℕ → Selection
select_new keys now primary ks none = refused
select_new keys now primary ks (some i) = selected i (
    set ks i (record {
      keys = keys;
      creation_time = now;
      is_failed_key_id = false;
      is_primary_key_id = primary;
    }))

unfoldable pub select_slot_at : List Bytes → ℕ → Bool → List KeyId → Option ℕ → Selection
select_slot_at keys now primary ks none = select_new keys now primary ks (choose_slot ks)
select_slot_at keys now primary ks (some i) = select_cached now primary i ks

unfoldable pub select_slot : Bytes → List Bytes → ℕ → Bool → List KeyId → Selection
select_slot key keys now primary ks = select_slot_at keys now primary ks (find_slot key ks)
