-- ===== src/Sessions/Creation/Getting.antt =====
-- drm/DrmSessionManager.cpp: `getDrmSession`, and what it sees of the outside.
use middleware_player_interf.Common.{
  ℕ, Bool, true, false, ◌&&◌, List, [], ◌∷◌, Option, none, some, if◌then◌else◌, get_or, set,
}
use middleware_player_interf.Common.Bytes.{same_text, codes}
use middleware_player_interf.Sessions.{
  Bytes, KeyState, init, pending, ready, error, KeyId, blank_key_id, DrmSession, DrmSessionContext,
  blank_context, Manager, update_session_state, profile_update, output_protection_flag, emit,
}
use middleware_player_interf.Sessions.Slots.{has_key, Selection, refused, selected, select_slot}

-- A helper: `getKey`, the values of `getKeys` in the order of their numbers, `ocdmSystemId`, and
-- `createInitData`.
pub record DrmHelper : Type 0 where
  pub key : Bytes
  pub keys : List Bytes
  pub ocdm_system_id : Bytes
  pub init_data : Bytes

-- The clock; what `waitForState` returns for a session and leaves of it; the session of the factory; what
-- `generateDRMSession` makes of a session; the callbacks for the custom data and for the licence, which
-- sees the session and the manager's content security session and may change both.
pub record Outside : Type 0 where
  pub now : ℕ
  pub wait_for_state : DrmSession → Bool × DrmSession
  pub get_drm_session : Option DrmSession
  pub generate_drm_session : Bytes → Bytes → DrmSession → DrmSession
  pub content_update : Bytes → Bool → Bytes
  pub acquire_license : DrmSession → Option ℕ → KeyState × (DrmSession × Option ℕ)

-- What the code writes to `err`.
pub data Fault : Type 0 where
  failed_to_get_keyid drm_init_failed drm_sessionid_empty drm_data_bind_failed : Fault

-- A code, what was written to `err` and to `selectedSlot`, if anything was, and the manager.
pub record Outcome : Type 0 where
  pub code : KeyState
  pub err : Option Fault
  pub selected_slot : Option ℕ
  pub manager : Manager

abbrev pub context_at : ℕ → Manager → DrmSessionContext
context_at i m = get_or m.drm_session_contexts i blank_context

abbrev pub put_context : ℕ → DrmSessionContext → Manager → Manager
put_context i c m = record m { drm_session_contexts = set m.drm_session_contexts i c }

abbrev pub key_id_at : ℕ → Manager → KeyId
key_id_at i m = get_or m.cached_key_ids i blank_key_id

unfoldable pub mark_failed : ℕ → Manager → Manager
mark_failed i m = record m {
  cached_key_ids = set m.cached_key_ids i (record (key_id_at i m) { is_failed_key_id = true });
}

abbrev pub playready_key_system : Bytes
playready_key_system = codes "com.microsoft.playready"

-- The end of `getDrmSession`: the factory's session is put in the slot.
unfoldable pub store_session : DrmHelper → ℕ → Option DrmSession → Manager → Outcome
store_session h i none m = record {
  code = error;
  err = some drm_init_failed;
  selected_slot = some i;
  manager = put_context i (record (context_at i m) { drm_session = none }) m;
}
store_session h i (some s) m =
    let protects =
      same_text h.ocdm_system_id playready_key_system && m.config.enable_pr_output_protection in
    let kept : DrmSession = if protects then record s { output_protection = true } else s in
    let stored : Manager = put_context i (record { key_id = h.key; drm_session = some kept }) m in
    record {
      code = s.state;
      err = none;
      selected_slot = some i;
      manager = if protects then emit output_protection_flag stored else stored;
    }

-- An old session is deleted before.
unfoldable pub new_session : Outside → DrmHelper → ℕ → Manager → Outcome
new_session o h i m =
    store_session h i o.get_drm_session
      (emit profile_update (put_context i (record (context_at i m) { drm_session = none }) m))

-- The content security session of a session that is used again becomes the manager's, where the manager
-- has none.
unfoldable pub activate : Option ℕ → Option ℕ → Manager → Manager
activate (some id) none m =
    emit (update_session_state id true) (record m { security_session = some id })
activate _ _ m = m

unfoldable pub give_up : ℕ → Manager → Outcome
give_up i m = record { code = error; err = none; selected_slot = some i; manager = mark_failed i m }

unfoldable pub waited : ℕ → Bool × DrmSession → Manager → Outcome
waited i (true, s) m = record {
  code = ready;
  err = none;
  selected_slot = some i;
  manager = put_context i (record (context_at i m) { drm_session = some s }) m;
}
waited i (false, s) m =
    give_up i (put_context i (record (context_at i m) { drm_session = some s }) m)

-- A session that is there for the same key system and a key of the slot, by its state.
unfoldable pub reuse_session : Outside → ℕ → DrmSession → KeyState → Manager → Outcome
reuse_session o i s ready m = record {
  code = ready;
  err = none;
  selected_slot = some i;
  manager = activate s.security_session m.security_session m;
}
reuse_session o i s init m = record { code = init; err = none; selected_slot = some i; manager = m }
reuse_session o i s pending m = waited i (o.wait_for_state s) m
reuse_session o i s _ m = give_up i m

unfoldable pub use_context : Outside → DrmHelper → ℕ → Option DrmSession → Manager → Outcome
use_context o h i none m = new_session o h i m
use_context o h i (some s) m =
    if same_text h.ocdm_system_id s.key_system
      && has_key (context_at i m).key_id (key_id_at i m).keys
    then reuse_session o i s s.state m
    else new_session o h i m

unfoldable pub use_selection : Outside → DrmHelper → Selection → Manager → Outcome
use_selection o h refused m = record { code = error; err = none; selected_slot = none; manager = m }
use_selection o h (selected i ks) m =
    use_context o h i (context_at i m).drm_session (record m { cached_key_ids = ks })

abbrev pub keys_or : List Bytes → Bytes → List Bytes
keys_or [] key = key ∷ []
keys_or (k ∷ ks) key = k ∷ ks

unfoldable pub get_for_key : Outside → DrmHelper → Bytes → Bool → Manager → Outcome
get_for_key o h [] primary m = record {
  code = error;
  err = some failed_to_get_keyid;
  selected_slot = none;
  manager = m;
}
get_for_key o h (b ∷ bs) primary m =
    use_selection o h (select_slot h.key (keys_or h.keys h.key) o.now primary m.cached_key_ids) m

unfoldable pub get_drm_session : Outside → DrmHelper → Bool → Manager → Outcome
get_drm_session o h primary m = get_for_key o h h.key primary m
