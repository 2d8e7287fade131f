-- ===== src/Sessions/Creation.antt =====
-- drm/DrmSessionManager.cpp: `getDrmSession`, `initializeDrmSession` and `createDrmSession`. The helper,
-- the factory, the sessions' own work and the callbacks are outside: a call takes their replies. The
-- build is the one without USE_OPENCDM_ADAPTER.
pub mod Getting
unfoldable pub use Getting.*
use middleware_player_interf.Common.{
  ℕ, Bool, true, false, ◌&&◌, List, [], ◌∷◌, Option, none, some, if◌then◌else◌, get_or, set,
}
use middleware_player_interf.Common.Bytes.{same_text, codes}
use middleware_player_interf.Sessions.{
  Bytes, KeyState, init, pending, ready, error, error_empty_session_id, SessionMgrState, inactive,
  active, KeyId, blank_key_id, DrmSession, DrmSessionContext, blank_context, Manager,
  update_session_state, profile_update, output_protection_flag, emit,
}
use middleware_player_interf.Sessions.Slots.{has_key, Selection, refused, selected, select_slot}
use middleware_player_interf.Sessions.Creation.Getting.{
  DrmHelper, Outside, Outcome, Fault, drm_sessionid_empty, drm_data_bind_failed, context_at,
  put_context, key_id_at, mark_failed, get_drm_session, drm_init_failed, failed_to_get_keyid,
}

-- What a call of `createDrmSession` returns (`none` is a null pointer), writes to `err`, and leaves.
pub record Created : Type 0 where
  pub session : Option DrmSession
  pub err : Option Fault
  pub manager : Manager

abbrev pub is_init : KeyState → Bool
is_init init = true
is_init _ = false

abbrev pub is_ready : KeyState → Bool
is_ready ready = true
is_ready _ = false

-- `initializeDrmSession`; the pointer of the slot is not null when it is called.
unfoldable pub init_fault : KeyState → Option Fault
init_fault init = none
init_fault error_empty_session_id = some drm_sessionid_empty
init_fault _ = some drm_data_bind_failed

unfoldable pub initialize_drm_session : Outside → DrmHelper → ℕ → DrmSession → Manager → Outcome
initialize_drm_session o h i s m =
    let made : DrmSession = o.generate_drm_session h.init_data m.custom_data s in
    record {
      code = made.state;
      err = init_fault made.state;
      selected_slot = some i;
      manager = put_context i (record (context_at i m) { drm_session = some made }) m;
    }

abbrev pub failed_creation : ℕ → Option Fault → Manager → Created
failed_creation i e m = record { session = none; err = e; manager = mark_failed i m }

-- A content security session that is valid is handed to the session.
unfoldable pub hand_over : Option ℕ → DrmSession → DrmSession
hand_over none s = s
hand_over (some id) s = record s { security_session = some id }

unfoldable pub licensed : ℕ → KeyState × (DrmSession × Option ℕ) → Manager → Created
licensed i (code, (s, security)) m =
    let after : Manager =
      put_context i (record (context_at i m) { drm_session = some s })
        (record m { security_session = security }) in
    let kept = hand_over security s in
    if is_ready code
    then record {
      session = some kept;
      err = none;
      manager = put_context i (record (context_at i m) { drm_session = some kept }) after;
    }
    else failed_creation i none after

unfoldable pub bind_session : Outside → DrmHelper → ℕ → DrmSession → Manager → Created
bind_session o h i s m =
    let bound : Outcome = initialize_drm_session o h i s m in
    let made : DrmSession = o.generate_drm_session h.init_data m.custom_data s in
    if is_init bound.code
    then (if m.config.is_fake_tune
        then failed_creation i none bound.manager
        else licensed i (o.acquire_license made m.security_session) bound.manager)
    else failed_creation i bound.err bound.manager

unfoldable pub bind_at : Outside → DrmHelper → ℕ → Option DrmSession → Manager → Created
bind_at o h i none m = record { session = none; err = none; manager = m }
bind_at o h i (some s) m = bind_session o h i s m

unfoldable pub bind_slot : Outside → DrmHelper → Option ℕ → Manager → Created
bind_slot o h none m = record { session = none; err = none; manager = m }
bind_slot o h (some i) m = bind_at o h i (context_at i m).drm_session m

abbrev pub session_at : Option ℕ → Manager → Option DrmSession
session_at none m = none
session_at (some i) m = (context_at i m).drm_session

-- `createDrmSession` from the result of `getDrmSession` on: the callback for the custom data, and what
-- the code of that result leads to.
unfoldable pub finish_by :
    Outside → DrmHelper → KeyState → Option ℕ → Option Fault → Manager → Created
finish_by o h ready slot e m = record { session = session_at slot m; err = e; manager = m }
finish_by o h init slot e m = bind_slot o h slot m
finish_by o h _ slot e m = record { session = none; err = e; manager = m }

unfoldable pub finish_creation : Outside → DrmHelper → Outcome → Created
finish_creation o h r =
    finish_by o h r.code r.selected_slot r.err
      (record r.manager { custom_data = o.content_update h.key (is_init r.code) })

-- The helper and the player are not null.
unfoldable pub create_in_state : SessionMgrState → Outside → DrmHelper → Manager → Created
create_in_state inactive o h m = record { session = none; err = none; manager = m }
create_in_state active o h m = finish_creation o h (get_drm_session o h false m)

unfoldable pub create_drm_session : Outside → DrmHelper → Manager → Created
create_drm_session o h m = create_in_state m.session_mgr_state o h m
