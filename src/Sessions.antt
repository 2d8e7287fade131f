-- ===== src/Sessions.antt =====
-- drm/DrmSessionManager.h, drm/DrmSessionManager.cpp and the states of drm/DrmSession.h: the data of the
-- session manager and what clears it. The two arrays of slots are lists; `events` are the calls that go
-- out to the content security manager, the player and the helper, the last one at the end.
pub mod Slots
pub mod Creation
pub mod Watermark
pub mod Widevine
pub mod Pssh
pub mod PsshBox
pub mod Cached
pub mod Settled
pub mod Returned
pub mod Failed
pub mod Oldest
pub mod Sound
pub mod Kept
pub mod Shape
pub mod Speed
pub mod Silent
pub mod Told
mod Tests
mod PsshTests
use middleware_player_interf.Common.{
  ℕ, zero, suc, ◌+◌, ◌≡◌, Bool, true, false, ◌||◌, List, [], ◌∷◌, ◌++◌, Option, none, some, map,
  if◌then◌else◌, ◌==◌, replicate,
}
use middleware_player_interf.Common.Int.{ℤ, pos}
use middleware_player_interf.Common.Search.{first_from}

pub data KeyState : Type 0 where
  init pending ready error closed error_empty_session_id : KeyState

pub data SessionMgrState : Type 0 where
  inactive active : SessionMgrState

-- A key id, a key system and all other texts are lists of bytes.
abbrev pub Bytes : Type 0
Bytes = List ℕ

-- A slot of `cachedKeyIDs`. The time is in milliseconds since the epoch.
pub record KeyId : Type 0 where
  pub keys : List Bytes
  pub creation_time : ℕ
  pub is_failed_key_id : Bool
  pub is_primary_key_id : Bool

unfoldable pub blank_key_id : KeyId
blank_key_id = record {
  keys = [];
  creation_time = 0;
  is_failed_key_id = false;
  is_primary_key_id = false;
}

-- What the manager sees of a session: where it is, its key system, its state, the identifier of its
-- content security session (`none`: there is no valid one), and the flag of the output protection.
pub record DrmSession : Type 0 where
  pub address : ℕ
  pub key_system : Bytes
  pub state : KeyState
  pub security_session : Option ℕ
  pub output_protection : Bool

-- A slot of `drmSessionContexts`; `none` is NULL.
pub record DrmSessionContext : Type 0 where
  pub key_id : Bytes
  pub drm_session : Option DrmSession

unfoldable pub blank_context : DrmSessionContext
blank_context = record { key_id = []; drm_session = none }

pub record Config : Type 0 where
  pub use_sec_manager : Bool
  pub enable_pr_output_protection : Bool
  pub propagate_uri_param : Bool
  pub is_fake_tune : Bool
  pub is_wv_kid_workaround : Bool

pub data Event : Type 0 where
  update_session_state : ℕ → Bool → Event
  playback_speed_state : ℕ → ℤ → ℤ → Event
  video_window_size : ℕ → ℤ → ℤ → Event
  watermark_session_update : ℕ → ℕ → Bytes → Event
  profile_update output_protection_flag : Event

pub record Manager : Type 0 where
  pub drm_session_contexts : List DrmSessionContext
  pub cached_key_ids : List KeyId
  pub max_drm_sessions : ℕ
  pub session_mgr_state : SessionMgrState
  pub config : Config
  pub custom_data : Bytes
  pub security_session : Option ℕ
  pub is_video_on_mute : Bool
  pub current_speed : ℤ
  pub first_frame_seen : Bool
  pub events : List Event

-- The constructor; the configuration has no initial value.
unfoldable pub construct : ℕ → Config → Manager
construct n c = record {
  drm_session_contexts = replicate n blank_context;
  cached_key_ids = replicate n blank_key_id;
  max_drm_sessions = n;
  session_mgr_state = active;
  config = c;
  custom_data = [];
  security_session = none;
  is_video_on_mute = false;
  current_speed = pos 0;
  first_frame_seen = false;
  events = [];
}

unfoldable pub update_drm_config : Bool → Bool → Bool → Bool → Bool → Manager → Manager
update_drm_config sec pr uri fake wv m = record m {
  config = record {
    use_sec_manager = sec;
    enable_pr_output_protection = pr;
    propagate_uri_param = uri;
    is_fake_tune = fake;
    is_wv_kid_workaround = wv;
  };
}

abbrev pub emit : Event → Manager → Manager
emit e m = record m { events = m.events ++ (e ∷ []) }

-- A context without a session keeps the key that it had.
unfoldable pub clear_context : DrmSessionContext → DrmSessionContext
clear_context c = elim c.drm_session [ some s ↦ blank_context | none ↦ c ]

unfoldable pub clear_session_data : Manager → Manager
clear_session_data m = record m {
  drm_session_contexts = map clear_context m.drm_session_contexts;
  cached_key_ids = map (λ k. blank_key_id) m.cached_key_ids;
}

unfoldable pub set_session_mgr_state : SessionMgrState → Manager → Manager
set_session_mgr_state s m = record m { session_mgr_state = s }

unfoldable pub clear_failed_key_id : KeyId → KeyId
clear_failed_key_id k =
    if k.is_failed_key_id
    then record {
      keys = [];
      creation_time = 0;
      is_failed_key_id = false;
      is_primary_key_id = false;
    }
    else record k { is_primary_key_id = false }

unfoldable pub clear_failed_key_ids : Manager → Manager
clear_failed_key_ids m = record m { cached_key_ids = map clear_failed_key_id m.cached_key_ids }

-- The loop of `clearDrmSession` over both arrays.
unfoldable pub clear_sessions : Bool → List KeyId → List DrmSessionContext → List DrmSessionContext
clear_sessions force (k ∷ ks) (c ∷ cs) =
    (if k.is_failed_key_id || force then record c { drm_session = none } else c)
    ∷ clear_sessions force ks cs
clear_sessions force _ cs = cs

unfoldable pub clear_drm_session : Bool → Manager → Manager
clear_drm_session force m = record m {
  drm_session_contexts = clear_sessions force m.cached_key_ids m.drm_session_contexts;
}

unfoldable pub update_max_drm_sessions : ℕ → Manager → Manager
update_max_drm_sessions n m = if m.max_drm_sessions == n then m else record m {
  drm_session_contexts = replicate n blank_context;
  cached_key_ids = replicate n blank_key_id;
  max_drm_sessions = n;
}

-- `getSlotIdForSession`; `none` is -1. A null pointer finds the first slot without a session.
unfoldable pub same_session : Option ℕ → Option DrmSession → Bool
same_session none none = true
same_session (some a) (some s) = a == s.address
same_session _ _ = false

unfoldable pub get_slot_id_for_session : Option ℕ → Manager → Option ℕ
get_slot_id_for_session a m =
    first_from (λ c. same_session a c.drm_session) 0 m.drm_session_contexts
