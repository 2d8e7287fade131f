-- ===== src/Sessions/Tests.antt =====
-- The theorems on the session manager at concrete calls.
use middleware_player_interf.Common.{
  ℕ, ◌≡◌, refl, Bool, true, false, List, [], ◌∷◌, Option, none, some, ◌⊎◌, inl, length, All,
}
use middleware_player_interf.Common.Int.{pos}
use middleware_player_interf.Common.Replay.{replay}
use middleware_player_interf.Common.Search.{first_from}
use middleware_player_interf.Sessions.{
  KeyState, init, ready, KeyId, blank_key_id, DrmSession, blank_context, Config, Manager, construct,
  update_session_state,
}
use middleware_player_interf.Sessions.Slots.{
  has_key, find_slot, first_free, older, older_slot, choose_slot, select_new, select_slot_at,
  select_slot, slot_status, is_key_id_processed,
}
use middleware_player_interf.Sessions.Creation.{
  DrmHelper, Outside, mark_failed, store_session, new_session, use_context, use_selection,
  get_for_key, get_drm_session, initialize_drm_session, hand_over, licensed, bind_session, bind_at,
  bind_slot, finish_by, finish_creation, create_in_state, create_drm_session,
}
use middleware_player_interf.Sessions.Watermark.{
  Position, send_speed, set_playback_speed_state, mute_of, set_video_mute, hide_of,
  hide_watermark_on_detach,
}
use middleware_player_interf.Sessions.Oldest.{IsPrimary, IsOldest, choose_slot-IsOldest}
use middleware_player_interf.Sessions.Returned.{IsHeld, returned_session-IsHeld}
use middleware_player_interf.Sessions.Failed.{attempts, IsRefusal, failed_key_is_refused}
use middleware_player_interf.Sessions.Speed
use middleware_player_interf.Sessions.Speed.{heard, heard_after}
use middleware_player_interf.Sessions.Told.{AreTimely, speed_is_told}
use middleware_player_interf.Sessions.Shape
use middleware_player_interf.Sessions.Shape.{IsShaped, perform_all-IsShaped}

abbrev plain : Config
plain = record {
  use_sec_manager = true;
  enable_pr_output_protection = false;
  propagate_uri_param = false;
  is_fake_tune = false;
  is_wv_kid_workaround = false;
}

abbrev helper : DrmHelper
helper = record { key = 7 ∷ []; keys = []; ocdm_system_id = 119 ∷ []; init_data = [] }

abbrev fresh : DrmSession
fresh = record {
  address = 4096;
  key_system = 119 ∷ [];
  state = init;
  security_session = none;
  output_protection = false;
}

-- A licence comes, with the content security session 3.
abbrev licence : DrmSession → Option ℕ → KeyState × (DrmSession × Option ℕ)
licence s a = (ready, (record s { state = ready }, some 3))

abbrev pub replies : Outside
replies = record {
  now = 50;
  wait_for_state = λ s. (false, s);
  get_drm_session = some fresh;
  generate_drm_session = λ d c s. s;
  content_update = λ k b. [];
  acquire_license = licence;
}

abbrev pub two_slots : Manager
two_slots = construct 2 plain

abbrev pub playing : DrmSession
playing = record fresh { state = ready; security_session = some 3 }

creates_playing : (create_drm_session replies helper two_slots).session ≡ some playing
unfolding create_drm_session create_in_state get_drm_session get_for_key select_slot select_slot_at
    find_slot first_from construct blank_key_id blank_context choose_slot older_slot first_free
    older select_new use_selection use_context new_session store_session finish_creation finish_by
    bind_slot bind_at bind_session initialize_drm_session licensed hand_over
creates_playing = refl

pub same_size : length two_slots.drm_session_contexts ≡ length two_slots.cached_key_ids
unfolding construct
same_size = refl

own_key : has_key (7 ∷ []) ((7 ∷ []) ∷ []) ≡ true
unfolding has_key
own_key = refl

returned_session-IsHeld_example :
    IsHeld (7 ∷ []) playing (create_drm_session replies helper two_slots).manager
returned_session-IsHeld_example =
    returned_session-IsHeld replies helper playing two_slots same_size own_key creates_playing

-- Three slots: the first one is primary, the others are 30 and 20 old.
abbrev slot : ℕ → Bool → KeyId
slot t p = record {
  keys = (t ∷ []) ∷ [];
  creation_time = t;
  is_failed_key_id = false;
  is_primary_key_id = p;
}

abbrev three : List KeyId
three = slot 10 true ∷ slot 30 false ∷ slot 20 false ∷ []

choose_slot-IsOldest_example :
    ((choose_slot three ≡ none) × All IsPrimary three)
    ⊎ ((i : ℕ) × (choose_slot three ≡ some i) × IsOldest three i)
choose_slot-IsOldest_example = choose_slot-IsOldest three

-- A slot that is older is taken although it is primary, where it stands behind one that is not.
primary_is_taken : choose_slot (slot 30 false ∷ slot 10 true ∷ []) ≡ some 1
unfolding choose_slot older_slot first_free first_from older blank_key_id
primary_is_taken = refl

abbrev failed : Manager
failed = mark_failed 0 (create_drm_session replies helper two_slots).manager

is_failed : is_key_id_processed (7 ∷ []) failed ≡ some false
unfolding mark_failed create_drm_session create_in_state get_drm_session get_for_key select_slot
    select_slot_at find_slot first_from construct blank_key_id blank_context choose_slot older_slot
    first_free older select_new use_selection use_context new_session store_session finish_creation
    finish_by bind_slot bind_at bind_session initialize_drm_session licensed hand_over
    is_key_id_processed slot_status has_key
is_failed = refl

failed_key_is_refused_example :
    IsRefusal failed
      (create_drm_session replies helper (attempts helper (replies ∷ replies ∷ []) failed))
failed_key_is_refused_example =
    failed_key_is_refused helper (replies ∷ replies ∷ []) replies failed is_failed

-- A factory that gives no session: null is returned, and the key counts as processed with success.
unmade_key_succeeds :
    is_key_id_processed
      (7 ∷ [])
      (create_drm_session (record replies { get_drm_session = none }) helper two_slots).manager
    ≡ some true
unfolding create_drm_session create_in_state get_drm_session get_for_key select_slot select_slot_at
    find_slot first_from construct blank_key_id blank_context choose_slot older_slot first_free
    older select_new use_selection use_context new_session store_session finish_creation finish_by
    is_key_id_processed slot_status has_key
unmade_key_succeeds = refl

perform_all-IsShaped_example : IsShaped (
    Shape.perform_all
      (Shape.create replies helper ∷ Shape.clear_failed ∷ Shape.update_max 3 ∷ [])
      (construct 2 plain))
perform_all-IsShaped_example =
    perform_all-IsShaped
      (Shape.create replies helper ∷ Shape.clear_failed ∷ Shape.update_max 3 ∷ []) 2 plain

abbrev vod : Position
vod = record { live = false; current_latency = pos 0; position_ms = pos 100 }

abbrev with_session : Manager
with_session = record two_slots { security_session = some 3 }

-- The session is created, and then muted, first frame and speed 4, unmuted.
abbrev calls : List Shape.Operation
calls =
    Shape.create replies helper
    ∷ Shape.watermark (Speed.mute vod true)
    ∷ Shape.watermark (Speed.speed vod (pos 4) true)
    ∷ Shape.watermark (Speed.mute vod false)
    ∷ []

not_seen : two_slots.first_frame_seen ≡ false
unfolding construct
not_seen = refl

calls-AreTimely : AreTimely calls two_slots
calls-AreTimely = (inl not_seen, (tt, (tt, (tt, tt))))

after_calls :
    let m : Manager = Shape.perform_all calls two_slots in
    (m.security_session ≡ some 3) × (m.is_video_on_mute ≡ false) × (m.first_frame_seen ≡ true)
unfolding Shape.perform_all Shape.perform Speed.perform set_video_mute mute_of
    set_playback_speed_state send_speed construct create_drm_session create_in_state get_drm_session
    get_for_key select_slot select_slot_at find_slot first_from choose_slot older_slot first_free
    older select_new use_selection use_context new_session store_session finish_creation finish_by
    bind_slot bind_at bind_session initialize_drm_session licensed hand_over blank_key_id
    blank_context
after_calls = (refl, refl, refl)

-- A session that is created behind the first frame has been sent no speed.
late_session_is_untold :
    let m : Manager =
      (create_drm_session replies helper
        (set_playback_speed_state vod (pos 4) true two_slots)).manager in
    (m.security_session ≡ some 3) × (m.first_frame_seen ≡ true) × (heard 3 m.events none ≡ none)
unfolding Shape.perform_all Shape.perform Speed.perform set_video_mute mute_of
    set_playback_speed_state send_speed construct create_drm_session create_in_state get_drm_session
    get_for_key select_slot select_slot_at find_slot first_from choose_slot older_slot first_free
    older select_new use_selection use_context new_session store_session finish_creation finish_by
    bind_slot bind_at bind_session initialize_drm_session licensed hand_over blank_key_id
    blank_context replay heard_after
late_session_is_untold = (refl, refl, refl)

speed_is_told_example :
    heard 3 (Shape.perform_all calls two_slots).events none
    ≡ some (Shape.perform_all calls two_slots).current_speed
speed_is_told_example =
    speed_is_told calls 3 two_slots not_seen calls-AreTimely after_calls.0 after_calls.1
      after_calls.2

-- An unmute after a detachment activates the session again, without a first frame.
detached_is_activated :
    (set_video_mute vod false (hide_watermark_on_detach with_session)).events
    ≡ update_session_state 3 false ∷ update_session_state 3 true ∷ []
unfolding set_video_mute mute_of set_playback_speed_state send_speed hide_watermark_on_detach
    hide_of construct
detached_is_activated = refl
