-- ===== src/Sessions/PsshTests.antt =====
-- The theorems on the Widevine helper at concrete boxes.
use middleware_player_interf.Common.{◌≡◌, ◌≢◌, refl, true, List, [], ◌∷◌, some, arith, replicate}
use middleware_player_interf.Sessions.{Bytes, blank_key_id, blank_context, construct}
use middleware_player_interf.Common.Search.{first_from}
use middleware_player_interf.Sessions.Slots.{
  find_slot, first_free, older, older_slot, choose_slot, select_new, select_slot_at, select_slot,
}
use middleware_player_interf.Sessions.Creation.{
  store_session, new_session, use_context, use_selection, get_for_key, get_drm_session,
  initialize_drm_session, hand_over, licensed, bind_session, bind_at, bind_slot, finish_by,
  finish_creation, create_in_state, create_drm_session,
}
use middleware_player_interf.Sessions.Returned.{IsHeld}
use middleware_player_interf.Sessions.Tests.{replies, two_slots, playing, same_size}
use middleware_player_interf.Sessions.Widevine.{
  new_helper, parsed, stuck, parse_pssh, key_at, WidevineHelper, widevine_helper,
}
use middleware_player_interf.Sessions.Pssh.{parse_pssh_ends, widevine_session-IsHeld}
use middleware_player_interf.Sessions.PsshBox.{pssh_of, parse_pssh-keys}

abbrev two_keys : List Bytes
two_keys = replicate 16 1 ∷ replicate 16 2 ∷ []

parse_pssh-keys_example :
    parse_pssh (pssh_of two_keys (8 ∷ 1 ∷ [])) new_helper
    ≡ parsed true
        (record new_helper { init_data = pssh_of two_keys (8 ∷ 1 ∷ []); key_ids = two_keys })
parse_pssh-keys_example =
    parse_pssh-keys (replicate 16 1) (replicate 16 2 ∷ []) (8 ∷ 1 ∷ []) (refl, (refl, tt))
      (omega arith)

-- The box with one key and no data that test/utests/tests/DrmOcdm/DrmHelperTests.cpp decodes.
one_key_box :
    pssh_of
      ((0x2D ∷ 0xB6 ∷ 0xC4 ∷ 0x8D ∷ 0x30 ∷ 0x1F ∷ 0x48 ∷ 0xEA ∷ 0xBB ∷ 0x77 ∷ 0x1B ∷ 0xA7 ∷ 0xA8
          ∷ 0xAC ∷ 0x90 ∷ 0x42 ∷ [])
        ∷ [])
      []
    ≡ 0 ∷ 0 ∷ 0 ∷ 0x34 ∷ 0x70 ∷ 0x73 ∷ 0x73 ∷ 0x68 ∷ 1 ∷ 0 ∷ 0 ∷ 0 ∷ 0xED ∷ 0xEF ∷ 0x8B ∷ 0xA9
      ∷ 0x79 ∷ 0xD6 ∷ 0x4A ∷ 0xCE ∷ 0xA3 ∷ 0xC8 ∷ 0x27 ∷ 0xDC ∷ 0xD5 ∷ 0x1D ∷ 0x21 ∷ 0xED ∷ 0 ∷ 0
      ∷ 0 ∷ 1 ∷ 0x2D ∷ 0xB6 ∷ 0xC4 ∷ 0x8D ∷ 0x30 ∷ 0x1F ∷ 0x48 ∷ 0xEA ∷ 0xBB ∷ 0x77 ∷ 0x1B ∷ 0xA7
      ∷ 0xA8 ∷ 0xAC ∷ 0x90 ∷ 0x42 ∷ 0 ∷ 0 ∷ 0 ∷ 0 ∷ []
one_key_box = refl

parse_pssh_ends_example : parse_pssh (pssh_of two_keys []) new_helper ≢ stuck
parse_pssh_ends_example = parse_pssh_ends (pssh_of two_keys []) new_helper

abbrev widevine : WidevineHelper
widevine = record new_helper { key_ids = (7 ∷ []) ∷ [] }

widevine-playing :
    (create_drm_session replies (widevine_helper widevine) two_slots).session ≡ some playing
unfolding create_drm_session create_in_state get_drm_session get_for_key select_slot select_slot_at
    find_slot first_from construct blank_key_id blank_context choose_slot older_slot first_free
    older select_new use_selection use_context new_session store_session finish_creation finish_by
    bind_slot bind_at bind_session initialize_drm_session licensed hand_over widevine_helper key_at
    new_helper
widevine-playing = refl

widevine_session-IsHeld_example :
    IsHeld
      (widevine_helper widevine).key
      playing
      (create_drm_session replies (widevine_helper widevine) two_slots).manager
widevine_session-IsHeld_example =
    widevine_session-IsHeld replies widevine playing two_slots same_size widevine-playing
