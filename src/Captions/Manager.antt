-- ===== src/Captions/Manager.antt =====
-- closedcaptions/PlayerCCManager.cpp and subtec/PlayerSubtecCCManager.cpp: the operations of the manager.
-- The build has the subtitles' support.
use middleware_player_interf.Common.{
  ℕ, Bool, true, false, ◌&&◌, ◌||◌, not, List, [], ◌∷◌, Option, none, some, ◌==◌, if◌then◌else◌,
}
use middleware_player_interf.Common.Bytes.{codes, same_text}
use middleware_player_interf.Captions.{
  Text, Replies, TrackInfo, CcManager, blank_manager, init_hal, init_packet_sender, cc_show,
  cc_hide, cc_set_digital_channel, cc_set_analog_channel,
}
use middleware_player_interf.Captions.Styling.{set_style_now}
use middleware_player_interf.Captions.Tracks.{
  CcFormat, format_default, Selection, digital, analog, ignored, parse_track, override, select,
}

abbrev hal_result : CcManager × Bool → CcManager
hal_result (m, ok) = if ok then record m { hal_initialized = true; handle_updated = false } else m

unfoldable pub ensure_hal_initialized : Replies → CcManager → CcManager
ensure_hal_initialized r m =
    if not m.hal_initialized || m.handle_updated then hal_result (init_hal r m) else m

abbrev comms_of : CcManager × Bool → CcManager
comms_of (m, ok) = if ok then record m { renderer_initialized = true } else m

unfoldable pub ensure_renderer_comms_initialized : Replies → CcManager → CcManager
ensure_renderer_comms_initialized r m =
    if not m.renderer_initialized then comms_of (init_packet_sender r m) else m

unfoldable pub ensure_initialized : Replies → CcManager → CcManager
ensure_initialized r m = ensure_renderer_comms_initialized r (ensure_hal_initialized r m)

unfoldable pub start : Replies → CcManager → CcManager
start r m = cc_show (ensure_initialized r m)

unfoldable pub stop : Replies → CcManager → CcManager
stop r m = cc_hide (ensure_renderer_comms_initialized r m)

unfoldable pub start_or_stop : Replies → Bool → CcManager → CcManager
start_or_stop r true m = start r m
start_or_stop r false m = stop r m

unfoldable pub set_style : Replies → Text → CcManager → CcManager × Bool
set_style r options m = set_style_now r options (ensure_renderer_comms_initialized r m)

unfoldable pub ensure_renderer_state_consistency : Replies → CcManager → CcManager
ensure_renderer_state_consistency r m = (set_style r m.options (start_or_stop r m.enabled m)).0

unfoldable pub set_digital_channel : Replies → ℕ → CcManager → CcManager
set_digital_channel r channel m =
    ensure_renderer_state_consistency r (cc_set_digital_channel channel m)

unfoldable pub set_analog_channel : Replies → ℕ → CcManager → CcManager
set_analog_channel r channel m =
    ensure_renderer_state_consistency r (cc_set_analog_channel channel m)

unfoldable pub initialize : ℕ → CcManager → CcManager
initialize handle m = record m {
  cc_handle = handle;
  handle_updated = not (m.cc_handle == handle) || m.handle_updated;
}

-- `Init`, by whether the handle is null, and whether it returns 0.
unfoldable pub init_at : Replies → Bool → ℕ → CcManager → CcManager × Bool
init_at r true handle m = (m, false)
init_at r false handle m = (start_or_stop r m.enabled (initialize handle m), true)

unfoldable pub init : Replies → ℕ → CcManager → CcManager × Bool
init r handle m = init_at r (handle == 0) handle m

unfoldable pub start_if : Replies → Bool → CcManager → CcManager
start_if r true m = start r m
start_if r false m = m

unfoldable pub set_trickplay_status : Replies → Bool → CcManager → CcManager
set_trickplay_status r true m = record (stop r m) { trickplay_started = true }
set_trickplay_status r false m = record (start_if r m.enabled m) { trickplay_started = false }

unfoldable pub set_parental_control_status : Replies → Bool → CcManager → CcManager
set_parental_control_status r true m = record (stop r m) { parental_ctrl_locked = true }
set_parental_control_status r false m = record (start_if r m.enabled m) {
  parental_ctrl_locked = false;
}

-- `CheckCCHandle` of this manager is always true.
unfoldable pub set_status : Replies → Bool → CcManager → CcManager
set_status r enable m =
    let switched : CcManager = record m { enabled = enable; is_cc_on_flag = enable } in
    if not m.trickplay_started && not m.parental_ctrl_locked
    then start_or_stop r enable switched
    else switched

unfoldable pub set_selection : Replies → Selection → CcManager → CcManager × Bool
set_selection r (digital n) m = (set_digital_channel r n m, true)
set_selection r (analog n) m = (set_analog_channel r n m, true)
set_selection r ignored m = (m, false)

-- `none` where `std::stoul` throws, with the manager as it is then; else whether `SetTrack` returns 0.
unfoldable pub set_parsed :
    Replies → CcFormat → Option (CcFormat × ℕ) → CcManager → CcManager × Option Bool
set_parsed r format none m = (m, none)
set_parsed r format (some p) m =
    let (m', ok) = set_selection r (select (override format p)) m in (m', some ok)

unfoldable pub set_track : Replies → Text → CcFormat → CcManager → CcManager × Option Bool
set_track r track format m =
    set_parsed r format (parse_track track)
      (record (ensure_renderer_comms_initialized r m) { track = track })

unfoldable pub update_last_text_tracks : List TrackInfo → CcManager → CcManager
update_last_text_tracks tracks m = record m { last_text_tracks = tracks }

unfoldable pub has_track : Text → List TrackInfo → Bool
has_track id [] = false
has_track id (t ∷ ts) =
    let rest = has_track id ts in if same_text id t.instream_id then true else rest

abbrev or_cc1 : Text → Text
or_cc1 [] = codes "CC1"
or_cc1 (c ∷ text) = c ∷ text

unfoldable pub restored_track : Text → List TrackInfo → Text
restored_track track [] = codes "CC1"
restored_track track (t ∷ ts) = if has_track track (t ∷ ts) then track else or_cc1 t.instream_id

unfoldable pub restore_cc : Replies → CcManager → CcManager × Option Bool
restore_cc r m = set_track r (restored_track m.track m.last_text_tracks) format_default m

-- The constructor of PlayerSubtecCCManager.
unfoldable pub construct : Replies → CcManager
construct r = (set_track r (codes "CC1") format_default blank_manager).0
