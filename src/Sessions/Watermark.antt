-- ===== src/Sessions/Watermark.antt =====
-- drm/DrmSessionManager.cpp: what the manager tells the content security manager about the picture, the
-- mute, the speed and the end of a playback. Positions are in milliseconds.
use middleware_player_interf.Common.{
  ℕ, zero, suc, Bool, true, false, ◌&&◌, ◌||◌, not, Option, none, some, if◌then◌else◌,
}
use middleware_player_interf.Common.Int.{ℤ, pos, negsuc}
use middleware_player_interf.Sessions.{
  Bytes, Manager, update_session_state, playback_speed_state, video_window_size,
  watermark_session_update, emit,
}

abbrev pub negate : ℤ → ℤ
negate (pos zero) = pos zero
negate (pos (suc n)) = negsuc n
negate (negsuc n) = pos (suc n)

-- The arguments that describe the position: the ones that are only logged are left out.
pub record Position : Type 0 where
  pub live : Bool
  pub current_latency : ℤ
  pub position_ms : ℤ

unfoldable pub adjusted_pos : Position → ℤ
adjusted_pos p = if p.live then negate p.current_latency else p.position_ms

-- Each of these functions first takes a copy of the session, which is its first argument here.
unfoldable pub window_of : Option ℕ → ℤ → ℤ → Manager → Manager
window_of none w h m = m
window_of (some id) w h m = emit (video_window_size id w h) m

unfoldable pub set_video_window_size : ℤ → ℤ → Manager → Manager
set_video_window_size w h m = window_of m.security_session w h m

-- The call of the content security manager at the end of `setPlaybackSpeedState`.
unfoldable pub send_speed : Option ℕ → Position → Manager → Manager
send_speed none p m = m
send_speed (some id) p m =
    if not m.is_video_on_mute && m.first_frame_seen
    then emit (playback_speed_state id m.current_speed (adjusted_pos p)) m
    else m

unfoldable pub set_playback_speed_state : Position → ℤ → Bool → Manager → Manager
set_playback_speed_state p speed first_frame m =
    send_speed m.security_session p
      (record m { current_speed = speed; first_frame_seen = first_frame || m.first_frame_seen })

unfoldable pub mute_of : Option ℕ → Position → Bool → Manager → Manager
mute_of none p mute m = m
mute_of (some id) p true m = emit (update_session_state id false) m
mute_of (some id) p false m =
    set_playback_speed_state p m.current_speed false (emit (update_session_state id true) m)

unfoldable pub set_video_mute : Position → Bool → Manager → Manager
set_video_mute p mute m = mute_of m.security_session p mute (record m { is_video_on_mute = mute })

unfoldable pub hide_of : Option ℕ → Manager → Manager
hide_of none m = m
hide_of (some id) m = emit (update_session_state id false) m

unfoldable pub hide_watermark_on_detach : Manager → Manager
hide_watermark_on_detach m = record (hide_of m.security_session m) { first_frame_seen = false }

unfoldable pub cleanup_of : Option ℕ → Manager → Manager
cleanup_of none m = m
cleanup_of (some id) m = record (emit (update_session_state id false) m) {
  security_session = none;
  current_speed = pos 0;
  first_frame_seen = false;
}

unfoldable pub notify_cleanup : Manager → Manager
notify_cleanup m = cleanup_of m.security_session m

-- The callback that the constructor registers, where the player gave one.
unfoldable pub watermark_session_handler_wrapper : Bool → ℕ → ℕ → Bytes → Manager → Manager
watermark_session_handler_wrapper has_callback session status system m =
    if has_callback then emit (watermark_session_update session status system) m else m
