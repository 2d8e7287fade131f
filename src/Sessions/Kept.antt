-- ===== src/Sessions/Kept.antt =====
-- What goes out to the content security manager does not touch the slots.
use middleware_player_interf.Common.{
  ℕ, refl, Bool, true, false, not, ◌||◌, ◌&&◌, Option, none, some, Bool-cases, inl, inr,
}
use middleware_player_interf.Common.Int.{ℤ}
use middleware_player_interf.Sessions.{Manager, emit, update_session_state}
use middleware_player_interf.Sessions.Settled.{Keeps}
use middleware_player_interf.Sessions.Watermark.{
  Position, window_of, mute_of, hide_of, cleanup_of, send_speed, set_playback_speed_state,
  set_video_window_size, set_video_mute, hide_watermark_on_detach, notify_cleanup,
  watermark_session_handler_wrapper,
}
use middleware_player_interf.Sessions.Speed

send_speed-Keeps : (s : Option ℕ) (p : Position) (m : Manager) → Keeps m (send_speed s p m)
unfolding send_speed
send_speed-Keeps none p m = (refl, refl, refl)
send_speed-Keeps (some i) p m = elim (Bool-cases (not m.is_video_on_mute && m.first_frame_seen)) [
  | inl e ↦ simp e (refl, refl, refl)
  | inr e ↦ simp e (refl, refl, refl)
]

mute_of-Keeps : (s : Option ℕ) (p : Position) (b : Bool) (m : Manager) → Keeps m (mute_of s p b m)
unfolding mute_of set_playback_speed_state
mute_of-Keeps none p b m = (refl, refl, refl)
mute_of-Keeps (some i) p true m = (refl, refl, refl)
mute_of-Keeps (some i) p false m =
    send_speed-Keeps _ p (record (emit (update_session_state i true) m) {
      current_speed = m.current_speed;
      first_frame_seen = false || m.first_frame_seen;
    })

window_of-Keeps : (s : Option ℕ) (w h : ℤ) (m : Manager) → Keeps m (window_of s w h m)
unfolding window_of
window_of-Keeps none w h m = (refl, refl, refl)
window_of-Keeps (some i) w h m = (refl, refl, refl)

hide_of-Keeps : (s : Option ℕ) (m : Manager) → Keeps m (hide_of s m)
unfolding hide_of
hide_of-Keeps none m = (refl, refl, refl)
hide_of-Keeps (some i) m = (refl, refl, refl)

cleanup_of-Keeps : (s : Option ℕ) (m : Manager) → Keeps m (cleanup_of s m)
unfolding cleanup_of
cleanup_of-Keeps none m = (refl, refl, refl)
cleanup_of-Keeps (some i) m = (refl, refl, refl)

pub watermark-Keeps : (o : Speed.Operation) (m : Manager) → Keeps m (Speed.perform o m)
unfolding Speed.perform set_video_window_size set_playback_speed_state set_video_mute notify_cleanup
    hide_watermark_on_detach watermark_session_handler_wrapper
watermark-Keeps (Speed.window w h) m = window_of-Keeps _ w h m
watermark-Keeps (Speed.speed p v f) m =
    send_speed-Keeps _ p
      (record m { current_speed = v; first_frame_seen = f || m.first_frame_seen })
watermark-Keeps (Speed.mute p b) m = mute_of-Keeps _ p b (record m { is_video_on_mute = b })
watermark-Keeps Speed.detach m = hide_of-Keeps _ m
watermark-Keeps Speed.cleanup m = cleanup_of-Keeps _ m
watermark-Keeps (Speed.watermark true s n d) m = (refl, refl, refl)
watermark-Keeps (Speed.watermark false s n d) m = (refl, refl, refl)
