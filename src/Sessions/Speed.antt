-- ===== src/Sessions/Speed.antt =====
-- What the content security manager knows of the speed, between two creations of a session.
use middleware_player_interf.Common.{
  ℕ, ◌≡◌, refl, ◌∙◌, Bool, true, false, not, ◌&&◌, List, Option, none, some, ◌==◌, if◌then◌else◌,
  arith,
}
use middleware_player_interf.Common.Replay.{replay, replay-append}
use middleware_player_interf.Common.Int.{ℤ}
use middleware_player_interf.Sessions.{Bytes, Event, playback_speed_state, Manager, emit}
use middleware_player_interf.Sessions.Watermark.{
  Position, adjusted_pos, set_video_window_size, send_speed, set_playback_speed_state, window_of,
  mute_of, cleanup_of, set_video_mute, hide_watermark_on_detach, notify_cleanup,
  watermark_session_handler_wrapper,
}

-- The speed of the last message for a session, with the value before all messages.
unfoldable pub heard_after : ℕ → Event → Option ℤ → Option ℤ
heard_after id (playback_speed_state id' v p) old = if id' == id then some v else old
heard_after id _ old = old

abbrev pub heard : ℕ → List Event → Option ℤ → Option ℤ
heard id es old = replay (heard_after id) es old

pub data Operation : Type 0 where
  window : ℤ → ℤ → Operation
  speed : Position → ℤ → Bool → Operation
  mute : Position → Bool → Operation
  detach cleanup : Operation
  watermark : Bool → ℕ → ℕ → Bytes → Operation

unfoldable pub perform : Operation → Manager → Manager
perform (window w h) m = set_video_window_size w h m
perform (speed p v f) m = set_playback_speed_state p v f m
perform (mute p b) m = set_video_mute p b m
perform detach m = hide_watermark_on_detach m
perform cleanup m = notify_cleanup m
perform (watermark b s t d) m = watermark_session_handler_wrapper b s t d m

-- Where there is a session, the picture is not muted and a first frame has been seen, the last speed
-- that was sent for the session is the current one.
abbrev pub IsTold : Manager → Type 0
IsTold m =
    (id : ℕ)
    → m.security_session ≡ some id
    → m.is_video_on_mute ≡ false
    → m.first_frame_seen ≡ true
    → heard id m.events none ≡ some m.current_speed

sent-IsTold :
    (b : Bool) (i : ℕ) (p : Position) (m : Manager)
    → m.security_session ≡ some i
    → (not m.is_video_on_mute && m.first_frame_seen) ≡ b
    → IsTold (if b then emit (playback_speed_state i m.current_speed (adjusted_pos p)) m else m)
sent-IsTold true i p m e f id x y z =
    let same : i ≡ id = cc in
    replay-append (heard_after id) m.events _ none ∙ (unfold heard_after in ground arith)
sent-IsTold false i p m e f id x y z = absurd (ground arith)

send_speed-IsTold :
    (s : Option ℕ) (p : Position) (m : Manager) → m.security_session ≡ s → IsTold (send_speed s p m)
unfolding send_speed
send_speed-IsTold none p m e = λ id a b c. absurd (cc)
send_speed-IsTold (some i) p m e =
    sent-IsTold (not m.is_video_on_mute && m.first_frame_seen) i p m e refl

quiet-IsTold :
    (e : Event) (m : Manager)
    → ((id : ℕ) (old : Option ℤ) → heard_after id e old ≡ old)
    → IsTold m
    → IsTold (emit e m)
quiet-IsTold e m q t id a b c = replay-append (heard_after id) m.events e none ∙ q id _ ∙ t id a b c

window-IsTold : (s : Option ℕ) (w h : ℤ) (m : Manager) → IsTold m → IsTold (window_of s w h m)
unfolding window_of
window-IsTold none w h m t = t
window-IsTold (some i) w h m t = quiet-IsTold _ m (λ id old. unfold heard_after in refl) t

mute-IsTold :
    (s : Option ℕ) (p : Position) (b : Bool) (m : Manager)
    → m.security_session ≡ s
    → m.is_video_on_mute ≡ b
    → IsTold (mute_of s p b m)
unfolding mute_of set_playback_speed_state
mute-IsTold none p b m e k = λ id x y z. absurd (cc)
mute-IsTold (some i) p true m e k = λ id x y z. absurd (cc)
mute-IsTold (some i) p false m e k = send_speed-IsTold _ p _ refl

cleanup-IsTold : (s : Option ℕ) (m : Manager) → IsTold m → IsTold (cleanup_of s m)
unfolding cleanup_of
cleanup-IsTold none m t = t
cleanup-IsTold (some i) m t = λ id a b c. absurd (cc)

pub perform-IsTold : (o : Operation) (m : Manager) → IsTold m → IsTold (perform o m)
unfolding perform set_video_window_size set_playback_speed_state set_video_mute notify_cleanup
    hide_watermark_on_detach watermark_session_handler_wrapper
perform-IsTold (window w h) m t = window-IsTold m.security_session w h m t
perform-IsTold (speed p v f) m t = send_speed-IsTold m.security_session p _ refl
perform-IsTold (mute p b) m t = mute-IsTold m.security_session p b _ refl refl
perform-IsTold detach m t = λ id a b c. absurd (cc)
perform-IsTold cleanup m t = cleanup-IsTold m.security_session m t
perform-IsTold (watermark true s n d) m t =
    quiet-IsTold _ m (λ id old. unfold heard_after in refl) t
perform-IsTold (watermark false s n d) m t = t
