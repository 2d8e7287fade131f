-- ===== src/Captions/Obeying.antt =====
-- The manager shows the captions where its flags ask for it.
use middleware_player_interf.Common.{ℕ, ◌≡◌, Bool, false, List, [], ◌∷◌}
use middleware_player_interf.Captions.{Text, Replies, TrackInfo, CcManager}
use middleware_player_interf.Captions.Tracks.{CcFormat}
use middleware_player_interf.Captions.Manager.{
  set_style, init, set_trickplay_status, set_parental_control_status, set_status, set_track,
  update_last_text_tracks, restore_cc,
}
use middleware_player_interf.Captions.Users.{get_id, release}
use middleware_player_interf.Captions.Rendering.{is_rendered, flags, wanted}

pub data Operation : Type 0 where
  status trickplay parental : Replies → Bool → Operation
  track_of : Replies → Text → CcFormat → Operation
  style : Replies → Text → Operation
  init_handle : Replies → ℕ → Operation
  tracks : List TrackInfo → Operation
  restore : Replies → Operation
  new_user : Operation
  leave : ℕ → Operation

unfoldable pub perform : Operation → CcManager → CcManager
perform (status r b) m = set_status r b m
perform (trickplay r b) m = set_trickplay_status r b m
perform (parental r b) m = set_parental_control_status r b m
perform (track_of r t f) m = (set_track r t f m).0
perform (style r t) m = (set_style r t m).0
perform (init_handle r h) m = (init r h m).0
perform (tracks ts) m = update_last_text_tracks ts m
perform (restore r) m = (restore_cc r m).0
perform new_user m = (get_id m).0
perform (leave id) m = release id m

unfoldable pub perform_all : List Operation → CcManager → CcManager
perform_all [] m = m
perform_all (o ∷ os) m = perform_all os (perform o m)

-- Trick play and the lock do not overlap, and during either no track is set, no handle given and no user
-- leaves.
abbrev pub IsPlain : CcManager → Type 0
IsPlain m = (m.trickplay_started ≡ false) × (m.parental_ctrl_locked ≡ false)

abbrev pub IsApart : Operation → CcManager → Type 0
IsApart (trickplay r b) m = m.parental_ctrl_locked ≡ false
IsApart (parental r b) m = m.trickplay_started ≡ false
IsApart (track_of r t f) m = IsPlain m
IsApart (init_handle r h) m = IsPlain m
IsApart (restore r) m = IsPlain m
IsApart (leave id) m = IsPlain m
IsApart _ m = Unit

abbrev pub AreApart : List Operation → CcManager → Type 0
AreApart [] m = Unit {0}
AreApart (o ∷ os) m = IsApart o m × AreApart os (perform o m)

abbrev pub IsObeyed : CcManager → Type 0
IsObeyed m = is_rendered m ≡ wanted (flags m)
