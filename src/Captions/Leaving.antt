-- ===== src/Captions/Leaving.antt =====
-- What the captions see of a user that leaves.
use middleware_player_interf.Common.{
  ℕ, ◌≡◌, refl, ◌∙◌, Bool, true, false, List, [], ◌∷◌, Bool-cases, inl, inr,
}
use middleware_player_interf.Subtec.Channel.{send_reset_channel}
use middleware_player_interf.Captions.{
  CcManager, media_close_caption_stop, command, call, reset_channel, close,
}
use middleware_player_interf.Captions.Users.{erase, release_all, release_erased, release}
use middleware_player_interf.Captions.Rendering.{rendered_after, IsQuiet, call-Shows}

-- A user that leaves, the last one included, changes nothing outside trick play and the lock.
release_all-IsQuiet :
    (m : CcManager)
    → m.trickplay_started ≡ false
    → m.parental_ctrl_locked ≡ false
    → IsQuiet m (release_all m)
unfolding release_all reset_channel close
release_all-IsQuiet m p q =
    let m' : CcManager = call (command send_reset_channel) m in
    let (a, b) = call-Shows (command send_reset_channel) m in
    let (c, d) = call-Shows media_close_caption_stop m' in
    unfold rendered_after in
    elim (Bool-cases m.hal_initialized) [
      | inl e ↦ simp e (c ∙ a, simp (p, q) refl)
      | inr e ↦ simp e (a, simp (p, q) refl)
    ]

release_erased-IsQuiet :
    (e : List ℕ × Bool) (m : CcManager)
    → m.trickplay_started ≡ false
    → m.parental_ctrl_locked ≡ false
    → IsQuiet m (release_erased e m)
unfolding release_erased
release_erased-IsQuiet (is, false) m p q = (refl, refl)
release_erased-IsQuiet ([], true) m p q = release_all-IsQuiet (record m { id_set = [] }) p q
release_erased-IsQuiet (i ∷ is, true) m p q = (refl, refl)

pub release-IsQuiet :
    (id : ℕ) (m : CcManager)
    → m.trickplay_started ≡ false
    → m.parental_ctrl_locked ≡ false
    → IsQuiet m (release id m)
unfolding release
release-IsQuiet id m p q = release_erased-IsQuiet (erase id m.id_set) m p q
