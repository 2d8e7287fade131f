-- ===== src/Sessions/Told.antt =====
-- The speed that the content security manager knows of, through all operations of the session manager.
use middleware_player_interf.Common.{
  ℕ, ◌≡◌, ap, sym, ◌∙◌, false, true, List, [], ◌∷◌, none, some, ◌⊎◌, inl, inr, Bool-cases, ◌==◌,
}
use middleware_player_interf.Sessions.{
  Manager, clear_session_data, clear_failed_key_ids, clear_drm_session, update_max_drm_sessions,
  set_session_mgr_state, update_drm_config,
}
use middleware_player_interf.Sessions.Creation.{create_drm_session}
use middleware_player_interf.Sessions.Speed.{heard, IsTold, perform-IsTold}
use middleware_player_interf.Sessions.Silent.{IsSilent, create_drm_session-IsSilent}
use middleware_player_interf.Sessions.Shape
use middleware_player_interf.Sessions.Shape.{Operation, perform, perform_all}

-- A creation comes before the first frame, or leaves the content security session as it is.
abbrev pub IsTimely : Operation → Manager → Type 0
IsTimely (Shape.create o h) m =
    (m.first_frame_seen ≡ false)
    ⊎ ((create_drm_session o h m).manager.security_session ≡ m.security_session)
IsTimely _ m = Unit

abbrev pub AreTimely : List Operation → Manager → Type 0
AreTimely [] m = Unit {0}
AreTimely (o ∷ os) m = IsTimely o m × AreTimely os (perform o m)

silent-IsTold :
    (m m' : Manager)
    → IsSilent m m'
    → (m.first_frame_seen ≡ false) ⊎ (m'.security_session ≡ m.security_session)
    → IsTold m
    → IsTold m'
silent-IsTold m m' (h, e) (inl f) t id a b c =
    let unseen : m'.first_frame_seen ≡ false = ap (λ x. x.0) e ∙ f in absurd (cc)
silent-IsTold m m' (h, e) (inr f) t id a b c =
    h id
    ∙ t id (sym f ∙ a) (sym (ap (λ x. x.1.0) e) ∙ b) (sym (ap (λ x. x.0) e) ∙ c)
    ∙ ap some (sym (ap (λ x. x.1.1) e))

update_max-IsTold : (n : ℕ) (m : Manager) → IsTold m → IsTold (update_max_drm_sessions n m)
unfolding update_max_drm_sessions
update_max-IsTold n m t = elim (Bool-cases (m.max_drm_sessions == n)) [
  | inl e ↦ simp e t
  | inr e ↦ simp e t
]

operation-IsTold : (o : Operation) (m : Manager) → IsTimely o m → IsTold m → IsTold (perform o m)
unfolding perform clear_session_data clear_failed_key_ids clear_drm_session set_session_mgr_state
    update_drm_config
operation-IsTold (Shape.create o h) m x t =
    silent-IsTold m (create_drm_session o h m).manager (create_drm_session-IsSilent o h m) x t
operation-IsTold Shape.clear_data m x t = t
operation-IsTold Shape.clear_failed m x t = t
operation-IsTold (Shape.clear_sessions_of b) m x t = t
operation-IsTold (Shape.set_state s) m x t = t
operation-IsTold (Shape.update_max n) m x t = update_max-IsTold n m t
operation-IsTold (Shape.update_config c) m x t = t
operation-IsTold (Shape.watermark o) m x t = perform-IsTold o m t

perform_all-IsTold :
    (os : List Operation) (m : Manager) → AreTimely os m → IsTold m → IsTold (perform_all os m)
unfolding perform_all
perform_all-IsTold [] m x t = t
perform_all-IsTold (o ∷ os) m x t =
    perform_all-IsTold os (perform o m) x.1 (operation-IsTold o m x.0 t)

-- From a manager that has not seen a first frame on, through any sequence of the manager's operations in
-- which each `createDrmSession` comes before the first frame or leaves the content security session as it
-- is: where there is a session, the picture is not muted and a first frame has been seen, the last speed
-- that was sent for the session is the current one.
pub speed_is_told :
    (os : List Operation) (id : ℕ) (m : Manager)
    → m.first_frame_seen ≡ false
    → AreTimely os m
    → (perform_all os m).security_session ≡ some id
    → (perform_all os m).is_video_on_mute ≡ false
    → (perform_all os m).first_frame_seen ≡ true
    → heard id (perform_all os m).events none ≡ some (perform_all os m).current_speed
speed_is_told os id m f x = perform_all-IsTold os m x (λ i a b c. absurd (cc)) id
