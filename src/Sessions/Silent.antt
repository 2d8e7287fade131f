-- ===== src/Sessions/Silent.antt =====
-- What `createDrmSession` leaves alone: the messages about the speed, and what decides on the next one.
use middleware_player_interf.Common.{
  ℕ, ◌≡◌, refl, ◌∙◌, Bool, true, false, ◌&&◌, [], ◌∷◌, Option, none, some, inl, inr, Bool-cases,
}
use middleware_player_interf.Common.Int.{ℤ}
use middleware_player_interf.Common.Replay.{replay-append}
use middleware_player_interf.Common.Bytes.{same_text}
use middleware_player_interf.Sessions.{
  Bytes, KeyState, init, pending, ready, error, closed, error_empty_session_id, SessionMgrState,
  inactive, active, DrmSession, Event, Manager, emit, profile_update,
}
use middleware_player_interf.Sessions.Slots.{has_key, Selection, refused, selected, select_slot}
use middleware_player_interf.Sessions.Creation.{
  DrmHelper, Outside, Outcome, context_at, put_context, key_id_at, mark_failed, store_session,
  new_session, activate, give_up, waited, reuse_session, use_context, use_selection, keys_or,
  get_for_key, get_drm_session, is_init, is_ready, initialize_drm_session, licensed, bind_session,
  bind_at, bind_slot, Fault, finish_by, finish_creation, create_in_state, create_drm_session,
  playready_key_system,
}
use middleware_player_interf.Sessions.Speed.{heard, heard_after}

abbrev pub sent : Manager → Bool × (Bool × ℤ)
sent m = (m.first_frame_seen, (m.is_video_on_mute, m.current_speed))

-- No speed has been sent, and what decides on the next one is as it was.
abbrev pub IsSilent : Manager → Manager → Type 0
IsSilent m m' = ((id : ℕ) → heard id m'.events none ≡ heard id m.events none) × (sent m' ≡ sent m)

IsSilent-trans : (m m' m'' : Manager) → IsSilent m m' → IsSilent m' m'' → IsSilent m m''
IsSilent-trans m m' m'' (a, b) (c, d) = ((λ id. c id ∙ a id), d ∙ b)

emit-IsSilent :
    (e : Event) (m : Manager)
    → ((id : ℕ) (old : Option ℤ) → heard_after id e old ≡ old)
    → IsSilent m (emit e m)
emit-IsSilent e m q = ((λ id. replay-append (heard_after id) m.events e none ∙ q id _), refl)

store_session-IsSilent :
    (h : DrmHelper) (i : ℕ) (c : Option DrmSession) (m : Manager)
    → IsSilent m (store_session h i c m).manager
unfolding store_session
store_session-IsSilent h i none m = ((λ id. refl), refl)
store_session-IsSilent h i (some s) m =
    let protects =
      same_text h.ocdm_system_id playready_key_system && m.config.enable_pr_output_protection in
    elim (Bool-cases protects) [
      | inl e ↦ simp e (emit-IsSilent _ m (λ id old. unfold heard_after in refl))
      | inr e ↦ simp e ((λ id. refl), refl)
    ]

new_session-IsSilent :
    (o : Outside) (h : DrmHelper) (i : ℕ) (m : Manager) → IsSilent m (new_session o h i m).manager
unfolding new_session
new_session-IsSilent o h i m =
    let m' : Manager = put_context i (record (context_at i m) { drm_session = none }) m in
    let m'' : Manager = emit profile_update m' in
    IsSilent-trans m m'' (store_session h i o.get_drm_session m'').manager
      (emit-IsSilent profile_update m' (λ id old. unfold heard_after in refl))
      (store_session-IsSilent h i o.get_drm_session m'')

activate-IsSilent : (a b : Option ℕ) (m : Manager) → IsSilent m (activate a b m)
unfolding activate
activate-IsSilent none b m = ((λ id. refl), refl)
activate-IsSilent (some a) none m = emit-IsSilent _ m (λ id old. unfold heard_after in refl)
activate-IsSilent (some a) (some b) m = ((λ id. refl), refl)

waited-IsSilent : (i : ℕ) (w : Bool × DrmSession) (m : Manager) → IsSilent m (waited i w m).manager
unfolding waited give_up mark_failed
waited-IsSilent i (true, s) m = ((λ id. refl), refl)
waited-IsSilent i (false, s) m = ((λ id. refl), refl)

reuse_session-IsSilent :
    (o : Outside) (i : ℕ) (s : DrmSession) (k : KeyState) (m : Manager)
    → IsSilent m (reuse_session o i s k m).manager
unfolding reuse_session give_up mark_failed
reuse_session-IsSilent o i s ready m = activate-IsSilent s.security_session m.security_session m
reuse_session-IsSilent o i s init m = ((λ id. refl), refl)
reuse_session-IsSilent o i s pending m = waited-IsSilent i (o.wait_for_state s) m
reuse_session-IsSilent o i s error m = ((λ id. refl), refl)
reuse_session-IsSilent o i s closed m = ((λ id. refl), refl)
reuse_session-IsSilent o i s error_empty_session_id m = ((λ id. refl), refl)

use_context-IsSilent :
    (o : Outside) (h : DrmHelper) (i : ℕ) (c : Option DrmSession) (m : Manager)
    → IsSilent m (use_context o h i c m).manager
unfolding use_context
use_context-IsSilent o h i none m = new_session-IsSilent o h i m
use_context-IsSilent o h i (some s) m =
    elim (Bool-cases (
      same_text h.ocdm_system_id s.key_system
      && has_key (context_at i m).key_id (key_id_at i m).keys)) [
        | inl e ↦ rw e (reuse_session-IsSilent o i s s.state m)
        | inr e ↦ rw e (new_session-IsSilent o h i m)
      ]

use_selection-IsSilent :
    (o : Outside) (h : DrmHelper) (s : Selection) (m : Manager)
    → IsSilent m (use_selection o h s m).manager
unfolding use_selection
use_selection-IsSilent o h refused m = ((λ id. refl), refl)
use_selection-IsSilent o h (selected i ks) m =
    use_context-IsSilent o h i (context_at i m).drm_session (record m { cached_key_ids = ks })

get_for_key-IsSilent :
    (o : Outside) (h : DrmHelper) (k : Bytes) (p : Bool) (m : Manager)
    → IsSilent m (get_for_key o h k p m).manager
unfolding get_for_key
get_for_key-IsSilent o h [] p m = ((λ id. refl), refl)
get_for_key-IsSilent o h (b ∷ bs) p m =
    use_selection-IsSilent o h (select_slot h.key (keys_or h.keys h.key) o.now p m.cached_key_ids) m

licensed-IsSilent :
    (i : ℕ) (r : KeyState × (DrmSession × Option ℕ)) (m : Manager)
    → IsSilent m (licensed i r m).manager
unfolding licensed mark_failed
licensed-IsSilent i (code, (s, a)) m = elim (Bool-cases (is_ready code)) [
  | inl e ↦ simp e ((λ id. refl), refl)
  | inr e ↦ simp e ((λ id. refl), refl)
]

bind_session-IsSilent :
    (o : Outside) (h : DrmHelper) (i : ℕ) (s : DrmSession) (m : Manager)
    → IsSilent m (bind_session o h i s m).manager
unfolding bind_session initialize_drm_session mark_failed
bind_session-IsSilent o h i s m =
    let made : DrmSession = o.generate_drm_session h.init_data m.custom_data s in
    let m' : Manager = put_context i (record (context_at i m) { drm_session = some made }) m in
    elim (Bool-cases (is_init made.state)) [
      | inr e ↦ simp e ((λ id. refl), refl)
      | inl e ↦ elim (Bool-cases m.config.is_fake_tune) [
        | inl f ↦ simp (e, f) ((λ id. refl), refl)
        | inr f ↦ simp (e, f) (licensed-IsSilent i (o.acquire_license made m.security_session) m')
      ]
    ]

bind_at-IsSilent :
    (o : Outside) (h : DrmHelper) (i : ℕ) (c : Option DrmSession) (m : Manager)
    → IsSilent m (bind_at o h i c m).manager
unfolding bind_at
bind_at-IsSilent o h i none m = ((λ id. refl), refl)
bind_at-IsSilent o h i (some s) m = bind_session-IsSilent o h i s m

bind_slot-IsSilent :
    (o : Outside) (h : DrmHelper) (s : Option ℕ) (m : Manager)
    → IsSilent m (bind_slot o h s m).manager
unfolding bind_slot
bind_slot-IsSilent o h none m = ((λ id. refl), refl)
bind_slot-IsSilent o h (some i) m = bind_at-IsSilent o h i (context_at i m).drm_session m

finish_by-IsSilent :
    (o : Outside) (h : DrmHelper) (k : KeyState) (s : Option ℕ) (e : Option Fault) (m : Manager)
    → IsSilent m (finish_by o h k s e m).manager
unfolding finish_by
finish_by-IsSilent o h init s e m = bind_slot-IsSilent o h s m
finish_by-IsSilent o h ready s e m = ((λ id. refl), refl)
finish_by-IsSilent o h pending s e m = ((λ id. refl), refl)
finish_by-IsSilent o h error s e m = ((λ id. refl), refl)
finish_by-IsSilent o h closed s e m = ((λ id. refl), refl)
finish_by-IsSilent o h error_empty_session_id s e m = ((λ id. refl), refl)

create_in_state-IsSilent :
    (k : SessionMgrState) (o : Outside) (h : DrmHelper) (m : Manager)
    → IsSilent m (create_in_state k o h m).manager
unfolding create_in_state finish_creation get_drm_session
create_in_state-IsSilent inactive o h m = ((λ id. refl), refl)
create_in_state-IsSilent active o h m =
    let r : Outcome = get_for_key o h h.key false m in
    let m' : Manager = record r.manager { custom_data = o.content_update h.key (is_init r.code) } in
    IsSilent-trans m m' (finish_by o h r.code r.selected_slot r.err m').manager
      (get_for_key-IsSilent o h h.key false m)
      (finish_by-IsSilent o h r.code r.selected_slot r.err m')

pub create_drm_session-IsSilent :
    (o : Outside) (h : DrmHelper) (m : Manager) → IsSilent m (create_drm_session o h m).manager
unfolding create_drm_session
create_drm_session-IsSilent o h m = create_in_state-IsSilent m.session_mgr_state o h m
