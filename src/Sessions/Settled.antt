-- ===== src/Sessions/Settled.antt =====
-- What `createDrmSession` does to the manager once a slot is selected.
use middleware_player_interf.Common.{
  ℕ, ◌≡◌, refl, ◌∙◌, Bool, true, false, ◌&&◌, Option, none, some, length, set, Bool-cases, ◌⊎◌, inl,
  inr, length-set,
}
use middleware_player_interf.Common.Bytes.{same_text}
use middleware_player_interf.Sessions.{
  KeyState, init, pending, ready, error, closed, error_empty_session_id, DrmSession, Manager, emit,
  profile_update,
}
use middleware_player_interf.Sessions.Slots.{has_key}
use middleware_player_interf.Sessions.Creation.{
  DrmHelper, Outside, Outcome, context_at, put_context, key_id_at, mark_failed, store_session,
  new_session, activate, give_up, waited, reuse_session, use_context, Created, is_init, is_ready,
  initialize_drm_session, licensed, bind_session, bind_at, bind_slot, Fault, finish_by,
  finish_creation, playready_key_system,
}

-- The key ids and the size are as they were.
abbrev pub Keeps : Manager → Manager → Type 0
Keeps m m' =
    (m'.cached_key_ids ≡ m.cached_key_ids)
    × (length m'.drm_session_contexts ≡ length m.drm_session_contexts)
    × (m'.max_drm_sessions ≡ m.max_drm_sessions)

-- A slot has been marked failed, and nothing else has changed but contexts.
abbrev pub Marks : ℕ → Manager → Manager → Type 0
Marks i m m' =
    (m'.cached_key_ids
      ≡ set m.cached_key_ids i (record (key_id_at i m) { is_failed_key_id = true }))
    × (length m'.drm_session_contexts ≡ length m.drm_session_contexts)
    × (m'.max_drm_sessions ≡ m.max_drm_sessions)

abbrev pub Touches : ℕ → Manager → Manager → Type 0
Touches i m m' = Keeps m m' ⊎ Marks i m m'

-- What the code makes of a selected slot: an error, or the array of key ids as it was.
abbrev pub Settles : ℕ → Manager → Outcome → Type 0
Settles i m r =
    ((r.code ≡ error) × Touches i m r.manager) ⊎ ((r.selected_slot ≡ some i) × Keeps m r.manager)

Keeps-trans : (m m' m'' : Manager) → Keeps m m' → Keeps m' m'' → Keeps m m''
Keeps-trans m m' m'' (a, b, c) (d, e, f) = (d ∙ a, e ∙ b, f ∙ c)

Touches-after : (i : ℕ) (m m' m'' : Manager) → Keeps m m' → Touches i m' m'' → Touches i m m''
Touches-after i m m' m'' k (inl l) = inl (Keeps-trans m m' m'' k l)
Touches-after i m m' m'' (a, b, c) (inr (d, e, f)) = inr (rw (← a) d, e ∙ b, f ∙ c)

store_session-Settles :
    (h : DrmHelper) (i : ℕ) (c : Option DrmSession) (m : Manager)
    → Settles i m (store_session h i c m)
unfolding store_session
store_session-Settles h i none m =
    inl (refl, inl ((refl, length-set m.drm_session_contexts i _, refl)))
store_session-Settles h i (some s) m =
    let flag =
      same_text h.ocdm_system_id playready_key_system && m.config.enable_pr_output_protection in
    elim (Bool-cases flag) [
      | inl e ↦ inr (refl, simp e ((refl, length-set m.drm_session_contexts i _, refl)))
      | inr e ↦ inr (refl, simp e ((refl, length-set m.drm_session_contexts i _, refl)))
    ]

new_session-Settles :
    (o : Outside) (h : DrmHelper) (i : ℕ) (m : Manager) → Settles i m (new_session o h i m)
unfolding new_session
new_session-Settles o h i m =
    let m' : Manager =
      emit profile_update (put_context i (record (context_at i m) { drm_session = none }) m) in
    let k : Keeps m m' = (refl, length-set m.drm_session_contexts i _, refl) in
    let r : Outcome = store_session h i o.get_drm_session m' in
    elim (store_session-Settles h i o.get_drm_session m') [
      | inl (e, t) ↦ inl (e, Touches-after i m m' r.manager k t)
      | inr (e, l) ↦ inr (e, Keeps-trans m m' r.manager k l)
    ]

activate-Keeps : (a b : Option ℕ) (m : Manager) → Keeps m (activate a b m)
unfolding activate
activate-Keeps none b m = (refl, refl, refl)
activate-Keeps (some a) none m = (refl, refl, refl)
activate-Keeps (some a) (some b) m = (refl, refl, refl)

waited-Settles : (i : ℕ) (w : Bool × DrmSession) (m : Manager) → Settles i m (waited i w m)
unfolding waited give_up mark_failed
waited-Settles i (true, s) m = inr (refl, (refl, length-set m.drm_session_contexts i _, refl))
waited-Settles i (false, s) m = inl (refl, inr (refl, length-set m.drm_session_contexts i _, refl))

reuse_session-Settles :
    (o : Outside) (i : ℕ) (s : DrmSession) (k : KeyState) (m : Manager)
    → Settles i m (reuse_session o i s k m)
unfolding reuse_session give_up mark_failed
reuse_session-Settles o i s ready m =
    inr (refl, activate-Keeps s.security_session m.security_session m)
reuse_session-Settles o i s init m = inr (refl, (refl, refl, refl))
reuse_session-Settles o i s pending m = waited-Settles i (o.wait_for_state s) m
reuse_session-Settles o i s error m = inl (refl, inr (refl, refl, refl))
reuse_session-Settles o i s closed m = inl (refl, inr (refl, refl, refl))
reuse_session-Settles o i s error_empty_session_id m = inl (refl, inr (refl, refl, refl))

pub use_context-Settles :
    (o : Outside) (h : DrmHelper) (i : ℕ) (c : Option DrmSession) (m : Manager)
    → Settles i m (use_context o h i c m)
unfolding use_context
use_context-Settles o h i none m = new_session-Settles o h i m
use_context-Settles o h i (some s) m =
    elim (Bool-cases (
      same_text h.ocdm_system_id s.key_system
      && has_key (context_at i m).key_id (key_id_at i m).keys)) [
        | inl e ↦ rw e (reuse_session-Settles o i s s.state m)
        | inr e ↦ rw e (new_session-Settles o h i m)
      ]

licensed-Touches :
    (i : ℕ) (r : KeyState × (DrmSession × Option ℕ)) (m : Manager)
    → Touches i m (licensed i r m).manager
unfolding licensed mark_failed
licensed-Touches i (code, (s, a)) m = elim (Bool-cases (is_ready code)) [
  | inl e ↦ inl (
      simp e (
        refl,
        length-set (set m.drm_session_contexts i _) i _ ∙ length-set m.drm_session_contexts i _,
        refl,
      ))
  | inr e ↦ simp e (inr (refl, length-set m.drm_session_contexts i _, refl))
]

bind_session-Touches :
    (o : Outside) (h : DrmHelper) (i : ℕ) (s : DrmSession) (m : Manager)
    → Touches i m (bind_session o h i s m).manager
unfolding bind_session initialize_drm_session mark_failed
bind_session-Touches o h i s m =
    let made : DrmSession = o.generate_drm_session h.init_data m.custom_data s in
    elim (Bool-cases (is_init made.state)) [
      | inr e ↦ simp e (inr (refl, length-set m.drm_session_contexts i _, refl))
      | inl e ↦ elim (Bool-cases m.config.is_fake_tune) [
        | inl f ↦ simp (e, f) (inr (refl, length-set m.drm_session_contexts i _, refl))
        | inr f ↦
            simp (e, f)
              (let m' : Manager =
                  put_context i (record (context_at i m) { drm_session = some made }) m in
                let l = o.acquire_license made m.security_session in
                Touches-after i m m' (licensed i l m').manager
                  (refl, length-set m.drm_session_contexts i _, refl) (licensed-Touches i l m'))
      ]
    ]

bind_at-Touches :
    (o : Outside) (h : DrmHelper) (i : ℕ) (c : Option DrmSession) (m : Manager)
    → Touches i m (bind_at o h i c m).manager
unfolding bind_at
bind_at-Touches o h i none m = inl (refl, refl, refl)
bind_at-Touches o h i (some s) m = bind_session-Touches o h i s m

finish_by-Touches :
    (o : Outside) (h : DrmHelper) (i : ℕ) (k : KeyState) (e : Option Fault) (m : Manager)
    → Touches i m (finish_by o h k (some i) e m).manager
unfolding finish_by bind_slot
finish_by-Touches o h i ready e m = inl (refl, refl, refl)
finish_by-Touches o h i init e m = bind_at-Touches o h i _ m
finish_by-Touches o h i pending e m = inl (refl, refl, refl)
finish_by-Touches o h i error e m = inl (refl, refl, refl)
finish_by-Touches o h i closed e m = inl (refl, refl, refl)
finish_by-Touches o h i error_empty_session_id e m = inl (refl, refl, refl)

-- What becomes of the manager after a slot was selected: its key ids are kept, or this slot is marked.
pub settled-Touches :
    (o : Outside) (h : DrmHelper) (i : ℕ) (r : Outcome) (m : Manager)
    → Settles i m r
    → Touches i m (finish_creation o h r).manager
unfolding finish_creation
settled-Touches o h i r m (inl (e, t)) = unfold finish_by in simp e t
settled-Touches o h i r m (inr (e, k)) =
    let m' : Manager = record r.manager { custom_data = o.content_update h.key (is_init r.code) } in
    let c : Created = finish_by o h r.code (some i) r.err m' in
    simp e (Touches-after i m m' c.manager k (finish_by-Touches o h i r.code r.err m'))
