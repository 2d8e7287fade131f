-- ===== src/Sessions/Returned.antt =====
-- A session that is returned is in the first slot with the key, and the key counts as processed.
use middleware_player_interf.Common.{
  ℕ, ◌≡◌, ◌<◌, refl, ap, true, false, [], ◌∷◌, Option, none, some, arith, length, Bool-cases, ◌⊎◌,
  inl, inr, length-set, get_or-set,
}
use middleware_player_interf.Sessions.{
  Bytes, KeyState, init, pending, ready, error, closed, error_empty_session_id, inactive, active,
  SessionMgrState, DrmSession, DrmSessionContext, blank_context, Manager,
}
use middleware_player_interf.Sessions.Slots.{has_key, Selection}
use middleware_player_interf.Sessions.Cached.{IsCached, Selects, select_slot_cached}
use middleware_player_interf.Sessions.Settled.{Settles, use_context-Settles}
use middleware_player_interf.Sessions.Creation.{
  DrmHelper, Outside, Outcome, context_at, use_selection, keys_or, get_drm_session, Created,
  is_init, is_ready, initialize_drm_session, hand_over, licensed, bind_session, bind_at, bind_slot,
  get_for_key, Fault, create_in_state, session_at, finish_by, finish_creation, create_drm_session,
}

-- A session that is returned: its slot is the first one with the key, it is not marked failed, and it
-- holds this session.
abbrev pub IsHeld : Bytes → DrmSession → Manager → Type 0
IsHeld key s m = (i : ℕ) × IsCached key i m.cached_key_ids × ((context_at i m).drm_session ≡ some s)

abbrev pub Returns : Bytes → Created → Type 0
Returns key c =
    (c.session ≡ none) ⊎ ((s : DrmSession) × (c.session ≡ some s) × IsHeld key s c.manager)

licensed-Returns :
    (key : Bytes) (i : ℕ) (r : KeyState × (DrmSession × Option ℕ)) (m : Manager)
    → IsCached key i m.cached_key_ids
    → i < length m.drm_session_contexts
    → Returns key (licensed i r m)
unfolding licensed
licensed-Returns key i (code, (s, a)) m c b = elim (Bool-cases (is_ready code)) [
  | inr e ↦ inl (rw e refl)
  | inl e ↦ inr (
    hand_over a s,
    simp e refl,
    (
      i,
      simp e c,
      simp e (
          ap (λ (x : DrmSessionContext). x.drm_session)
            (get_or-set _ i _ blank_context (rw (length-set m.drm_session_contexts i _) b))),
    ),
  )
]

bind_session-Returns :
    (o : Outside) (h : DrmHelper) (i : ℕ) (s : DrmSession) (m : Manager)
    → IsCached h.key i m.cached_key_ids
    → i < length m.drm_session_contexts
    → Returns h.key (bind_session o h i s m)
unfolding bind_session initialize_drm_session
bind_session-Returns o h i s m c b =
    elim (Bool-cases (is_init (o.generate_drm_session h.init_data m.custom_data s).state)) [
      | inr e ↦ inl (rw e refl)
      | inl e ↦ elim (Bool-cases m.config.is_fake_tune) [
        | inl f ↦ inl (simp (e, f) refl)
        | inr f ↦
            simp (e, f)
              (licensed-Returns h.key i _ _ c (rw (length-set m.drm_session_contexts i _) b))
      ]
    ]

bind_at-Returns :
    (o : Outside) (h : DrmHelper) (i : ℕ) (c : Option DrmSession) (m : Manager)
    → IsCached h.key i m.cached_key_ids
    → i < length m.drm_session_contexts
    → Returns h.key (bind_at o h i c m)
unfolding bind_at
bind_at-Returns o h i none m c b = inl refl
bind_at-Returns o h i (some s) m c b = bind_session-Returns o h i s m c b

session_at-Returns :
    (key : Bytes) (i : ℕ) (f : Option Fault) (c : Option DrmSession) (m : Manager)
    → (context_at i m).drm_session ≡ c
    → IsCached key i m.cached_key_ids
    → Returns key (record { session = session_at (some i) m; err = f; manager = m })
session_at-Returns key i f none m e c = inl e
session_at-Returns key i f (some s) m e c = inr (s, e, (i, c, e))

finish_by-Returns :
    (o : Outside) (h : DrmHelper) (i : ℕ) (k : KeyState) (e : Option Fault) (m : Manager)
    → IsCached h.key i m.cached_key_ids
    → i < length m.drm_session_contexts
    → Returns h.key (finish_by o h k (some i) e m)
unfolding finish_by bind_slot
finish_by-Returns o h i ready e m c b = session_at-Returns h.key i e _ m refl c
finish_by-Returns o h i init e m c b = bind_at-Returns o h i _ m c b
finish_by-Returns o h i pending e m c b = inl refl
finish_by-Returns o h i error e m c b = inl refl
finish_by-Returns o h i closed e m c b = inl refl
finish_by-Returns o h i error_empty_session_id e m c b = inl refl

settled-Returns :
    (o : Outside) (h : DrmHelper) (i : ℕ) (r : Outcome) (m : Manager)
    → Settles i m r
    → IsCached h.key i m.cached_key_ids
    → i < length m.drm_session_contexts
    → Returns h.key (finish_creation o h r)
unfolding finish_creation
settled-Returns o h i r m (inl (e, t)) c b = unfold finish_by in inl (simp e refl)
settled-Returns o h i r m (inr (e, (k, l, n))) c b =
    simp e (finish_by-Returns o h i r.code r.err _ (rw k c) (rw l b))

use_selection-Returns :
    (o : Outside) (h : DrmHelper) (x : Selection) (m : Manager)
    → length m.drm_session_contexts ≡ length m.cached_key_ids
    → Selects h.key m.cached_key_ids x
    → Returns h.key (finish_creation o h (use_selection o h x m))
unfolding use_selection
use_selection-Returns o h x m l (inl e) =
    rw e (unfold finish_creation in unfold finish_by in inl refl)
use_selection-Returns o h x m l (inr (i, ks, e, c, k)) = rw e (
    settled-Returns o h i _ (record m { cached_key_ids = ks }) (use_context-Settles o h i _ _) c
      (omega (arith, k, l, c.2)))

get-Returns :
    (o : Outside) (h : DrmHelper) (key : Bytes) (m : Manager)
    → length m.drm_session_contexts ≡ length m.cached_key_ids
    → has_key h.key (keys_or h.keys h.key) ≡ true
    → Returns h.key (finish_creation o h (get_for_key o h key false m))
unfolding get_for_key
get-Returns o h [] m l k = unfold finish_creation in unfold finish_by in inl refl
get-Returns o h (b ∷ bs) m l k =
    use_selection-Returns o h _ m l
      (select_slot_cached h.key (keys_or h.keys h.key) o.now false m.cached_key_ids k)

create-Returns :
    (o : Outside) (h : DrmHelper) (t : SessionMgrState) (m : Manager)
    → length m.drm_session_contexts ≡ length m.cached_key_ids
    → has_key h.key (keys_or h.keys h.key) ≡ true
    → Returns h.key (create_in_state t o h m)
unfolding create_in_state get_drm_session
create-Returns o h inactive m l k = inl refl
create-Returns o h active m l k = get-Returns o h h.key m l k

-- Where both arrays have the same length and `getKeys` has no keys or has that of `getKey`: a session
-- that `createDrmSession` returns stands in the first slot that has the key, and this slot is not
-- marked failed.
pub returned_session-IsHeld :
    (o : Outside) (h : DrmHelper) (s : DrmSession) (m : Manager)
    → length m.drm_session_contexts ≡ length m.cached_key_ids
    → has_key h.key (keys_or h.keys h.key) ≡ true
    → (create_drm_session o h m).session ≡ some s
    → IsHeld h.key s (create_drm_session o h m).manager
unfolding create_drm_session
returned_session-IsHeld o h s m l k e = elim (create-Returns o h m.session_mgr_state m l k) [
  | inl n ↦ absurd (cc)
  | inr (t, f, g) ↦ let same : t ≡ s = cc in rw (← same) g
]
