-- ===== src/Sessions/Shape.antt =====
-- The shape of the manager's arrays, which every operation keeps.
use middleware_player_interf.Common.{
  ℕ, ◌≡◌, refl, ◌∙◌, Bool, false, List, [], ◌∷◌, Option, length, All, All-any, All-at, All-set,
  All-replicate, length-map, length-replicate, length-set, Bool-cases, inl, inr, arith, ◌==◌,
}
use middleware_player_interf.Sessions.{
  Bytes, SessionMgrState, inactive, active, KeyId, blank_key_id, DrmSession, DrmSessionContext,
  Manager, Config, construct, clear_failed_key_id, clear_failed_key_ids, clear_session_data,
  clear_context, clear_sessions, clear_drm_session, update_max_drm_sessions, set_session_mgr_state,
  update_drm_config,
}
use middleware_player_interf.Sessions.Slots.{is_empty, Selection}
use middleware_player_interf.Sessions.Creation.{
  DrmHelper, Outside, Created, key_id_at, context_at, use_context, use_selection, keys_or,
  get_for_key, get_drm_session, finish_by, finish_creation, create_in_state, create_drm_session,
}
use middleware_player_interf.Sessions.Sound.{IsSound, LeavesSound, select_slot_sound}
use middleware_player_interf.Sessions.Kept.{watermark-Keeps}
use middleware_player_interf.Sessions.Settled.{Touches, settled-Touches, use_context-Settles}
use middleware_player_interf.Sessions.Speed

abbrev pub IsShaped : Manager → Type 0
IsShaped m =
    (length m.drm_session_contexts ≡ m.max_drm_sessions)
    × (length m.cached_key_ids ≡ m.max_drm_sessions)
    × All IsSound m.cached_key_ids

pub data Operation : Type 0 where
  create : Outside → DrmHelper → Operation
  clear_data clear_failed : Operation
  clear_sessions_of : Bool → Operation
  set_state : SessionMgrState → Operation
  update_max : ℕ → Operation
  update_config : Config → Operation
  watermark : Speed.Operation → Operation

unfoldable pub perform : Operation → Manager → Manager
perform (create o h) m = (create_drm_session o h m).manager
perform clear_data m = clear_session_data m
perform clear_failed m = clear_failed_key_ids m
perform (clear_sessions_of b) m = clear_drm_session b m
perform (set_state s) m = set_session_mgr_state s m
perform (update_max n) m = update_max_drm_sessions n m
perform (update_config c) m =
    update_drm_config c.use_sec_manager c.enable_pr_output_protection c.propagate_uri_param
      c.is_fake_tune c.is_wv_kid_workaround m
perform (watermark o) m = Speed.perform o m

unfoldable pub perform_all : List Operation → Manager → Manager
perform_all [] m = m
perform_all (o ∷ os) m = perform_all os (perform o m)

blank-IsSound : IsSound blank_key_id
unfolding blank_key_id
blank-IsSound = (refl, inl refl)

clear_failed_key_id-IsSound : (k : KeyId) → IsSound (clear_failed_key_id k)
unfolding clear_failed_key_id
clear_failed_key_id-IsSound k = ground arith

length-clear_sessions :
    (b : Bool) (ks : List KeyId) (cs : List DrmSessionContext)
    → length (clear_sessions b ks cs) ≡ length cs
unfolding clear_sessions
length-clear_sessions b [] cs = refl
length-clear_sessions b (k ∷ ks) [] = refl
length-clear_sessions b (k ∷ ks) (c ∷ cs) = omega (arith, length-clear_sessions b ks cs)

construct-IsShaped : (n : ℕ) (c : Config) → IsShaped (construct n c)
unfolding construct
construct-IsShaped n c =
    (length-replicate n _, length-replicate n _, All-replicate IsSound n blank_key_id blank-IsSound)

update_max-IsShaped : (n : ℕ) (m : Manager) → IsShaped m → IsShaped (update_max_drm_sessions n m)
unfolding update_max_drm_sessions
update_max-IsShaped n m h = elim (Bool-cases (m.max_drm_sessions == n)) [
  | inl e ↦ simp e h
  | inr e ↦ simp e (
    length-replicate n _,
    length-replicate n _,
    All-replicate IsSound n blank_key_id blank-IsSound,
  )
]

touched-IsShaped :
    (i : ℕ) (m m' : Manager)
    → Touches i m m'
    → IsShaped m
    → is_empty (key_id_at i m).keys ≡ false
    → IsShaped m'
touched-IsShaped i m m' (inl (a, b, c)) (x, y, z) e = (omega arith, rw (a, c) y, rw a z)
touched-IsShaped i m m' (inr (a, b, c)) (x, y, z) e = (
  omega arith,
  rw (a, c) (length-set m.cached_key_ids i _ ∙ y),
  rw a (
      All-set IsSound m.cached_key_ids i _ z
        ((All-at IsSound m.cached_key_ids i blank_key_id z blank-IsSound).0, inr e)),
)

use_selection-IsShaped :
    (o : Outside) (h : DrmHelper) (r : Selection) (m : Manager)
    → LeavesSound m.cached_key_ids r
    → IsShaped m
    → IsShaped (finish_creation o h (use_selection o h r m)).manager
unfolding use_selection
use_selection-IsShaped o h r m (inl e) s = rw e (unfold finish_creation in unfold finish_by in s)
use_selection-IsShaped o h r m (inr (i, ks, e, l, z, k)) (x, y, w) =
    let m' : Manager = record m { cached_key_ids = ks } in
    let c : Option DrmSession = (context_at i m).drm_session in
    let d : Created = finish_creation o h (use_context o h i c m') in
    rw e (
      touched-IsShaped i m' d.manager (settled-Touches o h i _ m' (use_context-Settles o h i c m'))
        (x, l ∙ y, z) k)

keys_or_full : (keys : List Bytes) (key : Bytes) → is_empty (keys_or keys key) ≡ false
keys_or_full [] key = refl
keys_or_full (k ∷ ks) key = refl

get_for_key-IsShaped :
    (o : Outside) (h : DrmHelper) (key : Bytes) (m : Manager)
    → IsShaped m
    → IsShaped (finish_creation o h (get_for_key o h key false m)).manager
unfolding get_for_key
get_for_key-IsShaped o h [] m s = unfold finish_creation in unfold finish_by in s
get_for_key-IsShaped o h (b ∷ bs) m s =
    use_selection-IsShaped o h _ m
      (select_slot_sound h.key (keys_or h.keys h.key) o.now m.cached_key_ids
        (keys_or_full h.keys h.key) s.2)
      s

create-IsShaped :
    (o : Outside) (h : DrmHelper) (t : SessionMgrState) (m : Manager)
    → IsShaped m
    → IsShaped (create_in_state t o h m).manager
unfolding create_in_state get_drm_session
create-IsShaped o h inactive m s = s
create-IsShaped o h active m s = get_for_key-IsShaped o h h.key m s

perform-IsShaped : (o : Operation) (m : Manager) → IsShaped m → IsShaped (perform o m)
unfolding perform create_drm_session clear_session_data clear_failed_key_ids clear_drm_session
    set_session_mgr_state update_drm_config
perform-IsShaped (create o h) m s = create-IsShaped o h m.session_mgr_state m s
perform-IsShaped clear_data m (x, y, z) = (
  length-map clear_context m.drm_session_contexts ∙ x,
  length-map _ m.cached_key_ids ∙ y,
  All-any IsSound _ m.cached_key_ids (λ k. blank-IsSound),
)
perform-IsShaped clear_failed m (x, y, z) = (
  x,
  length-map clear_failed_key_id m.cached_key_ids ∙ y,
  All-any IsSound clear_failed_key_id m.cached_key_ids clear_failed_key_id-IsSound,
)
perform-IsShaped (clear_sessions_of b) m (x, y, z) =
    (length-clear_sessions b m.cached_key_ids m.drm_session_contexts ∙ x, y, z)
perform-IsShaped (set_state t) m s = s
perform-IsShaped (update_max n) m s = update_max-IsShaped n m s
perform-IsShaped (update_config c) m s = s
perform-IsShaped (watermark o) m (x, y, z) =
    let (a, b, c) = watermark-Keeps o m in (omega arith, rw (a, c) y, rw a z)

perform_all_keeps : (os : List Operation) (m : Manager) → IsShaped m → IsShaped (perform_all os m)
unfolding perform_all
perform_all_keeps [] m s = s
perform_all_keeps (o ∷ os) m s = perform_all_keeps os (perform o m) (perform-IsShaped o m s)

-- After any sequence of the manager's operations, whatever the helpers, the sessions and the callbacks
-- reply: both arrays have the length `mMaxDRMSessions`, no slot is primary, and each slot that is marked
-- failed has a key.
pub perform_all-IsShaped :
    (os : List Operation) (n : ℕ) (c : Config) → IsShaped (perform_all os (construct n c))
perform_all-IsShaped os n c = perform_all_keeps os (construct n c) (construct-IsShaped n c)
