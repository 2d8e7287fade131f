-- ===== src/Sessions/Failed.antt =====
-- A key that was marked failed, and how it becomes free again.
use middleware_player_interf.Common.{
  ℕ, ◌≡◌, ◌≢◌, refl, Bool, false, List, [], ◌∷◌, Option, none, some, get_or, All, All-any, All-at,
  Bool-cases, inl, inr, arith,
}
use middleware_player_interf.Sessions.{
  Bytes, SessionMgrState, inactive, active, KeyId, blank_key_id, Manager, clear_failed_key_id,
  clear_failed_key_ids,
}
use middleware_player_interf.Sessions.Slots.{
  refused, select_slot, select_slot_at, select_cached, slot_status, is_key_id_processed,
}
use middleware_player_interf.Sessions.Creation.{
  DrmHelper, Outside, Created, use_selection, keys_or, get_for_key, get_drm_session, finish_by,
  finish_creation, create_in_state, create_drm_session,
}

-- No session, and a manager that differs at most in the custom data.
abbrev pub IsRefusal : Manager → Created → Type 0
IsRefusal m c = (c.session ≡ none) × ((d : Bytes) × (c.manager ≡ record m { custom_data = d }))

select_slot_refuses :
    (key : Bytes) (keys : List Bytes) (now : ℕ) (p : Bool) (ks : List KeyId) (i : Option ℕ)
    → slot_status ks i ≡ some false
    → select_slot_at keys now p ks i ≡ refused
unfolding slot_status select_slot_at select_cached
select_slot_refuses key keys now p ks none e = absurd (cc)
select_slot_refuses key keys now p ks (some i) e =
    elim (Bool-cases (get_or ks i blank_key_id).is_failed_key_id) [
      | inl f ↦ rw f refl
      | inr f ↦ absurd (ground arith)
    ]

get_for_key_refuses :
    (o : Outside) (h : DrmHelper) (key : Bytes) (m : Manager)
    → is_key_id_processed h.key m ≡ some false
    → IsRefusal m (finish_creation o h (get_for_key o h key false m))
unfolding get_for_key finish_creation finish_by is_key_id_processed select_slot
get_for_key_refuses o h [] m e = (refl, (_, refl))
get_for_key_refuses o h (b ∷ bs) m e =
    rw (select_slot_refuses h.key (keys_or h.keys h.key) o.now false m.cached_key_ids _ e)
      (unfold use_selection in (refl, (_, refl)))

create_in_state_refuses :
    (o : Outside) (h : DrmHelper) (t : SessionMgrState) (m : Manager)
    → is_key_id_processed h.key m ≡ some false
    → IsRefusal m (create_in_state t o h m)
unfolding create_in_state get_drm_session
create_in_state_refuses o h inactive m e = (refl, (m.custom_data, refl))
create_in_state_refuses o h active m e = get_for_key_refuses o h h.key m e

create_refuses :
    (o : Outside) (h : DrmHelper) (m : Manager)
    → is_key_id_processed h.key m ≡ some false
    → IsRefusal m (create_drm_session o h m)
unfolding create_drm_session
create_refuses o h m e = create_in_state_refuses o h m.session_mgr_state m e

-- Calls of `createDrmSession` for one helper, one after the other.
unfoldable pub attempts : DrmHelper → List Outside → Manager → Manager
attempts h [] m = m
attempts h (o ∷ os) m = attempts h os (create_drm_session o h m).manager

-- As long as a key counts as processed without success, each call of `createDrmSession` for it returns
-- null, however many calls there have been, and leaves everything but the custom data as it was.
pub failed_key_is_refused :
    (h : DrmHelper) (os : List Outside) (o : Outside) (m : Manager)
    → is_key_id_processed h.key m ≡ some false
    → IsRefusal m (create_drm_session o h (attempts h os m))
unfolding attempts
failed_key_is_refused h [] o m e = create_refuses o h m e
failed_key_is_refused h (o' ∷ os) o m e =
    let (n, (d, f)) = create_refuses o' h m e in
    rw f (
      failed_key_is_refused h os o (record m { custom_data = d }) (unfold is_key_id_processed in e))

IsFine : KeyId → Type 0
IsFine k = k.is_failed_key_id ≡ false

clear_failed_key_id-IsFine : (k : KeyId) → IsFine (clear_failed_key_id k)
unfolding clear_failed_key_id IsFine
clear_failed_key_id-IsFine k = ground arith

status_of_fine : (ks : List KeyId) (i : Option ℕ) → All IsFine ks → slot_status ks i ≢ some false
unfolding slot_status IsFine blank_key_id
status_of_fine ks none h e = cc
status_of_fine ks (some i) h e =
    let f : (get_or ks i blank_key_id).is_failed_key_id ≡ false =
      All-at IsFine ks i blank_key_id h refl in
    ground arith

-- After `clearFailedKeyIds` no key counts as processed without success.
pub clear_failed_key_ids_lem :
    (key : Bytes) (m : Manager) → is_key_id_processed key (clear_failed_key_ids m) ≢ some false
unfolding is_key_id_processed clear_failed_key_ids
clear_failed_key_ids_lem key m =
    status_of_fine _ _
      (All-any IsFine clear_failed_key_id m.cached_key_ids clear_failed_key_id-IsFine)
