-- ===== src/Sessions/Sound.antt =====
-- What the selection of a slot keeps of the array of key ids.
use middleware_player_interf.Common.{
  ℕ, ◌≡◌, ◌<◌, refl, ap, ◌∙◌, true, false, List, some, get_or, set, length, All, All-set,
  length-set, Bool-cases, inl, inr, ◌⊎◌, arith,
}
use middleware_player_interf.Common.Search.{first_from_cases, get_or-split}
use middleware_player_interf.Common.{get_or-set, ◌+◌}
use middleware_player_interf.Sessions.Cached.{place-Split}
use middleware_player_interf.Sessions.Oldest.{choose_slot-IsOldest}
use middleware_player_interf.Sessions.{Bytes, KeyId, blank_key_id}
use middleware_player_interf.Sessions.Slots.{
  is_empty, slot_has, Selection, refused, selected, select_slot, select_slot_at, select_cached,
  select_new, choose_slot, find_slot,
}

-- No slot is primary, and one that is marked failed has keys.
abbrev pub IsSound : KeyId → Type 0
IsSound k =
    (k.is_primary_key_id ≡ false) × ((k.is_failed_key_id ≡ false) ⊎ (is_empty k.keys ≡ false))

-- What a selection leaves: an array of the same length, all of it sound, and keys in the slot.
abbrev pub LeavesSound : List KeyId → Selection → Type 0
LeavesSound ks r =
    (r ≡ refused)
    ⊎ ((i : ℕ) × (ks' : List KeyId) × (r ≡ selected i ks')
        × (length ks' ≡ length ks)
        × All IsSound ks'
        × (is_empty (get_or ks' i blank_key_id).keys ≡ false))

select_new_sound :
    (keys : List Bytes) (now : ℕ) (ks : List KeyId)
    → is_empty keys ≡ false
    → All IsSound ks
    → LeavesSound ks (select_new keys now false ks (choose_slot ks))
unfolding select_new
select_new_sound keys now ks e h = elim (choose_slot-IsOldest ks) [
  | inl (n, b) ↦ inl (rw n refl)
  | inr (i, f, (b, c)) ↦
      let k : KeyId = record {
        keys = keys;
        creation_time = now;
        is_failed_key_id = false;
        is_primary_key_id = false;
      } in
      inr (
        i,
        set ks i k,
        rw f refl,
        length-set ks i k,
        All-set IsSound ks i k h (refl, inl refl),
        ap (λ (x : KeyId). is_empty x.keys) (get_or-set ks i k blank_key_id b) ∙ e,
      )
]

select_cached_sound :
    (now i : ℕ) (ks : List KeyId)
    → i < length ks
    → is_empty (get_or ks i blank_key_id).keys ≡ false
    → All IsSound ks
    → LeavesSound ks (select_cached now false i ks)
unfolding select_cached
select_cached_sound now i ks b e h =
    let old : KeyId = get_or ks i blank_key_id in
    let k : KeyId = record old { creation_time = now; is_primary_key_id = false } in
    elim (Bool-cases old.is_failed_key_id) [
      | inl f ↦ inl (rw f refl)
      | inr f ↦ inr (
        i,
        set ks i k,
        rw f refl,
        length-set ks i k,
        All-set IsSound ks i k h (refl, inl f),
        ap (λ (x : KeyId). is_empty x.keys) (get_or-set ks i k blank_key_id b) ∙ e,
      )
    ]

has_slot : (key : Bytes) (k : KeyId) → slot_has key k ≡ true → is_empty k.keys ≡ false
has_slot key k e = ground arith

pub select_slot_sound :
    (key : Bytes) (keys : List Bytes) (now : ℕ) (ks : List KeyId)
    → is_empty keys ≡ false
    → All IsSound ks
    → LeavesSound ks (select_slot key keys now false ks)
unfolding select_slot select_slot_at find_slot
select_slot_sound key keys now ks e h = elim (first_from_cases (slot_has key) 0 ks) [
  | inl (n, a) ↦ rw n (select_new_sound keys now ks e h)
  | inr (s, f) ↦
      let i : ℕ = length s.before in
      let here : 0 + i ≡ i = omega arith in
      let at : get_or ks i blank_key_id ≡ s.found =
        ap (λ xs. get_or xs i blank_key_id) s.whole
        ∙ get_or-split s.before s.after s.found blank_key_id in
      let full : is_empty s.found.keys ≡ false = has_slot key s.found s.passes in
      rw (f ∙ ap some here) (select_cached_sound now i ks (place-Split s) (rw at full) h)
]
