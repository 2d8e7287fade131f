-- ===== src/Sessions/Cached.antt =====
-- What the selection of a slot leaves: the key is cached, and its slot is the first one with it.
use middleware_player_interf.Common.{
  ℕ, ◌+◌, ◌≡◌, ◌<◌, refl, ap, ◌∙◌, Bool, true, false, not, ◌&&◌, List, [], ◌∷◌, some, arith, length,
  get_or, set, All, Bool-cases, ◌⊎◌, inl, inr, length-set, get_or-set, length-append,
}
use middleware_player_interf.Common.Search.{
  first_from, first_from_cases, first_from-set, first_from-replaced, Split,
}
use middleware_player_interf.Sessions.{Bytes, KeyId, blank_key_id}
use middleware_player_interf.Sessions.Slots.{
  has_key, is_empty, slot_has, find_slot, choose_slot, Selection, refused, selected, select_new,
  select_cached, select_slot_at, select_slot,
}
use middleware_player_interf.Sessions.Oldest.{choose_slot-IsOldest}

-- The first slot with the key, which is not marked failed.
abbrev pub IsCached : Bytes → ℕ → List KeyId → Type 0
IsCached key i ks =
    (find_slot key ks ≡ some i)
    × ((get_or ks i blank_key_id).is_failed_key_id ≡ false)
    × (i < length ks)

-- What a selection may be.
abbrev pub Selects : Bytes → List KeyId → Selection → Type 0
Selects key ks r =
    (r ≡ refused)
    ⊎ ((i : ℕ) × (ks' : List KeyId) × (r ≡ selected i ks')
        × IsCached key i ks'
        × (length ks' ≡ length ks))

has_key-slot :
    (key : Bytes) (keys : List Bytes)
    → has_key key keys ≡ true
    → (not (is_empty keys) && has_key key keys) ≡ true
has_key-slot key [] h = unfold has_key in absurd (ground arith)
has_key-slot key (k ∷ ks) h = h

select_new_cached :
    (key : Bytes) (keys : List Bytes) (now : ℕ) (p : Bool) (ks : List KeyId)
    → has_key key keys ≡ true
    → All (λ k. slot_has key k ≡ false) ks
    → Selects key ks (select_new keys now p ks (choose_slot ks))
unfolding find_slot
select_new_cached key keys now p ks h a = elim (choose_slot-IsOldest ks) [
  | inl (n, b) ↦ inl (rw n (unfold select_new in refl))
  | inr (i, e, (b, c)) ↦
      let k : KeyId = record {
        keys = keys;
        creation_time = now;
        is_failed_key_id = false;
        is_primary_key_id = p;
      } in
      let here : 0 + i ≡ i = omega arith in
      inr (
        i,
        set ks i k,
        rw e (unfold select_new in refl),
        (
          first_from-set (slot_has key) 0 i ks k a b (has_key-slot key keys h) ∙ ap some here,
          rw (get_or-set ks i k blank_key_id b) refl,
          rw (length-set ks i k) b,
        ),
        length-set ks i k,
      )
]

select_cached_cached :
    (key : Bytes) (now : ℕ) (p : Bool) (i : ℕ) (ks : List KeyId)
    → find_slot key ks ≡ some i
    → i < length ks
    → Selects key ks (select_cached now p i ks)
unfolding select_cached find_slot
select_cached_cached key now p i ks e b =
    let old : KeyId = get_or ks i blank_key_id in
    let k : KeyId = record old { creation_time = now; is_primary_key_id = p } in
    elim (Bool-cases old.is_failed_key_id) [
      | inl f ↦ inl (rw f refl)
      | inr f ↦ inr (
        i,
        set ks i k,
        rw f refl,
        (
          first_from-replaced (slot_has key) 0 i ks k blank_key_id refl b ∙ e,
          ap (λ (x : KeyId). x.is_failed_key_id) (get_or-set ks i k blank_key_id b) ∙ f,
          rw (length-set ks i k) b,
        ),
        length-set ks i k,
      )
    ]

pub place-Split :
    {test : KeyId → Bool} {ks : List KeyId} (s : Split test ks) → length s.before < length ks
place-Split s = omega (arith, ap length s.whole, length-append s.before (s.found ∷ s.after))

pub select_slot_cached :
    (key : Bytes) (keys : List Bytes) (now : ℕ) (p : Bool) (ks : List KeyId)
    → has_key key keys ≡ true
    → Selects key ks (select_slot key keys now p ks)
unfolding select_slot select_slot_at find_slot
select_slot_cached key keys now p ks h = elim (first_from_cases (slot_has key) 0 ks) [
  | inl (n, a) ↦ rw n (select_new_cached key keys now p ks h a)
  | inr (s, f) ↦
      let i : ℕ = length s.before in
      let here : 0 + i ≡ i = omega arith in
      let e : first_from (slot_has key) 0 ks ≡ some i = f ∙ ap some here in
      rw e (select_cached_cached key now p i ks (unfold find_slot in e) (place-Split s))
]
