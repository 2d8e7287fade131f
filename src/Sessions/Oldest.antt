-- ===== src/Sessions/Oldest.antt =====
-- The slot that a new key id takes.
use middleware_player_interf.Common.{
  ℕ, suc, ◌+◌, ◌≡◌, ◌<◌, ◌≤◌, refl, ap, ◌∙◌, sym, Bool, true, false, not, List, [], ◌∷◌, ◌++◌, none,
  some, arith, length, get_or, drop, All, All-append, All-map, ◌⊎◌, inl, inr, ltb, if◌then◌else◌,
  length-append,
}
use middleware_player_interf.Common.Search.{
  first_from_cases, get_or-split, drop-split, append-one, append-nil,
}
use middleware_player_interf.Sessions.{KeyId, blank_key_id}
use middleware_player_interf.Sessions.Slots.{first_free, older, older_slot, choose_slot}

abbrev pub time_at : List KeyId → ℕ → ℕ
time_at ks i = (get_or ks i blank_key_id).creation_time

abbrev pub IsPrimary : KeyId → Type 0
IsPrimary k = k.is_primary_key_id ≡ true

-- A slot is primary, or not older than a time.
abbrev pub IsSpared : ℕ → KeyId → Type 0
IsSpared t k = IsPrimary k ⊎ (t ≤ k.creation_time)

-- The place of a slot, and that no slot which could be taken is older.
abbrev pub IsOldest : List KeyId → ℕ → Type 0
IsOldest ks i = (i < length ks) × All (IsSpared (time_at ks i)) ks

IsSpared-lower : (t u : ℕ) → t ≤ u → (k : KeyId) → IsSpared u k → IsSpared t k
IsSpared-lower t u h k (inl p) = inl p
IsSpared-lower t u h k (inr p) = inr (omega arith)

-- What the loop's variables are about: a slot among those before, its time, and which it spares.
abbrev Holds : List KeyId → List KeyId → ℕ → ℕ → Type 0
Holds all pre slot time = (slot < length pre) × (time ≡ time_at all slot) × All (IsSpared time) pre

older_step :
    (pre ks : List KeyId) (k : KeyId) (slot time : ℕ) (b : Bool)
    → b ≡ ltb k.creation_time time
    → Holds (pre ++ (k ∷ ks)) pre slot time
    → Holds
        (pre ++ (k ∷ ks))
        (pre ++ (k ∷ []))
        (if b then length pre else slot)
        (if b then k.creation_time else time)
older_step pre ks k slot time true e (h, t, p) = (
  omega (arith, length-append pre (k ∷ [])),
  sym (ap (λ (x : KeyId). x.creation_time) (get_or-split pre ks k blank_key_id)),
  All-append (IsSpared k.creation_time) pre (k ∷ [])
      (All-map (IsSpared time) (IsSpared k.creation_time)
        (IsSpared-lower k.creation_time time (ground arith)) pre p)
      (inr (omega arith), tt),
)
older_step pre ks k slot time false e (h, t, p) = (
  omega (arith, length-append pre (k ∷ [])),
  t,
  All-append (IsSpared time) pre (k ∷ []) p (inr (ground arith), tt),
)

older_lem :
    (all pre ks : List KeyId) (i slot time : ℕ)
    → all ≡ pre ++ ks
    → i ≡ length pre
    → Holds all pre slot time
    → IsOldest all (older i slot time ks)
unfolding older
older_lem all pre [] i slot time e j (h, t, p) =
    let whole : all ≡ pre = e ∙ append-nil pre in (rw whole h, rw (← t) (rw whole p))
older_lem all pre (k ∷ ks) i slot time e j q =
    let at : Holds (pre ++ (k ∷ ks)) pre slot time = rw (← e) q in
    older_lem all (pre ++ (k ∷ [])) ks (suc i) _ _ (e ∙ sym (append-one pre ks k))
      (omega (arith, length-append pre (k ∷ [])))
      (rw (e, j) (older_step pre ks k slot time (ltb k.creation_time time) refl at))

abbrev IsTaken : KeyId → Type 0
IsTaken k = not k.is_primary_key_id ≡ false

taken : (k : KeyId) → IsTaken k → IsPrimary k
taken k h = ground arith

from_first_free :
    (pre post : List KeyId) (k : KeyId)
    → All IsTaken pre
    → let all = pre ++ (k ∷ post) in
      let n = length pre in
      let i = older (suc n) n (time_at all n) (drop (suc n) all) in IsOldest all i
from_first_free pre post k p =
    let all = pre ++ (k ∷ post) in
    let n = length pre in
    let here : time_at all n ≡ k.creation_time =
      ap (λ (x : KeyId). x.creation_time) (get_or-split pre post k blank_key_id) in
    rw (drop-split pre post k) (
      older_lem all (pre ++ (k ∷ [])) post (suc n) n (time_at all n) (sym (append-one pre post k))
        (omega (arith, length-append pre (k ∷ [])))
        (
          omega (arith, length-append pre (k ∷ [])),
          refl,
          All-append (IsSpared (time_at all n)) pre (k ∷ [])
              (All-map IsTaken (IsSpared (time_at all n)) (λ x h. inl (taken x h)) pre p)
              (inr (omega (arith, here)), tt),
        ))

-- A choice fails only where every slot is primary; otherwise it gives a slot of the array, and no slot
-- that is not primary is older than this one.
pub choose_slot-IsOldest :
    (ks : List KeyId)
    → ((choose_slot ks ≡ none) × All IsPrimary ks)
      ⊎ ((i : ℕ) × (choose_slot ks ≡ some i) × IsOldest ks i)
unfolding choose_slot older_slot first_free
choose_slot-IsOldest ks = elim (first_from_cases (λ k. not k.is_primary_key_id) 0 ks) [
  | inl (n, p) ↦ inl (ap (older_slot ks) n, All-map IsTaken IsPrimary taken ks p)
  | inr (s, f) ↦
      let here : 0 + length s.before ≡ length s.before = omega arith in
      inr (
        _,
        ap (older_slot ks) (f ∙ ap some here),
        rw s.whole (from_first_free s.before s.after s.found s.others),
      )
]
