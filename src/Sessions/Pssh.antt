-- ===== src/Sessions/Pssh.antt =====
-- What the Widevine helper reads out of a PSSH box.
use middleware_player_interf.Common.{
  ℕ, zero, suc, ◌+◌, ◌≡◌, ◌≢◌, ◌<◌, ◌≤◌, refl, Bool, true, false, ◌||◌, bit_and, ◌^◌, List, [], ◌∷◌,
  Option, none, some, arith, ◌==◌, ltb, leb, if◌then◌else◌, length, take, drop, get_or, Bool-cases,
  inl, inr, ltb→lt, Option-cases,
}
use mathlib.Core.Path.{subst}
use middleware_player_interf.Common.Bits.{◌<<<◌}
use middleware_player_interf.Common.Bytes.{same_text}
use middleware_player_interf.Sessions.{Bytes, DrmSession, Manager}
use middleware_player_interf.Sessions.Slots.{has_key}
use middleware_player_interf.Sessions.Creation.{Outside, keys_or, create_drm_session}
use middleware_player_interf.Sessions.Returned.{IsHeld, returned_session-IsHeld}
use middleware_player_interf.Sessions.Widevine.{
  WidevineHelper, read_word, parse_multi_int, ignore_number, keep_scheme, Found, add_key, key_field,
  skip_field, field, stuck, fields, key_ids_of, system_id_widevine, parse_fields, parse_key_ids,
  parse_version, parse_system, parse_type, parse_size, parse_pssh, key_at, widevine_helper,
}

same_text_refl : (t : Bytes) → same_text t t ≡ true
same_text_refl [] = refl
same_text_refl (x ∷ t) = ground (arith, same_text_refl t)

has_key-at : (ks : List Bytes) (i : ℕ) → i < length ks → has_key (get_or ks i []) ks ≡ true
unfolding has_key
has_key-at [] i h = elim h [ ]
has_key-at (k ∷ ks) zero h = rw (same_text_refl k) refl
has_key-at (k ∷ ks) (suc i) h = elim (Bool-cases (same_text k (get_or ks i []))) [
  | inl e ↦ rw e refl
  | inr e ↦ rw e (has_key-at ks i (omega arith))
]

has_key-first : (k : Bytes) (ks : List Bytes) → has_key k (k ∷ ks) ≡ true
has_key-first k ks = has_key-at (k ∷ ks) 0 (omega arith)

chosen_key :
    (b : Bool) (i : ℕ) (k : Bytes) (ks : List Bytes)
    → ltb i (length (k ∷ ks)) ≡ b
    → has_key (if b then get_or (k ∷ ks) i [] else k) (k ∷ ks) ≡ true
chosen_key true i k ks e = has_key-at (k ∷ ks) i (ltb→lt i (length (k ∷ ks)) e)
chosen_key false i k ks e = has_key-first k ks

own_key_of :
    (slot : Option ℕ) (ks : List Bytes)
    → has_key (key_at slot ks) (keys_or ks (key_at slot ks)) ≡ true
unfolding key_at
own_key_of none [] = has_key-first [] []
own_key_of (some i) [] = has_key-first [] []
own_key_of none (k ∷ ks) = has_key-first k ks
own_key_of (some i) (k ∷ ks) = chosen_key (ltb i (length (k ∷ ks))) i k ks refl

-- A session that the manager returns for a Widevine helper, whatever its key ids and its default slot,
-- stands in the first slot that has the helper's key, and this slot is not marked failed.
pub widevine_session-IsHeld :
    (o : Outside) (w : WidevineHelper) (s : DrmSession) (m : Manager)
    → length m.drm_session_contexts ≡ length m.cached_key_ids
    → (create_drm_session o (widevine_helper w) m).session ≡ some s
    → IsHeld (widevine_helper w).key s (create_drm_session o (widevine_helper w) m).manager
unfolding widevine_helper
widevine_session-IsHeld o w s m l e =
    returned_session-IsHeld o (widevine_helper w) s m l (own_key_of w.default_key_slot w.key_ids) e

length-drop : (n : ℕ) (bs : Bytes) → length (drop n bs) ≤ length bs
length-drop zero bs = omega arith
length-drop (suc n) [] = omega arith
length-drop (suc n) (b ∷ bs) = omega (arith, length-drop n bs)

-- What a round leaves is no longer than what it got.
abbrev Shrinks : ℕ → Option (Bytes × Found) → Type 0
Shrinks n none = Unit {0}
Shrinks n (some (rest, f)) = length rest ≤ n

-- The same of a number and what is behind it.
abbrev Leaves : ℕ → Option (ℕ × Bytes) → Type 0
Leaves n none = Unit {0}
Leaves n (some (value, rest)) = length rest ≤ n

Leaves-more : (n n' : ℕ) (r : Option (ℕ × Bytes)) → n ≤ n' → Leaves n r → Leaves n' r
Leaves-more n n' none h l = tt
Leaves-more n n' (some (value, rest)) h l = omega arith

multi_int-Leaves : (s v : ℕ) (bs : Bytes) → Leaves (length bs) (parse_multi_int s v bs)
unfolding parse_multi_int
multi_int-Leaves s v [] = omega arith
multi_int-Leaves s v (c ∷ bs) =
    elim (Bool-cases (leb 32 s || leb (2 ^ 32) (bit_and c 0x7F <<< s))) [
      | inl e ↦ rw e tt
      | inr e ↦ elim (Bool-cases (bit_and c 0x80 == 0)) [
        | inl z ↦ rw (e, z) (omega arith)
        | inr z ↦
            rw (e, z)
              (Leaves-more (length bs) (length (c ∷ bs)) _ (omega arith)
                (multi_int-Leaves (s + 7) _ bs))
      ]
    ]

ignore_number-Shrinks :
    (n : ℕ) (r : Option (ℕ × Bytes)) (f : Found) → Leaves n r → Shrinks n (ignore_number r f)
unfolding ignore_number
ignore_number-Shrinks n none f l = tt
ignore_number-Shrinks n (some (value, rest)) f l = l

keep_scheme-Shrinks :
    (n : ℕ) (r : Option (ℕ × Bytes)) (f : Found) → Leaves n r → Shrinks n (keep_scheme r f)
unfolding keep_scheme
keep_scheme-Shrinks n none f l = tt
keep_scheme-Shrinks n (some (value, rest)) f l = l

key_field-Shrinks : (bs : Bytes) (f : Found) → Shrinks (length bs) (key_field bs f)
unfolding key_field
key_field-Shrinks [] f = tt
key_field-Shrinks (n ∷ bs) f = omega (arith, length-drop n bs)

skip_field-Shrinks : (bs : Bytes) (f : Found) → Shrinks (length bs) (skip_field bs f)
unfolding skip_field
skip_field-Shrinks [] f = tt
skip_field-Shrinks (n ∷ bs) f = omega (arith, length-drop n bs)

field-Shrinks : (t : ℕ) (bs : Bytes) (f : Found) → Shrinks (length bs) (field t bs f)
unfolding field
field-Shrinks t bs f = elim (Bool-cases (t == 0x38 || (t == 0x50 || t == 0x08))) [
  | inl a ↦ rw a (ignore_number-Shrinks (length bs) _ f (multi_int-Leaves 0 0 bs))
  | inr a ↦ elim (Bool-cases (t == 0x48)) [
    | inl b ↦ rw (a, b) (keep_scheme-Shrinks (length bs) _ f (multi_int-Leaves 0 0 bs))
    | inr b ↦ elim (Bool-cases (t == 0x22 || t == 0x12)) [
      | inl c ↦ rw (a, b, c) (key_field-Shrinks bs f)
      | inr c ↦ elim (Bool-cases (t == 0x32 || (t == 0x2A || t == 0x1A))) [
        | inl d ↦ rw (a, b, c, d) (skip_field-Shrinks bs f)
        | inr d ↦ rw (a, b, c, d) (omega arith)
      ]
    ]
  ]
]

fields_end : (fuel : ℕ) (bs : Bytes) (f : Found) → length bs ≤ fuel → fields fuel bs f ≢ stuck
unfolding fields
fields_end fuel [] f h = cc
fields_end zero (t ∷ bs) f h = absurd (omega arith)
fields_end (suc fuel) (t ∷ bs) f h = elim (Option-cases (field t bs f)) [
  | inl e ↦ rw (e, fields) (λ q. absurd (cc))
  | inr (p, e) ↦
      let s : Shrinks (length bs) (some p) =
        subst (λ r. Shrinks (length bs) r) e (field-Shrinks t bs f) in
      rw (e, fields) (fields_end fuel p.0 p.1 (omega arith))
]

key_ids_end : (n : ℕ) (bs : Bytes) (f : Found) → key_ids_of n bs f ≢ stuck
unfolding key_ids_of
key_ids_end zero bs f = cc
key_ids_end (suc n) bs f = elim (Bool-cases (leb 16 (length bs))) [
  | inl e ↦ rw e (key_ids_end n (drop 16 bs) (add_key (take 16 bs) f))
  | inr e ↦ rw e (λ q. absurd (cc))
]

parse_fields_end : (r : Option (ℕ × Bytes)) (f : Found) → parse_fields r f ≢ stuck
unfolding parse_fields
parse_fields_end none f = cc
parse_fields_end (some (n, bs)) f = fields_end (length bs) bs f (omega arith)

parse_key_ids_end : (r : Option (ℕ × Bytes)) (f : Found) → parse_key_ids r f ≢ stuck
unfolding parse_key_ids
parse_key_ids_end none f = cc
parse_key_ids_end (some (n, bs)) f = key_ids_end n bs f

parse_version_end : (v : ℕ) (bs : Bytes) (f : Found) → parse_version v bs f ≢ stuck
unfolding parse_version
parse_version_end v bs f = elim (Bool-cases (v == 0)) [
  | inl a ↦ rw a (parse_fields_end (read_word bs) f)
  | inr a ↦ elim (Bool-cases (v == 1)) [
    | inl b ↦ rw (a, b) (parse_key_ids_end (read_word bs) f)
    | inr b ↦ rw (a, b) (λ q. absurd (cc))
  ]
]

parse_system_end : (r : Option (ℕ × Bytes)) (f : Found) → parse_system r f ≢ stuck
unfolding parse_system
parse_system_end none f = cc
parse_system_end (some (v, bs)) f = elim (Bool-cases (ltb (length bs) 16)) [
  | inl a ↦ rw a (λ q. absurd (cc))
  | inr a ↦ elim (Bool-cases (same_text (take 16 bs) system_id_widevine)) [
    | inl b ↦ rw (a, b) (parse_version_end _ (drop 16 bs) f)
    | inr b ↦ rw (a, b) (λ q. absurd (cc))
  ]
]

parse_type_end : (r : Option (ℕ × Bytes)) (f : Found) → parse_type r f ≢ stuck
unfolding parse_type
parse_type_end none f = cc
parse_type_end (some (t, bs)) f = elim (Bool-cases (t == 0x70737368)) [
  | inl a ↦ rw a (parse_system_end (read_word bs) f)
  | inr a ↦ rw a (λ q. absurd (cc))
]

parse_size_end : (n : ℕ) (r : Option (ℕ × Bytes)) (f : Found) → parse_size n r f ≢ stuck
unfolding parse_size
parse_size_end n none f = cc
parse_size_end n (some (t, bs)) f = elim (Bool-cases (t == n)) [
  | inl a ↦ rw a (parse_type_end (read_word bs) f)
  | inr a ↦ rw a (λ q. absurd (cc))
]

-- On every input the loops of `parsePssh` end: the number of bytes is fuel enough for the fields.
pub parse_pssh_ends : (pssh : Bytes) (w : WidevineHelper) → parse_pssh pssh w ≢ stuck
unfolding parse_pssh
parse_pssh_ends pssh w = parse_size_end (length pssh) (read_word pssh) _
