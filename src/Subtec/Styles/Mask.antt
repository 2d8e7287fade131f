-- ===== src/Subtec/Styles/Mask.antt =====
-- What `getAttributes` assigns, and the mask.
use middleware_player_interf.Common.{
  ℕ, zero, suc, ◌≡◌, ◌≢◌, ◌<◌, refl, sym, ◌∙◌, true, false, bit_or, List, [], ◌∷◌, Option, none,
  some, set, get_elem?, length, arith, ◌==◌, if◌then◌else◌, ◌⊎◌, inl, inr, Bool-cases, ==_iff, ◌/◌,
  All,
}
use middleware_player_interf.Common.Bits.{
  ◌<<<◌, bit_at, bit_at-bit_or, bit_at-shift_same, bit_at-shift_other,
}
use middleware_player_interf.Mp4.Restamp.Written.{get_elem?-set, get_elem?-set_other, length-set}
use middleware_player_interf.Subtec.Styles.{Block, Attributes, assign, assign_all}

-- What a value leaves of an entry of the array and of its bit.
abbrev pub Leaves : Option ℕ → Option ℕ → ℕ → Option ℕ → ℕ → Type 0
Leaves none old old_bit new new_bit = (new ≡ old) × (new_bit ≡ old_bit)
Leaves (some v) old old_bit new new_bit = (new ≡ some v) × (new_bit ≡ 1)

-- A value, or what was found before.
abbrev pub or_found : Option ℕ → Option ℕ → Option ℕ
or_found none found = found
or_found (some v) found = some v

-- The last value that a list of blocks has for a position.
abbrev pub latest : List Block → ℕ → Option ℕ → Option ℕ
latest [] k found = found
latest ((p, (b, o)) ∷ bs) k found = latest bs k (if p == k then or_found o found else found)

latest-none :
    (p b : ℕ) (bs : List Block) (k : ℕ) (found : Option ℕ)
    → latest ((p, (b, none)) ∷ bs) k found ≡ latest bs k found
latest-none p b bs k found = elim (Bool-cases (p == k)) [ inl f ↦ rw f refl | inr f ↦ rw f refl ]

-- A block sets the bit of its position.
abbrev pub IsPaired : Block → Type 0
IsPaired b = b.1.0 ≡ b.0

pub bit-set : (k a : ℕ) → bit_at k a < 2 → bit_at k (bit_or a (1 <<< k)) ≡ 1
bit-set k a h = omega (arith, bit_at-bit_or k a (1 <<< k), bit_at-shift_same k)

pub bit-kept : (k p a : ℕ) → k ≢ p → bit_at k (bit_or a (1 <<< p)) ≡ bit_at k a
bit-kept k p a h = omega (arith, bit_at-bit_or k a (1 <<< p), bit_at-shift_other k p h)

pub bit-small : (k a : ℕ) → bit_at k a < 2
bit-small zero a = omega arith
bit-small (suc k) a = bit-small k (a / 2)

pub same-or_other : (p k : ℕ) → (((p == k) ≡ true) × (p ≡ k)) ⊎ (((p == k) ≡ false) × (k ≢ p))
same-or_other p k = elim (Bool-cases (p == k)) [
  | inl e ↦ inl (e, (==_iff p k).0 e)
  | inr e ↦ inr (e, λ q. true≢false (sym ((==_iff p k).1 (sym q)) ∙ e))
]
  where
    true≢false : true ≢ false
    true≢false = λ q. absurd (cc)

Leaves-eq :
    (o : Option ℕ) (old : Option ℕ) (old_bit : ℕ) (new new' : Option ℕ) (bit bit' : ℕ)
    → new' ≡ new
    → bit' ≡ bit
    → Leaves o old old_bit new bit
    → Leaves o old old_bit new' bit'
Leaves-eq none old old_bit new new' bit bit' e f h = (e ∙ h.0, f ∙ h.1)
Leaves-eq (some v) old old_bit new new' bit bit' e f h = (e ∙ h.0, f ∙ h.1)

pub assign_all-Leaves :
    (bs : List Block) (s : Attributes) (k : ℕ) (found old : Option ℕ) (old_bit : ℕ)
    → All IsPaired bs
    → k < length s.values
    → Leaves found old old_bit (get_elem? s.values k) (bit_at k s.mask)
    → Leaves
        (latest bs k found)
        old
        old_bit
        (get_elem? (assign_all bs s).values k)
        (bit_at k (assign_all bs s).mask)
unfolding assign_all assign
assign_all-Leaves [] s k found old old_bit i h l = l
assign_all-Leaves ((p, (b, none)) ∷ bs) s k found old old_bit (q, i) h l =
    rw (latest-none p b bs k found) (assign_all-Leaves bs s k found old old_bit i h l)
assign_all-Leaves ((p, (b, some v)) ∷ bs) s k found old old_bit (paired, i) h l =
    let t : Attributes = record { values = set s.values p v; mask = bit_or s.mask (1 <<< b) } in
    let long : k < length t.values = rw (length-set s.values p v) h in
    elim (same-or_other p k) [
      | inl (e, q) ↦
          let now : Leaves (some v) old old_bit (get_elem? t.values k) (bit_at k t.mask) =
            rw (paired, q) (get_elem?-set s.values k v h, bit-set k s.mask (bit-small k s.mask)) in
          rw e (assign_all-Leaves bs t k (some v) old old_bit i long now)
      | inr (e, n) ↦
          let kept : bit_at k t.mask ≡ bit_at k s.mask = rw paired (bit-kept k p s.mask n) in
          let now =
            Leaves-eq found old old_bit (get_elem? s.values k) (get_elem? t.values k)
              (bit_at k s.mask) (bit_at k t.mask)
              (get_elem?-set_other s.values p k v (λ q. n (sym q))) kept l in
          rw e (assign_all-Leaves bs t k found old old_bit i long now)
    ]
