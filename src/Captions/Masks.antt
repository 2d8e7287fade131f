-- ===== src/Captions/Masks.antt =====
-- What `SetStyle` makes of the attributes, and what `sendCCSetAttribute` takes over.
use middleware_player_interf.Common.{
  ℕ, zero, suc, ◌+◌, ◌≡◌, ◌≢◌, ◌<◌, refl, ap, ◌∙◌, List, [], ◌∷◌, Option, none, some, set, get_or,
  length, arith, bit_or, ◌==◌, if◌then◌else◌, inl, inr, Bool-cases, length-set,
}
use middleware_player_interf.Common.Bits.{bit_at, ◌<<<◌}
use middleware_player_interf.Subtec.Styles.Mask.{bit-set, bit-kept, bit-small, same-or_other}
use middleware_player_interf.Captions.Styling.{
  Block, Styles, write_known, apply_block, apply_blocks, take_masked,
}

-- The value of an option that is there and known, and else another one.
abbrev pub chosen : Option (Option ℕ) → ℕ → ℕ
chosen none v = v
chosen (some none) v = v
chosen (some (some w)) v = w

-- The last known value that the blocks have for an attribute, after one.
abbrev pub known : List Block → ℕ → ℕ → ℕ
known [] k v = v
known ((p, (b, o)) ∷ bs) k v = known bs k (if p == k then chosen o v else v)

pub known-unknown :
    (p b : ℕ) (o : Option (Option ℕ)) (bs : List Block) (k v : ℕ)
    → chosen o v ≡ v
    → known ((p, (b, o)) ∷ bs) k v ≡ known bs k v
known-unknown p b o bs k v e = elim (Bool-cases (p == k)) [
  | inl f ↦ rw (f, e) refl
  | inr f ↦ rw f refl
]

-- Whether a block is there for a bit, after one.
abbrev pub named : List Block → ℕ → ℕ → ℕ
named [] k x = x
named ((p, (b, none)) ∷ bs) k x = named bs k x
named ((p, (b, some v)) ∷ bs) k x = named bs k (if b == k then 1 else x)

-- The attribute and the bit at a position.
abbrev pub At : ℕ → Styles → ℕ → ℕ → Type 0
At k s v b = (k < length s.values) × (get_or s.values k 0 ≡ v) × (bit_at k s.mask ≡ b)

get_or-set_same : (xs : List ℕ) (k v : ℕ) → k < length xs → get_or (set xs k v) k 0 ≡ v
get_or-set_same [] k v h = elim h [ ]
get_or-set_same (x ∷ xs) zero v h = refl
get_or-set_same (x ∷ xs) (suc k) v h = get_or-set_same xs k v (omega arith)

get_or-set_other : (xs : List ℕ) (p k v : ℕ) → k ≢ p → get_or (set xs p v) k 0 ≡ get_or xs k 0
get_or-set_other [] p k v h = refl
get_or-set_other (x ∷ xs) zero zero v h = absurd (h refl)
get_or-set_other (x ∷ xs) zero (suc k) v h = refl
get_or-set_other (x ∷ xs) (suc p) zero v h = refl
get_or-set_other (x ∷ xs) (suc p) (suc k) v h = get_or-set_other xs p k v (λ e. h (ap suc e))

-- One block that is there: the attribute.
written-value :
    (p k : ℕ) (o : Option ℕ) (xs : List ℕ) (v : ℕ)
    → k < length xs
    → get_or xs k 0 ≡ v
    → (k < length (write_known xs p o))
      × (get_or (write_known xs p o) k 0 ≡ (if p == k then chosen (some o) v else v))
written-value p k none xs v h x = elim (Bool-cases (p == k)) [
  | inl e ↦ rw e (h, x)
  | inr e ↦ rw e (h, x)
]
written-value p k (some w) xs v h x =
    let long : k < length (set xs p w) = rw (length-set xs p w) h in
    elim (same-or_other p k) [
      | inl (e, q) ↦ (long, rw (e, q) (get_or-set_same xs k w h))
      | inr (e, n) ↦ (long, rw e (get_or-set_other xs p k w n ∙ x))
    ]

-- Its bit.
marked-bit :
    (b k mask x : ℕ)
    → bit_at k mask ≡ x
    → bit_at k (bit_or mask (1 <<< b)) ≡ (if b == k then 1 else x)
marked-bit b k mask x y = elim (same-or_other b k) [
  | inl (e, q) ↦ rw (e, q) (bit-set k mask (bit-small k mask))
  | inr (e, n) ↦ rw e (bit-kept k b mask n ∙ y)
]

pub apply_blocks-At :
    (bs : List Block) (k : ℕ) (s : Styles) (v x : ℕ)
    → At k s v x
    → At k (apply_blocks bs s) (known bs k v) (named bs k x)
unfolding apply_blocks apply_block
apply_blocks-At [] k s v x a = a
apply_blocks-At ((p, (b, none)) ∷ bs) k s v x a =
    rw (known-unknown p b none bs k v refl) (apply_blocks-At bs k s v x a)
apply_blocks-At ((p, (b, some o)) ∷ bs) k s v x (h, y, z) =
    let (long, value) = written-value p k o s.values v h y in
    apply_blocks-At bs k (apply_block p b (some o) s) _ _ (long, value, marked-bit b k s.mask x z)

-- The loop of `sendCCSetAttribute` at a position: where the bit of the type is set, the new attribute is
-- kept and sent; elsewhere the old one stays, and 0 is sent.
abbrev pub Takes : ℕ → ℕ → ℕ → List ℕ × List ℕ → ℕ → Type 0
Takes bit old new taken k =
    (get_or taken.0 k 0 ≡ (if bit == 1 then new else old))
    × (get_or taken.1 k 0 ≡ (if bit == 1 then new else 0))

pub take_masked-Takes :
    (t i : ℕ) (olds news : List ℕ) (k : ℕ)
    → k < length olds
    → length news ≡ length olds
    → Takes (bit_at (i + k) t) (get_or olds k 0) (get_or news k 0) (take_masked t i olds news) k
unfolding take_masked
take_masked-Takes t i [] news k h e = elim h [ ]
take_masked-Takes t i (o ∷ olds) [] k h e = absurd (omega arith)
take_masked-Takes t i (o ∷ olds) (n ∷ news) zero h e =
    let here : i + 0 ≡ i = omega arith in
    elim (Bool-cases (bit_at i t == 1)) [
      | inl f ↦ rw (here, f) (refl, refl)
      | inr f ↦ rw (here, f) (refl, refl)
    ]
take_masked-Takes t i (o ∷ olds) (n ∷ news) (suc k) h e =
    let next : i + suc k ≡ suc i + k = omega arith in
    let (a, b) = take_masked-Takes t (suc i) olds news k (omega arith) (omega arith) in
    elim (Bool-cases (bit_at i t == 1)) [
      | inl f ↦ rw (next, f) (a, b)
      | inr f ↦ rw (next, f) (a, b)
    ]
