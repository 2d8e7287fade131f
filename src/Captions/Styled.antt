-- ===== src/Captions/Styled.antt =====
-- The attributes after `SetStyle`.
use middleware_player_interf.Common.{
  ℕ, suc, ◌+◌, ◌≡◌, ◌<◌, refl, sym, ap, ◌∙◌, Bool, true, false, List, [], ◌∷◌, Option, none, some,
  get_or, length, arith, ◌==◌, ◌⊎◌, inl, inr, Bool-cases, length-set, ==_iff, All,
}
use middleware_player_interf.Common.Bits.{bit_at, bit_at-zero}
use middleware_player_interf.Captions.{Text, Json, Replies, CcManager}
use middleware_player_interf.Captions.Styling.{
  Block, style_blocks, Styles, write_known, apply_block, apply_blocks, take_masked,
  send_cc_attributes, send_styles, style_parsed, style_enabled, set_style_now,
}
use middleware_player_interf.Captions.Attributes.{Attribute, number, asked, number-lt, known-asked}
use middleware_player_interf.Captions.Masks.{
  known, known-unknown, named, apply_blocks-At, take_masked-Takes,
}

named_stays : (bs : List Block) (k : ℕ) → named bs k 1 ≡ 1
named_stays [] k = refl
named_stays ((p, (b, none)) ∷ bs) k = named_stays bs k
named_stays ((p, (b, some v)) ∷ bs) k = elim (Bool-cases (b == k)) [
  | inl e ↦ rw e (named_stays bs k)
  | inr e ↦ rw e (named_stays bs k)
]

-- Each block sets the bit of its attribute.
abbrev IsPaired : Block → Type 0
IsPaired b = b.1.0 ≡ b.0

style_blocks-All : (json : Json) → All IsPaired (style_blocks json)
style_blocks-All json = (
  refl,
  (
    refl,
    (
      refl,
      (refl, (refl, (refl, (refl, (refl, (refl, (refl, (refl, (refl, (refl, (refl, tt))))))))))),
    ),
  ),
)

-- An attribute whose bit no block names keeps its value.
named_or_same :
    (bs : List Block) (k v : ℕ)
    → All IsPaired bs
    → (named bs k 0 ≡ 1) ⊎ ((named bs k 0 ≡ 0) × (known bs k v ≡ v))
named_or_same [] k v h = inr (refl, refl)
named_or_same ((p, (b, none)) ∷ bs) k v (q, h) =
    rw (known-unknown p b none bs k v refl) (named_or_same bs k v h)
named_or_same ((p, (b, some o)) ∷ bs) k v (q, h) = elim (Bool-cases (p == k)) [
  | inl e ↦ inl (rw (q, e) (named_stays bs k))
  | inr e ↦ rw (q, e) (named_or_same bs k v h)
]

length-take_masked :
    (t i : ℕ) (olds news : List ℕ) → length (take_masked t i olds news).0 ≡ length olds
unfolding take_masked
length-take_masked t i [] news = refl
length-take_masked t i (o ∷ olds) [] = refl
length-take_masked t i (o ∷ olds) (n ∷ news) = elim (Bool-cases (bit_at i t == 1)) [
  | inl e ↦ rw e (ap suc (length-take_masked t (suc i) olds news))
  | inr e ↦ rw e (ap suc (length-take_masked t (suc i) olds news))
]

length-write : (xs : List ℕ) (p : ℕ) (o : Option ℕ) → length (write_known xs p o) ≡ length xs
length-write xs p none = refl
length-write xs p (some v) = length-set xs p v

length-apply_blocks :
    (bs : List Block) (s : Styles) → length (apply_blocks bs s).values ≡ length s.values
unfolding apply_blocks apply_block
length-apply_blocks [] s = refl
length-apply_blocks ((p, (b, none)) ∷ bs) s = length-apply_blocks bs s
length-apply_blocks ((p, (b, some o)) ∷ bs) s =
    length-apply_blocks bs (apply_block p b (some o) s) ∙ length-write s.values p o

-- Two sends of the same styles, for the digital and for the analog captions.
sent_twice :
    (t : ℕ) (olds news : List ℕ) (k : ℕ)
    → k < length olds
    → length news ≡ length olds
    → (bit_at k t ≡ 1) ⊎ ((bit_at k t ≡ 0) × (get_or news k 0 ≡ get_or olds k 0))
    → get_or (take_masked t 0 (take_masked t 0 olds news).0 news).0 k 0 ≡ get_or news k 0
sent_twice t olds news k h e c =
    let mid : List ℕ = (take_masked t 0 olds news).0 in
    let size : length mid ≡ length olds = length-take_masked t 0 olds news in
    let at : 0 + k ≡ k = omega arith in
    let first = (take_masked-Takes t 0 olds news k h e).0 in
    let second = (take_masked-Takes t 0 mid news k (omega arith) (omega arith)).0 in
    elim c [
      | inl b ↦ second ∙ (rw (at, b) refl)
      | inr (b, s) ↦ second ∙ (rw (at, b) (first ∙ (rw (at, b) (sym s))))
    ]

-- Where the options parse: each attribute is then the last value that an option for it has in the tables, or
-- as it was where there is none.
pub style_parsed_lem :
    (options : Text) (json : Json) (m : CcManager) (k : ℕ)
    → k < length m.current_attributes
    → get_or (style_parsed options (some json) m).0.current_attributes k 0
      ≡ known (style_blocks json) k (get_or m.current_attributes k 0)
unfolding style_parsed send_styles send_cc_attributes
style_parsed_lem options json m k h =
    let start : Styles = record { values = m.current_attributes; mask = 0 } in
    let bs = style_blocks json in
    let s : Styles = apply_blocks bs start in
    let v = get_or m.current_attributes k 0 in
    let (long, value, bit) = apply_blocks-At bs k start v 0 (h, refl, bit_at-zero k) in
    let size : length s.values ≡ length m.current_attributes = length-apply_blocks bs start in
    let here : (bit_at k s.mask ≡ 1) ⊎ ((bit_at k s.mask ≡ 0) × (get_or s.values k 0 ≡ v)) =
      elim (named_or_same bs k v (style_blocks-All json)) [
        | inl n ↦ inl (bit ∙ n)
        | inr (n, q) ↦ inr (bit ∙ n, value ∙ q)
      ] in
    elim (Bool-cases (s.mask == 0)) [
      | inl e ↦
          let zero_mask : s.mask ≡ 0 = (==_iff s.mask 0).0 e in
          let bare : bit_at k s.mask ≡ 0 = ap (bit_at k) zero_mask ∙ bit_at-zero k in
          simp e (elim here [ inl n ↦ absurd (omega arith) | inr (n, q) ↦ sym q ∙ value ])
      | inr e ↦ simp e (sent_twice s.mask m.current_attributes s.values k h size here ∙ value)
    ]

parsed_attributes :
    (options : Text) (json : Json) (o : Option Json) (m : CcManager) (k : ℕ)
    → o ≡ some json
    → k < length m.current_attributes
    → ((style_parsed options o m).1 ≡ true)
      × (get_or (style_parsed options o m).0.current_attributes k 0
          ≡ known (style_blocks json) k (get_or m.current_attributes k 0))
parsed_attributes options json o m k e h =
    rw e (unfold style_parsed in refl, style_parsed_lem options json m k h)

enabled_attributes :
    (r : Replies) (c : ℕ) (options : Text) (json : Json) (b : Bool) (m : CcManager) (k : ℕ)
    → b ≡ true
    → r.parse (c ∷ options) ≡ some json
    → k < length m.current_attributes
    → ((style_enabled r (c ∷ options) b m).1 ≡ true)
      × (get_or (style_enabled r (c ∷ options) b m).0.current_attributes k 0
          ≡ known (style_blocks json) k (get_or m.current_attributes k 0))
unfolding style_enabled
enabled_attributes r c options json true m k e p h =
    parsed_attributes (c ∷ options) json (r.parse (c ∷ options)) m k p h
enabled_attributes r c options json false m k e p h = absurd (cc)

-- Where the captions are enabled and the options parse: after `SetStyle` each of the 14 attributes has the
-- value that its table gives for its own option, and keeps its old one where the option is not there or
-- its value is not in the table; and the call returns 0.
pub set_style_attributes :
    (r : Replies) (c : ℕ) (options : Text) (json : Json) (m : CcManager) (a : Attribute)
    → m.enabled ≡ true
    → r.parse (c ∷ options) ≡ some json
    → length m.current_attributes ≡ 14
    → ((set_style_now r (c ∷ options) m).1 ≡ true)
      × (get_or (set_style_now r (c ∷ options) m).0.current_attributes (number a) 0
          ≡ asked json a (get_or m.current_attributes (number a) 0))
unfolding set_style_now
set_style_attributes r c options json m a e p h =
    let (ret, value) =
      enabled_attributes r c options json m.enabled m (number a) e p (omega (arith, number-lt a)) in
    (ret, value ∙ known-asked json a _)
