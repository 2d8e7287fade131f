-- ===== src/Url/Trimmed.antt =====
-- What `trim` cuts off.
use middleware_player_interf.Common.{
  ℕ, suc, ◌+◌, ◌-◌, ◌≡◌, refl, true, false, List, [], ◌∷◌, ◌++◌, none, some, All, length, arith,
  take-append,
}
use middleware_player_interf.Url.{is_blank, first_not_blank, last_not_blank, trim}
use middleware_player_interf.Url.Texts.{drop-append}

abbrev pub IsBlank : ℕ → Type 0
IsBlank c = is_blank c ≡ true

-- The first and the last character are not blank.
abbrev pub StartsInk : List ℕ → Type 0
StartsInk [] = ⊥
StartsInk (c ∷ text) = is_blank c ≡ false

abbrev pub EndsInk : List ℕ → Type 0
EndsInk [] = ⊥
EndsInk (c ∷ []) = is_blank c ≡ false
EndsInk (c ∷ d ∷ text) = EndsInk (d ∷ text)

first-blank : (text : List ℕ) → All IsBlank text → first_not_blank text ≡ none
unfolding first_not_blank
first-blank [] h = refl
first-blank (c ∷ text) h = rw (h.0, first_not_blank, first-blank text h.1) refl

first-core :
    (left core : List ℕ)
    → All IsBlank left
    → StartsInk core
    → first_not_blank (left ++ core) ≡ some (length left)
unfolding first_not_blank
first-core [] [] h k = absurd k
first-core [] (c ∷ core) h k = rw (k, first_not_blank) refl
first-core (c ∷ left) core h k =
    let ih = first-core left core h.1 k in
    let n : length left + 1 ≡ suc (length left) = omega arith in
    rw (h.0, first_not_blank, ih, n) refl

last-blank : (text : List ℕ) → All IsBlank text → last_not_blank text ≡ none
unfolding last_not_blank
last-blank [] h = refl
last-blank (c ∷ text) h = rw (last-blank text h.1, last_not_blank, h.0) refl

last-core :
    (core right : List ℕ)
    → EndsInk core
    → All IsBlank right
    → last_not_blank (core ++ right) ≡ some (length core - 1)
unfolding last_not_blank
last-core [] right k h = absurd k
last-core (c ∷ []) right k h = rw (last-blank right h, last_not_blank, k) refl
last-core (c ∷ d ∷ core) right k h =
    let ih = last-core (d ∷ core) right k h in
    let n : suc (length core) - 1 + 1 ≡ suc (suc (length core)) - 1 = omega arith in
    rw (ih, last_not_blank, n) refl

last-prefix :
    (left text : List ℕ) (n : ℕ)
    → last_not_blank text ≡ some n
    → last_not_blank (left ++ text) ≡ some (length left + n)
unfolding last_not_blank
last-prefix [] text n e = let m : 0 + n ≡ n = omega arith in rw m e
last-prefix (c ∷ left) text n e =
    let m : length left + n + 1 ≡ suc (length left) + n = omega arith in
    rw (last-prefix left text n e, last_not_blank, m) refl

length-core : (core : List ℕ) → EndsInk core → (m : ℕ) × (length core ≡ suc m)
length-core [] k = absurd k
length-core (c ∷ core) k = (length core, refl)

-- `trim` cuts the blanks off both ends of a text that has other characters, and leaves a text of blanks
-- alone as it is.
pub trim_lem :
    (left core right : List ℕ)
    → All IsBlank left
    → All IsBlank right
    → StartsInk core
    → EndsInk core
    → (trim (left ++ (core ++ right)) ≡ core) × (trim left ≡ left)
unfolding trim
trim_lem left core right l r s e = (
  let first = first-core left (core ++ right) l (starts core s) in
      let last = last-prefix left (core ++ right) (length core - 1) (last-core core right e r) in
      let (m, long) = length-core core e in
      let n : length left + (length core - 1) - length left + 1 ≡ length core = omega arith in
      rw (first, trim)
        (rw last (rw (n, drop-append left (core ++ right)) (take-append core right))),
  rw (first-blank left l, trim) refl,
)
  where
    starts : (core : List ℕ) → StartsInk core → StartsInk (core ++ right)
    starts [] k = absurd k
    starts (c ∷ core) k = k
