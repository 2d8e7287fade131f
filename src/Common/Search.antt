-- ===== src/Common/Search.antt =====
-- Loops over an array that stop at the first element with a property.
use Prim.Native.Nat.{ℕ, zero, suc, ◌+◌, ◌<◌}
use mathlib.Core.Path.{◌≡◌, refl, ap, ◌∙◌}
use mathlib.Core.Logic.{◌⊎◌, inl, inr}
use mathlib.Core.Bool.{Bool, true, false}
use mathlib.Core.List.{List, [], ◌∷◌, ◌++◌}
use mathlib.Core.Option.{Option, none, some}
use native.Mathlib.Omega.{arith}
use middleware_player_interf.Common.Tests.{if◌then◌else◌, Bool-cases}
use middleware_player_interf.Common.Lists.{length, get_or, set, drop, All}

module _ {ℓ} {A : Type ℓ} where
  -- The place of the first element that passes, counted from `i`.
  unfoldable pub first_from : (A → Bool) → ℕ → List A → Option ℕ
  first_from test i [] = none
  first_from test i (x ∷ xs) =
      let rest = first_from test (suc i) xs in if test x then some i else rest

  abbrev pub Fails : (A → Bool) → A → Type 0
  Fails test x = test x ≡ false

  -- The array around the first element that passes.
  pub record Split (test : A → Bool) (xs : List A) : Type ℓ where
    pub before : List A
    pub found : A
    pub after : List A
    pub whole : xs ≡ before ++ (found ∷ after)
    pub passes : test found ≡ true
    pub others : All (Fails test) before

  pub first_from_cases :
      (test : A → Bool) (i : ℕ) (xs : List A)
      → ((first_from test i xs ≡ none) × All (Fails test) xs)
        ⊎ ((s : Split test xs) × (first_from test i xs ≡ some (i + length s.before)))
  unfolding first_from
  first_from_cases test i [] = inl (refl, tt)
  first_from_cases test i (x ∷ xs) = elim (Bool-cases (test x)) [
    | inl e ↦ inr (
      record { before = []; found = x; after = xs; whole = refl; passes = e; others = tt },
      rw e (ap some (omega arith)),
    )
    | inr e ↦ elim (first_from_cases test (suc i) xs) [
      | inl (n, p) ↦ inl (rw e n, (e, p))
      | inr (s, f) ↦ inr (
        record {
          before = x ∷ s.before;
          found = s.found;
          after = s.after;
          whole = ap (◌∷◌ x) s.whole;
          passes = s.passes;
          others = (e, s.others);
        },
        rw e (f ∙ ap some (omega arith)),
      )
    ]
  ]

  pub first_from-split :
      (test : A → Bool) (i : ℕ) (pre post : List A) (x : A)
      → All (Fails test) pre
      → test x ≡ true
      → first_from test i (pre ++ (x ∷ post)) ≡ some (i + length pre)
  unfolding first_from
  first_from-split test i [] post x h e = rw e (ap some (omega arith))
  first_from-split test i (y ∷ pre) post x h e =
      rw h.0 (first_from-split test (suc i) pre post x h.1 e ∙ ap some (omega arith))

  pub get_or-split : (pre post : List A) (x d : A) → get_or (pre ++ (x ∷ post)) (length pre) d ≡ x
  get_or-split [] post x d = refl
  get_or-split (y ∷ pre) post x d = get_or-split pre post x d

  pub drop-split : (pre post : List A) (x : A) → drop (suc (length pre)) (pre ++ (x ∷ post)) ≡ post
  drop-split [] post x = refl
  drop-split (y ∷ pre) post x = drop-split pre post x

  pub set-split :
      (pre post : List A) (x y : A) → set (pre ++ (x ∷ post)) (length pre) y ≡ pre ++ (y ∷ post)
  set-split [] post x y = refl
  set-split (z ∷ pre) post x y = ap (◌∷◌ z) (set-split pre post x y)

  pub append-one : (pre post : List A) (x : A) → (pre ++ (x ∷ [])) ++ post ≡ pre ++ (x ∷ post)
  append-one [] post x = refl
  append-one (y ∷ pre) post x = ap (◌∷◌ y) (append-one pre post x)

  pub append-nil : (xs : List A) → xs ++ [] ≡ xs
  append-nil [] = refl
  append-nil (x ∷ xs) = ap (◌∷◌ x) (append-nil xs)

  pub first_from-set :
      (test : A → Bool) (i j : ℕ) (xs : List A) (x : A)
      → All (Fails test) xs
      → j < length xs
      → test x ≡ true
      → first_from test i (set xs j x) ≡ some (i + j)
  unfolding first_from
  first_from-set test i j [] x h k e = elim k [ ]
  first_from-set test i zero (y ∷ xs) x h k e = rw e (ap some (omega arith))
  first_from-set test i (suc j) (y ∷ xs) x h k e =
      rw h.0 (first_from-set test (suc i) j xs x h.1 (omega arith) e ∙ ap some (omega arith))

  -- The first place stays the first one when only an element is changed that keeps its answer.
  pub first_from-replaced :
      (test : A → Bool) (i j : ℕ) (xs : List A) (x d : A)
      → test x ≡ test (get_or xs j d)
      → j < length xs
      → first_from test i (set xs j x) ≡ first_from test i xs
  unfolding first_from
  first_from-replaced test i j [] x d e k = elim k [ ]
  first_from-replaced test i zero (y ∷ xs) x d e k = rw e
  first_from-replaced test i (suc j) (y ∷ xs) x d e k =
      ap (λ r. if test y then some i else r)
        (first_from-replaced test (suc i) j xs x d e (omega arith))
