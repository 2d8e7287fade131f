-- ===== src/Captions/Ids.antt =====
-- The users' identifiers.
use middleware_player_interf.Common.{
  ℕ, ◌+◌, ◌≡◌, ◌≢◌, ◌<◌, ◌≤◌, refl, Bool, true, false, List, [], ◌∷◌, ◌++◌, arith, ◌==◌, Bool-cases,
  All, inl, inr, length, ◌%◌, ◌^◌,
}
use middleware_player_interf.Captions.{CcManager, reset_channel, close}
use middleware_player_interf.Captions.Users.{get_id, erase, release_all, release_erased, release}

-- The identifiers of the set rise, above one number and up to another.
abbrev pub Rises : ℕ → List ℕ → ℕ → Type 0
Rises lo [] hi = lo ≤ hi
Rises lo (i ∷ is) hi = (lo < i) × Rises i is hi

pub data Operation : Type 0 where
  new_id : Operation
  leave : ℕ → Operation

unfoldable pub perform : Operation → CcManager → CcManager
perform new_id m = (get_id m).0
perform (leave id) m = release id m

unfoldable pub perform_all : List Operation → CcManager → CcManager
perform_all [] m = m
perform_all (o ∷ os) m = perform_all os (perform o m)

Rises-append :
    (lo : ℕ) (is : List ℕ) (hi : ℕ) → Rises lo is hi → Rises lo (is ++ ((hi + 1) ∷ [])) (hi + 1)
Rises-append lo [] hi h = (omega arith, omega arith)
Rises-append lo (i ∷ is) hi (a, b) = (a, Rises-append i is hi b)

Rises-le : (lo : ℕ) (is : List ℕ) (hi : ℕ) → Rises lo is hi → lo ≤ hi
Rises-le lo [] hi h = h
Rises-le lo (i ∷ is) hi (a, b) = omega (arith, Rises-le i is hi b)

Rises-lower : (lo lo' : ℕ) (is : List ℕ) (hi : ℕ) → lo' ≤ lo → Rises lo is hi → Rises lo' is hi
Rises-lower lo lo' [] hi k h = omega arith
Rises-lower lo lo' (i ∷ is) hi k (a, b) = (omega arith, b)

erase-Rises : (id lo : ℕ) (is : List ℕ) (hi : ℕ) → Rises lo is hi → Rises lo (erase id is).0 hi
unfolding erase
erase-Rises id lo [] hi h = h
erase-Rises id lo (i ∷ is) hi (a, b) = elim (Bool-cases (i == id)) [
  | inl e ↦ rw e (Rises-lower i lo is hi (omega arith) b)
  | inr e ↦ rw e (a, erase-Rises id i is hi b)
]

abbrev pub IsGiven : CcManager → Type 0
IsGiven m = Rises 0 m.id_set m.id

release_all-users :
    (m : CcManager) → ((release_all m).id_set ≡ m.id_set) × ((release_all m).id ≡ m.id)
unfolding release_all reset_channel close
release_all-users m = elim (Bool-cases m.hal_initialized) [
  | inl e ↦ simp e (refl, refl)
  | inr e ↦ simp e (refl, refl)
]

release_erased-IsGiven :
    (e : List ℕ × Bool) (m : CcManager)
    → Rises 0 e.0 m.id
    → IsGiven m
    → IsGiven (release_erased e m)
unfolding release_erased
release_erased-IsGiven (is, false) m h g = g
release_erased-IsGiven ([], true) m h g =
    let (a, b) = release_all-users (record m { id_set = [] }) in rw (a, b) h
release_erased-IsGiven (i ∷ is, true) m h g = h

release_erased-id : (e : List ℕ × Bool) (m : CcManager) → (release_erased e m).id ≡ m.id
unfolding release_erased
release_erased-id (is, false) m = refl
release_erased-id ([], true) m = (release_all-users (record m { id_set = [] })).1
release_erased-id (i ∷ is, true) m = refl

-- An operation keeps the identifiers in their order, and counts one up at most.
perform-IsGiven :
    (o : Operation) (m : CcManager)
    → IsGiven m
    → m.id + 1 < 2 ^ 31
    → IsGiven (perform o m) × ((perform o m).id ≤ m.id + 1)
unfolding perform get_id release
perform-IsGiven new_id m g small =
    let next : (m.id + 1) % 2 ^ 32 ≡ m.id + 1 = omega arith in
    rw next (Rises-append 0 m.id_set m.id g, omega arith)
perform-IsGiven (leave id) m g small = (
  release_erased-IsGiven (erase id m.id_set) m (erase-Rises id 0 m.id_set m.id g) g,
  omega (arith, release_erased-id (erase id m.id_set) m),
)

perform_all-IsGiven :
    (os : List Operation) (m : CcManager)
    → IsGiven m
    → m.id + length os < 2 ^ 31
    → IsGiven (perform_all os m) × ((perform_all os m).id ≤ m.id + length os)
unfolding perform_all
perform_all-IsGiven [] m g small = (g, omega arith)
perform_all-IsGiven (o ∷ os) m g small =
    let (h, le) = perform-IsGiven o m g (omega arith) in
    let (given, most) = perform_all-IsGiven os (perform o m) h (omega arith) in (given, omega arith)

Rises-fresh : (lo : ℕ) (is : List ℕ) (hi : ℕ) → Rises lo is hi → All (λ i. i ≢ hi + 1) is
Rises-fresh lo [] hi h = tt
Rises-fresh lo (i ∷ is) hi (a, b) =
    let below : i ≤ hi = Rises-le i is hi b in ((λ e. absurd (omega arith)), Rises-fresh i is hi b)

-- After any sequence of `GetId` and `Release`, in any order and with any identifiers, as long as the counter
-- and the number of the operations leave the `int` room for one more: the identifiers that are in use rise
-- and so are distinct, and `GetId` gives one that none of them is.
pub get_id_is_fresh :
    (os : List Operation) (m : CcManager)
    → IsGiven m
    → m.id + length os + 1 < 2 ^ 31
    → IsGiven (perform_all os m)
      × All (λ i. i ≢ (get_id (perform_all os m)).1) (perform_all os m).id_set
unfolding get_id
get_id_is_fresh os m g small =
    let (h, most) = perform_all-IsGiven os m g (omega arith) in
    let next : ((perform_all os m).id + 1) % 2 ^ 32 ≡ (perform_all os m).id + 1 = omega arith in
    (h, rw next (Rises-fresh 0 (perform_all os m).id_set (perform_all os m).id h))
