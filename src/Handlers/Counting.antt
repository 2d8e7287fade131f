-- ===== src/Handlers/Counting.antt =====
-- The count of the control is the number of the scope helpers that refer to it.
use middleware_player_interf.Common.{
  ℕ, zero, suc, ◌+◌, ◌-◌, ◌≡◌, ◌<◌, refl, ap, Bool, true, false, List, [], ◌∷◌, ◌++◌, arith, length,
  get_or, set, if◌then◌else◌, ◌==◌,
}
use middleware_player_interf.Handlers.{
  Control, init, enable, disable, handler_end, count_scope, Scopes, get_scope_helper,
  empty_scope_helper, end_held, destroy, move_construct, move_assign,
}

abbrev pub weight : Bool → ℕ
weight true = 1
weight false = 0

-- How many helpers refer to the control.
abbrev pub holders : List Bool → ℕ
holders [] = 0
holders (b ∷ bs) = weight b + holders bs

pub data Operation : Type 0 where
  get_scope empty_scope : Operation
  destroy_scope move_scope : ℕ → Operation
  assign_scope : ℕ → ℕ → Operation
  enable_handlers disable_handlers : Operation

-- A use of the helpers names only such as there are.
abbrev pub IsUse : Operation → Scopes → Type 0
IsUse (destroy_scope i) s = i < length s.held
IsUse (move_scope i) s = i < length s.held
IsUse (assign_scope i j) s = (i < length s.held) × (j < length s.held)
IsUse _ s = Unit

unfoldable pub perform : Operation → Scopes → Scopes
unfolding get_scope_helper empty_scope_helper destroy move_construct move_assign enable disable
perform get_scope s = get_scope_helper s
perform empty_scope s = empty_scope_helper s
perform (destroy_scope i) s = destroy i s
perform (move_scope i) s = move_construct i s
perform (assign_scope i j) s = move_assign i j s
perform enable_handlers s = record s { control = enable s.control }
perform disable_handlers s = record s { control = disable s.control }

abbrev pub Counts : Scopes → Type 0
Counts s = s.control.instance_count ≡ holders s.held

holders-append : (bs cs : List Bool) → holders (bs ++ cs) ≡ holders bs + holders cs
holders-append [] cs = omega arith
holders-append (b ∷ bs) cs = omega (arith, holders-append bs cs)

holders-set :
    (bs : List Bool) (i : ℕ) (b : Bool)
    → i < length bs
    → holders (set bs i b) + weight (get_or bs i false) ≡ holders bs + weight b
holders-set [] i b h = elim h [ ]
holders-set (x ∷ bs) zero b h = omega arith
holders-set (x ∷ bs) (suc i) b h = omega (arith, holders-set bs i b (omega arith))

length-set : (bs : List Bool) (i : ℕ) (b : Bool) → length (set bs i b) ≡ length bs
length-set [] i b = refl
length-set (x ∷ bs) zero b = refl
length-set (x ∷ bs) (suc i) b = omega (arith, length-set bs i b)

get_or-set :
    (bs : List Bool) (i j : ℕ) (b : Bool)
    → i < length bs
    → get_or (set bs i b) j false ≡ (if i == j then b else get_or bs j false)
get_or-set [] i j b h = elim h [ ]
get_or-set (x ∷ bs) zero zero b h = refl
get_or-set (x ∷ bs) zero (suc j) b h = ground arith
get_or-set (x ∷ bs) (suc i) zero b h = ground arith
get_or-set (x ∷ bs) (suc i) (suc j) b h = ground (arith, get_or-set bs i j b (omega arith))

moved :
    (bs : List Bool) (i j : ℕ)
    → i < length bs
    → get_or (set bs i (get_or bs j false)) j false ≡ get_or bs j false
moved bs i j h = ground (arith, get_or-set bs i j (get_or bs j false) h)

end_held_count :
    (b : Bool) (c : Control) → (end_held b c).instance_count ≡ c.instance_count - weight b
unfolding handler_end
end_held_count true c = refl
end_held_count false c = omega arith

-- One operation, on helpers that there are.
perform-Counts : (o : Operation) (s : Scopes) → IsUse o s → Counts s → Counts (perform o s)
unfolding perform get_scope_helper empty_scope_helper destroy move_construct move_assign enable
    disable count_scope
perform-Counts get_scope s u e = omega (arith, holders-append s.held (true ∷ []))
perform-Counts empty_scope s u e = omega (arith, holders-append s.held (false ∷ []))
perform-Counts (destroy_scope i) s u e =
    omega (arith, end_held_count (get_or s.held i false) s.control, holders-set s.held i false u)
perform-Counts (move_scope i) s u e = omega (
  arith,
  holders-append (set s.held i false) (get_or s.held i false ∷ []),
  holders-set s.held i false u,
)
perform-Counts (assign_scope i j) s u e =
    let b = get_or s.held j false in
    let there : j < length (set s.held i b) = omega (arith, u.1, length-set s.held i b) in
    omega (
      arith,
      end_held_count (get_or s.held i false) s.control,
      holders-set s.held i b u.0,
      holders-set (set s.held i b) j false there,
      ap weight (moved s.held i j u.0),
    )
perform-Counts enable_handlers s u e = e
perform-Counts disable_handlers s u e = e

-- A program: each operation names helpers that there are at its turn.
unfoldable pub perform_all : List Operation → Scopes → Scopes
perform_all [] s = s
perform_all (o ∷ os) s = perform_all os (perform o s)

abbrev pub AreUses : List Operation → Scopes → Type 0
AreUses [] s = Unit {0}
AreUses (o ∷ os) s = IsUse o s × AreUses os (perform o s)

perform_all_keeps :
    (os : List Operation) (s : Scopes) → AreUses os s → Counts s → Counts (perform_all os s)
unfolding perform_all
perform_all_keeps [] s u e = e
perform_all_keeps (o ∷ os) s u e = perform_all_keeps os (perform o s) u.1 (perform-Counts o s u.0 e)

abbrev pub no_scopes : Scopes
no_scopes = record { control = init; held = [] }

-- After any sequence of constructions, moves, assignments (also to itself), destructions, enablings and
-- disablings, the count of the control is the number of the helpers that refer to it.
pub perform_all-Counts :
    (os : List Operation) → AreUses os no_scopes → Counts (perform_all os no_scopes)
perform_all-Counts os u = perform_all_keeps os no_scopes u (unfold init in refl)
