-- ===== src/Mp4/Layout/Places.antt =====
-- Where the parts of a layout lie in the memory, and single fields there.
use middleware_player_interf.Common.{
  ℕ, suc, ◌+◌, ◌^◌, ◌<◌, ◌≡◌, refl, List, [], ◌∷◌, ◌++◌, Bool, true, false, Option, some, arith,
  length, sym, get_elem?, if◌then◌else◌,
}
use middleware_player_interf.Common.Int.{pos, ◌+ℤ◌, signed32}
use middleware_player_interf.Mp4.Reader.{ok, read_u32, read_u64, read_if, check}
use middleware_player_interf.Mp4.Reader.Values.{Holds, ok_at, read_u32-Holds, read_u64-Holds}
use middleware_player_interf.Mp4.Boxes.{moof_offset}
use middleware_player_interf.Mp4.Layout.{field_if, wide_if}

-- The parts of a concatenation lie behind each other.
pub Holds-append :
    (mem : List ℕ) (p : ℕ) (xs ys : List ℕ)
    → Holds mem p (xs ++ ys)
    → Holds mem p xs × Holds mem (p + length xs) ys
Holds-append mem p [] ys h = (tt, let e : p + 0 ≡ p = omega arith in rw e h)
Holds-append mem p (x ∷ xs) ys h =
    let (here, rest) = Holds-append mem (p + 1) xs ys h.1 in
    let e : p + suc (length xs) ≡ p + 1 + length xs = omega arith in ((h.0, here), rw e rest)

pub Holds-at : (mem : List ℕ) (p q : ℕ) (xs : List ℕ) → p ≡ q → Holds mem p xs → Holds mem q xs
Holds-at mem p q xs e h = rw (sym e) h

-- The memory holds what it agrees with from a place on; so it holds itself.
Holds-each :
    (mem : List ℕ) (p : ℕ) (xs : List ℕ)
    → ((i j b : ℕ) → j ≡ p + i → get_elem? xs i ≡ some b → get_elem? mem j ≡ some b)
    → Holds mem p xs
Holds-each mem p [] h = tt
Holds-each mem p (x ∷ xs) h = (
  h 0 p x (omega arith) refl,
  Holds-each mem (p + 1) xs (λ i j b e k. h (suc i) j b (omega arith) k),
)

pub Holds-whole : (mem : List ℕ) → Holds mem 0 mem
Holds-whole mem = Holds-each mem 0 mem (λ i j b e k. let e' : j ≡ i = omega arith in rw e' k)

module _ (mem : List ℕ) where
  pub read_if-Holds :
      (b : Bool) (v old p : ℕ)
      → Holds mem p (field_if b v)
      → v < 2 ^ 32
      → read_if b (read_u32 mem) old p ≡ ok (if b then v else old, p + length (field_if b v))
  read_if-Holds true v old p h small = read_u32-Holds mem v p h small
  read_if-Holds false v old p h small = ok_at old p (p + 0) (omega arith)

pub check-true : (b : Bool) (p : ℕ) → b ≡ true → check b p ≡ ok (tt, p)
check-true b p h = rw h

pub moof_offset-some :
    (m : Option ℕ) (moof offset p : ℕ)
    → m ≡ some moof
    → moof_offset m offset p ≡ ok (pos moof +ℤ signed32 offset, p)
moof_offset-some m moof offset p h = rw h

pub read_wide_if-Holds :
    (mem : List ℕ) (b : Bool) (v old p : ℕ)
    → Holds mem p (wide_if b v)
    → v < 2 ^ 64
    → read_if b (read_u64 mem) old p ≡ ok (if b then v else old, p + length (wide_if b v))
read_wide_if-Holds mem true v old p h small = read_u64-Holds mem v p h small
read_wide_if-Holds mem false v old p h small = ok_at old p (p + 0) (omega arith)
