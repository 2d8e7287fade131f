-- ===== src/Mp4/Reader/Values.antt =====
-- What the readers return: the value of the big-endian digits in the memory.
use middleware_player_interf.Common.{
  ℕ, zero, suc, ◌+◌, ◌*◌, ◌/◌, ◌%◌, ◌^◌, ◌<◌, ◌≤◌, ◌≡◌, refl, ap, sym, ◌∙◌, bit_or, List, [], ◌∷◌,
  some, get_elem?, arith, length,
}
use middleware_player_interf.Common.Bits.{◌<<<◌, bit_or-shift}
use middleware_player_interf.Mp4.Reader.{
  Result, ok, M, read_byte, read_loop, read_bytes, read_u16, read_u32, read_u64, read_header, ◌>>=◌,
}
use native.Mathlib.Nat.{
  pow-suc, pow-le-pow_right, mul_comm, one-le-pow, div-add-mod, div-div-eq-div-mul, mod-eq_of_lt,
}

-- The bytes from a place of the memory on.
abbrev pub Holds : List ℕ → ℕ → List ℕ → Type 0
Holds mem p [] = Unit
Holds mem p (b ∷ bs) = (get_elem? mem p ≡ some b) × Holds mem (p + 1) bs

-- A number as `n` bytes, highest first.
abbrev pub big_endian : ℕ → ℕ → List ℕ
big_endian zero v = []
big_endian (suc n) v = v / 256 ^ n % 256 ∷ big_endian n v

pub length-big_endian : (n v : ℕ) → length (big_endian n v) ≡ n
length-big_endian zero v = refl
length-big_endian (suc n) v = ap suc (length-big_endian n v)

-- The remainder by `256 ^ (n + 1)` is the next digit and the remainder by `256 ^ n`.
mod_digit : (v n : ℕ) → v % 256 ^ suc n ≡ v / 256 ^ n % 256 * 256 ^ n + v % 256 ^ n
mod_digit v n =
    let split : v / 256 ^ n / 256 ≡ v / 256 ^ suc n =
      div-div-eq-div-mul v (256 ^ n) 256 ∙ ap (λ (t : ℕ). v / t) (sym (pow-suc 256 n)) in
    omega (
      arith,
      div-add-mod v (256 ^ n),
      div-add-mod v (256 ^ suc n),
      mul_comm (256 ^ n) (v / 256 ^ n),
      mul_comm (256 ^ suc n) (v / 256 ^ suc n),
      ap (λ (t : ℕ). t * 256 ^ n) (div-add-mod (v / 256 ^ n) 256),
      ap (λ (t : ℕ). t * 256 ^ n) split,
      ap (λ (t : ℕ). v / 256 ^ suc n * t) (pow-suc 256 n),
    )

-- A number below `2 ^ 56` with one more digit.
join_byte : (rc b : ℕ) → rc * 256 < 2 ^ 64 → b < 256 → bit_or (rc <<< 8 % 2 ^ 64) b ≡ rc * 256 + b
join_byte rc b h k = ap (λ (t : ℕ). bit_or t b) (omega arith) ∙ bit_or-shift 8 rc b k

room_for_digit :
    (rc n b : ℕ)
    → (rc + 1) * 256 ^ suc n ≤ 2 ^ 64
    → b < 256
    → (rc * 256 < 2 ^ 64) × ((rc * 256 + b + 1) * 256 ^ n ≤ 2 ^ 64)
room_for_digit rc n b h k =
    let one : 1 ≤ 256 ^ n = one-le-pow n 256 (omega arith) in
    let whole : (rc + 1) * 256 * 256 ^ n ≤ 2 ^ 64 =
      omega (arith, ap (λ (t : ℕ). (rc + 1) * t) (pow-suc 256 n)) in
    (grind arith, grind arith)

-- A bind whose first part returns.
pub bind-ok :
    {A B : Type 0} (m : M A) (f : A → M B) {p q : ℕ} {a : A} → m p ≡ ok (a, q) → (m >>= f) p ≡ f a q
bind-ok m f h = rw (h, ◌>>=◌) refl

-- Returning the same value at an equal place, or an equal value.
pub ok_at :
    {A : Type 0} (a : A) (p q : ℕ) → p ≡ q → ◌≡◌ {A = Result (A × ℕ)} (ok (a, p)) (ok (a, q))
ok_at a p q e = rw e

pub ok_eq :
    {A : Type 0} (a b : A) (p q : ℕ)
    → a ≡ b
    → p ≡ q
    → ◌≡◌ {A = Result (A × ℕ)} (ok (a, p)) (ok (b, q))
ok_eq a b p q d e = rw (d, e)

pair_eq : {a b c d : ℕ} → a ≡ b → c ≡ d → ◌≡◌ {A = ℕ × ℕ} (a, c) (b, d)
pair_eq p q = cc

module _ (mem : List ℕ) where
  pub read_byte-Holds : (p b : ℕ) → get_elem? mem p ≡ some b → read_byte mem p ≡ ok (b, p + 1)
  unfolding read_byte
  read_byte-Holds p b h = ground arith

  -- `rc` holds the digits that are read, and `v` those to come.
  read_loop-big_endian :
      (n rc v p : ℕ)
      → Holds mem p (big_endian n v)
      → (rc + 1) * 256 ^ n ≤ 2 ^ 64
      → read_loop mem n rc p ≡ ok (rc * 256 ^ n + v % 256 ^ n, p + n)
  unfolding read_loop
  read_loop-big_endian zero rc v p h fits = ground arith
  read_loop-big_endian (suc n) rc v p h fits =
      let b = v / 256 ^ n % 256 in
      let (small, fits') = room_for_digit rc n b fits (omega arith) in
      let rest = read_loop-big_endian n (rc * 256 + b) v (p + 1) h.1 fits' in
      bind-ok (read_byte mem) _ (read_byte-Holds p b h.0)
      ∙ ap (λ t. read_loop mem n t (p + 1)) (join_byte rc b small (omega arith))
      ∙ rest
      ∙ ap ok (
          pair_eq (omega (arith, mod_digit v n, ap (λ (t : ℕ). rc * t) (pow-suc 256 n)))
            (omega arith))

  -- Reading a number that the memory holds.
  pub read_bytes-Holds :
      (n v p : ℕ)
      → Holds mem p (big_endian n v)
      → n ≤ 8
      → v < 256 ^ n
      → read_bytes mem n p ≡ ok (v, p + n)
  unfolding read_bytes
  read_bytes-Holds n v p h k small =
      let fits : (0 + 1) * 256 ^ n ≤ 2 ^ 64 =
        omega (arith, pow-le-pow_right {n = 256} (omega arith) k) in
      read_loop-big_endian n 0 v p h fits
      ∙ ap ok (pair_eq (omega (arith, mod-eq_of_lt small)) (omega arith))

  pub read_u16-Holds :
      (v p : ℕ) → Holds mem p (big_endian 2 v) → v < 2 ^ 16 → read_u16 mem p ≡ ok (v, p + 2)
  unfolding read_u16
  read_u16-Holds v p h small =
      bind-ok (read_bytes mem 2) _ (read_bytes-Holds 2 v p h (omega arith) small)
      ∙ ap ok (pair_eq (omega arith) refl)

  pub read_u32-Holds :
      (v p : ℕ) → Holds mem p (big_endian 4 v) → v < 2 ^ 32 → read_u32 mem p ≡ ok (v, p + 4)
  unfolding read_u32
  read_u32-Holds v p h small =
      bind-ok (read_bytes mem 4) _ (read_bytes-Holds 4 v p h (omega arith) small)
      ∙ ap ok (pair_eq (omega arith) refl)

  pub read_u64-Holds :
      (v p : ℕ) → Holds mem p (big_endian 8 v) → v < 2 ^ 64 → read_u64 mem p ≡ ok (v, p + 8)
  unfolding read_u64
  read_u64-Holds v p h small = read_bytes-Holds 8 v p h (omega arith) small

  pub read_header-Holds :
      (version flags p : ℕ)
      → Holds mem p (version ∷ big_endian 3 flags)
      → flags < 2 ^ 24
      → read_header mem p ≡ ok ((version, flags), p + 4)
  unfolding read_header
  read_header-Holds version flags p h small =
      bind-ok (read_byte mem) _ (read_byte-Holds p version h.0)
      ∙ bind-ok (read_bytes mem 3) _ (read_bytes-Holds 3 flags (p + 1) h.1 (omega arith) small)
      ∙ ap (λ q. ok ((version, flags), q)) (omega arith)
