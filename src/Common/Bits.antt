-- ===== src/Common/Bits.antt =====
-- Shifts, masks and unions of bit fields as arithmetic, at every width.
use Prim.Native.Nat.{
  ℕ, zero, suc, ◌+◌, ◌-◌, ◌*◌, ◌/◌, ◌%◌, ◌^◌, ◌≤◌, ◌<◌, min, max, bit_and, bit_or, digits,
  bit_and-bitwise, bit_or-bitwise,
}
use mathlib.Core.Path.{◌≡◌, refl, ap, ◌∙◌, sym}
use native.Mathlib.Omega.{arith}
use native.Mathlib.Nat.{pow-suc, pow-succ', one-le-pow, div-div-eq-div-mul}

-- x << k without the wrap, and x >> k.
infixl 75 ◌<<<◌ ◌>>>◌
abbrev pub ◌<<<◌ : ℕ → ℕ → ℕ
x <<< k = x * 2 ^ k

abbrev pub ◌>>>◌ : ℕ → ℕ → ℕ
x >>> k = x / 2 ^ k

-- Two fuels that cover the first number give the same digits.
same_digits :
    (z : ℕ → ℕ) (f : ℕ → ℕ → ℕ) (n m a b : ℕ) → a ≤ n → a ≤ m → digits z f n a b ≡ digits z f m a b
same_digits z f zero zero a b p q = refl
same_digits z f zero (suc m) zero b p q = refl
same_digits z f zero (suc m) (suc a) b p q = elim p [ ]
same_digits z f (suc n) zero zero b p q = refl
same_digits z f (suc n) zero (suc a) b p q = elim q [ ]
same_digits z f (suc n) (suc m) zero b p q = refl
same_digits z f (suc n) (suc m) (suc a) b p q =
    let ih : digits z f n (suc a / 2) (b / 2) ≡ digits z f m (suc a / 2) (b / 2) =
      same_digits z f n m (suc a / 2) (b / 2) (omega arith) (omega arith) in
    ap (λ (t : ℕ). t * 2 + f (suc a % 2) (b % 2)) ih

-- The digit recursion with its fuel dropped.
and_halves : (a b : ℕ) → bit_and a b ≡ bit_and (a / 2) (b / 2) * 2 + min (a % 2) (b % 2)
and_halves zero b = omega (arith, bit_and-bitwise 0 b, bit_and-bitwise 0 (b / 2))
and_halves (suc a) b = omega (
  arith,
  bit_and-bitwise (suc a) b,
  bit_and-bitwise (suc a / 2) (b / 2),
  same_digits (λ _. 0) min a (suc a / 2) (suc a / 2) (b / 2) (omega arith) (omega arith),
)

or_halves : (a b : ℕ) → bit_or a b ≡ bit_or (a / 2) (b / 2) * 2 + max (a % 2) (b % 2)
or_halves zero b = omega (arith, bit_or-bitwise 0 b, bit_or-bitwise 0 (b / 2))
or_halves (suc a) b = omega (
  arith,
  bit_or-bitwise (suc a) b,
  bit_or-bitwise (suc a / 2) (b / 2),
  same_digits (λ y. y) max a (suc a / 2) (suc a / 2) (b / 2) (omega arith) (omega arith),
)

-- With a bound on the first number, for induction.
and-zero_upto : (n a : ℕ) → a ≤ n → bit_and a 0 ≡ 0
and-zero_upto zero zero h = refl
and-zero_upto zero (suc a) h = elim h [ ]
and-zero_upto (suc n) a h =
    ground (arith, and_halves a 0, and-zero_upto n (a / 2), bit_and-bitwise 0 0)

or-zero_upto : (n a : ℕ) → a ≤ n → bit_or a 0 ≡ a
or-zero_upto zero zero h = refl
or-zero_upto zero (suc a) h = elim h [ ]
or-zero_upto (suc n) a h = ground (arith, or_halves a 0, or-zero_upto n (a / 2), bit_or-bitwise 0 0)

pub bit_and-zero : (a : ℕ) → bit_and a 0 ≡ 0
bit_and-zero a = and-zero_upto a a (omega arith)

double_pow : (q k : ℕ) → q * 2 ^ suc k ≡ 2 * (q * 2 ^ k)
double_pow q k = omega (arith, ap (λ (t : ℕ). q * t) (pow-suc 2 k))

-- `(q << k) | r` is a sum where `r` fits in `k` bits.
pub bit_or-shift : (k q r : ℕ) → r < 2 ^ k → bit_or (q <<< k) r ≡ q * 2 ^ k + r
bit_or-shift zero q r h = ground (arith, or-zero_upto q q)
bit_or-shift (suc k) q r h =
    ground
      (arith, or_halves (q * 2 ^ suc k) r, double_pow q k, pow-suc 2 k, bit_or-shift k q (r / 2))

half_double : (q k : ℕ) → (q * 2 ^ suc k) / 2 ≡ q * 2 ^ k
half_double q k = omega (arith, double_pow q k)

-- A mask moved up by `k` places keeps the same digits of the number moved down.
pub bit_and-shift : (k a m : ℕ) → bit_and a (m <<< k) ≡ bit_and (a >>> k) m * 2 ^ k
bit_and-shift zero a m = ground arith
bit_and-shift (suc k) a m =
    let halved : bit_and (a / 2) (m * 2 ^ k) ≡ bit_and (a / 2 / 2 ^ k) m * 2 ^ k =
      bit_and-shift k (a / 2) m in
    let places : a / 2 / 2 ^ k ≡ a / 2 ^ suc k =
      div-div-eq-div-mul a 2 (2 ^ k) ∙ ap (λ (t : ℕ). a / t) (sym (pow-succ' 2 k)) in
    let low : bit_and (a / 2 / 2 ^ k) m ≡ bit_and (a / 2 ^ suc k) m =
      ap (λ (t : ℕ). bit_and t m) places in
    omega (
      arith,
      and_halves a (m * 2 ^ suc k),
      double_pow m k,
      double_pow (bit_and (a / 2 ^ suc k) m) k,
      ap (λ (t : ℕ). bit_and (a / 2) t) (half_double m k),
      halved,
      ap (λ (t : ℕ). t * 2 ^ k) low,
    )

-- A mask of the `k` lowest bits is the remainder by `2 ^ k`.
low_field : (k q r : ℕ) → r < 2 ^ k → bit_and (q * 2 ^ k + r) (2 ^ k - 1) ≡ r
low_field zero q r h = omega (arith, bit_and-zero (q * 2 ^ 0 + r))
low_field (suc k) q r h = ground (
  arith,
  and_halves (q * 2 ^ suc k + r) (2 ^ suc k - 1),
  double_pow q k,
  pow-suc 2 k,
  one-le-pow k 2,
  low_field k q (r / 2),
)

pub bit_and-mask : (k a : ℕ) → bit_and a (2 ^ k - 1) ≡ a % 2 ^ k
bit_and-mask k a = ground (arith, one-le-pow k 2, low_field k (a / 2 ^ k) (a % 2 ^ k))

-- The digit at a place.
abbrev pub bit_at : ℕ → ℕ → ℕ
bit_at zero a = a % 2
bit_at (suc k) a = bit_at k (a / 2)

bit_or-half : (a b : ℕ) → bit_or a b / 2 ≡ bit_or (a / 2) (b / 2)
bit_or-half a b = ground (arith, or_halves a b)

pub bit_at-bit_or : (k a b : ℕ) → bit_at k (bit_or a b) ≡ max (bit_at k a) (bit_at k b)
bit_at-bit_or zero a b = ground (arith, or_halves a b)
bit_at-bit_or (suc k) a b =
    ap (λ (t : ℕ). bit_at k t) (bit_or-half a b) ∙ bit_at-bit_or k (a / 2) (b / 2)

pub bit_at-zero : (k : ℕ) → bit_at k 0 ≡ 0
bit_at-zero zero = refl
bit_at-zero (suc k) = bit_at-zero k

pub bit_at-shift_same : (p : ℕ) → bit_at p (1 <<< p) ≡ 1
bit_at-shift_same zero = refl
bit_at-shift_same (suc p) =
    let e : (1 <<< suc p) / 2 ≡ 1 <<< p = omega (arith, double_pow 1 p) in
    ap (λ (t : ℕ). bit_at p t) e ∙ bit_at-shift_same p

pub bit_at-shift_other : (k p : ℕ) → (k ≡ p → ⊥) → bit_at k (1 <<< p) ≡ 0
bit_at-shift_other zero zero n = absurd (n refl)
bit_at-shift_other zero (suc p) n = omega (arith, double_pow 1 p)
bit_at-shift_other (suc k) zero n = bit_at-zero k
bit_at-shift_other (suc k) (suc p) n =
    let e : (1 <<< suc p) / 2 ≡ 1 <<< p = omega (arith, double_pow 1 p) in
    ap (λ (t : ℕ). bit_at k t) e ∙ bit_at-shift_other k p (λ q. n (ap suc q))
