-- ===== src/Mp4/Restamp/Written.antt =====
-- What `WriteBytes` writes, and what the readers then return.
use middleware_player_interf.Common.{
  ℕ, zero, suc, ◌+◌, ◌/◌, ◌%◌, ◌^◌, ◌<◌, ◌≤◌, ◌≡◌, ◌≢◌, refl, ap, sym, ◌∙◌, bit_and, List, [], ◌∷◌,
  ◌++◌, some, get_elem?, set, arith, length, inl, inr, ◌⊎◌,
}
use mathlib.Core.Path.{subst}
use middleware_player_interf.Common.Bits.{◌>>>◌, bit_and-mask}
use native.Mathlib.Nat.{div-div-eq-div-mul, pow-succ'}
use middleware_player_interf.Mp4.Reader.Values.{Holds, big_endian, length-big_endian}
use middleware_player_interf.Mp4.Layout.Places.{Holds-at}
use middleware_player_interf.Mp4.Restamp.{write_bytes}

pub get_elem?-set : (xs : List ℕ) (i v : ℕ) → i < length xs → get_elem? (set xs i v) i ≡ some v
get_elem?-set [] i v h = elim h [ ]
get_elem?-set (x ∷ xs) zero v h = refl
get_elem?-set (x ∷ xs) (suc i) v h = get_elem?-set xs i v (omega arith)

pub get_elem?-set_other :
    (xs : List ℕ) (i j v : ℕ) → i ≢ j → get_elem? (set xs i v) j ≡ get_elem? xs j
get_elem?-set_other [] i j v h = refl
get_elem?-set_other (x ∷ xs) zero zero v h = absurd (h refl)
get_elem?-set_other (x ∷ xs) zero (suc j) v h = refl
get_elem?-set_other (x ∷ xs) (suc i) zero v h = refl
get_elem?-set_other (x ∷ xs) (suc i) (suc j) v h = get_elem?-set_other xs i j v (omega arith)

pub length-set : (xs : List ℕ) (i v : ℕ) → length (set xs i v) ≡ length xs
length-set [] i v = refl
length-set (x ∷ xs) zero v = refl
length-set (x ∷ xs) (suc i) v = ap suc (length-set xs i v)

-- A write keeps the other bytes.
pub write_bytes-other :
    (n v p j : ℕ) (mem : List ℕ)
    → (j < p) ⊎ (p + n ≤ j)
    → get_elem? (write_bytes n v p mem) j ≡ get_elem? mem j
unfolding write_bytes
write_bytes-other zero v p j mem h = refl
write_bytes-other (suc n) v p j mem h =
    write_bytes-other n (v >>> 8) p j (set mem (p + n) (bit_and v 0xff)) (omega arith)
    ∙ get_elem?-set_other mem (p + n) j (bit_and v 0xff) (omega arith)

big_endian-suc : (n v : ℕ) → big_endian (suc n) v ≡ big_endian n (v / 256) ++ (v % 256 ∷ [])
big_endian-suc zero v = ap (λ (t : ℕ). t % 256 ∷ []) (let e : v / 1 ≡ v = omega arith in e)
big_endian-suc (suc n) v =
    let head : v / 256 ^ suc n ≡ v / 256 / 256 ^ n =
      sym (div-div-eq-div-mul v 256 (256 ^ n) ∙ ap (λ (t : ℕ). v / t) (sym (pow-succ' 256 n))) in
    rw (head, big_endian-suc n v) refl

pub Holds-join :
    (mem : List ℕ) (p : ℕ) (xs ys : List ℕ)
    → Holds mem p xs
    → Holds mem (p + length xs) ys
    → Holds mem p (xs ++ ys)
Holds-join mem p [] ys h k = Holds-at mem (p + 0) p ys (omega arith) k
Holds-join mem p (x ∷ xs) ys h k =
    (h.0, Holds-join mem (p + 1) xs ys h.1 (Holds-at mem _ (p + 1 + length xs) ys (omega arith) k))

-- The bytes that are written are the digits of the value, highest first.
pub write_bytes-Holds :
    (n v p : ℕ) (mem : List ℕ)
    → p + n ≤ length mem
    → Holds (write_bytes n v p mem) p (big_endian n v)
unfolding write_bytes
write_bytes-Holds zero v p mem h = tt
write_bytes-Holds (suc n) v p mem h =
    let b = bit_and v 0xff in
    let m = set mem (p + n) b in
    let w : List ℕ = write_bytes n (v >>> 8) p m in
    let long : p + suc n ≤ length m = omega (arith, length-set mem (p + n) b) in
    let upper : Holds w p (big_endian n (v / 256)) =
      write_bytes-Holds n (v >>> 8) p m (omega arith) in
    let last : get_elem? w (p + n) ≡ some (v % 256) =
      write_bytes-other n (v >>> 8) p (p + n) m (inr (omega arith))
      ∙ get_elem?-set mem (p + n) b (omega arith)
      ∙ ap some (bit_and-mask 8 v) in
    let place : p + n ≡ p + length (big_endian n (v / 256)) =
      omega (arith, length-big_endian n (v / 256)) in
    let lowest : Holds w (p + length (big_endian n (v / 256))) (v % 256 ∷ []) =
      Holds-at w (p + n) _ (v % 256 ∷ []) place (last, tt) in
    subst (λ (xs : List ℕ). Holds w p xs) (sym (big_endian-suc n v))
      (Holds-join w p (big_endian n (v / 256)) (v % 256 ∷ []) upper lowest)

-- Below the places that are written nothing changes either.
pub write_bytes-Holds_before :
    (n v p q : ℕ) (xs mem : List ℕ)
    → q + length xs ≤ p
    → Holds mem q xs
    → Holds (write_bytes n v p mem) q xs
write_bytes-Holds_before n v p q [] mem h k = tt
write_bytes-Holds_before n v p q (x ∷ xs) mem h k = (
  write_bytes-other n v p q mem (inl (omega arith)) ∙ k.0,
  write_bytes-Holds_before n v p (q + 1) xs mem (omega arith) k.1,
)
