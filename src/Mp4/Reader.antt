-- ===== src/Mp4/Reader.antt =====
-- Reading through the pointer `ptr` of the class Mp4Demux. The memory is the list of the bytes that may
-- be read, a pointer is an offset into it, and each function takes the pointer and returns it moved.
pub mod Values
use middleware_player_interf.Common.{
  ℕ, zero, suc, ◌+◌, ◌*◌, ◌%◌, ◌^◌, bit_or, bit_and, Bool, true, false, not, List, [], ◌∷◌, Option,
  none, some, get_elem?, ◌==◌, if◌then◌else◌,
}
use middleware_player_interf.Common.Bits.{◌<<<◌}

-- A read outside the memory (or arithmetic on a null pointer), an `assert` that does not hold, and a
-- loop whose fuel ran out, which is no outcome of the program.
pub data Error : Type 0 where
  fault assert_failed stuck : Error

pub data Result (A : Type 0) : Type 0 where
  ok : A → Result A
  err : Error → Result A

abbrev pub M : Type 0 → Type 0
M A = ℕ → Result (A × ℕ)

abbrev pub pure : {A : Type 0} → A → M A
pure a p = ok (a, p)

infixl 5 ◌>>=◌ ◌>>◌
abbrev pub ◌>>=◌ : {A B : Type 0} → M A → (A → M B) → M B
◌>>=◌ m f p = elim (m p) [ err e ↦ err e | ok (a, q) ↦ f a q ]

abbrev pub ◌>>◌ : {B : Type 0} → M (Unit {0}) → M B → M B
m >> k = m >>= λ _. k

-- An assignment under a condition: the value that is read, or the one that stays.
abbrev pub read_if : {A : Type 0} → Bool → M A → A → M A
read_if true m old = m
read_if false m old = pure old

abbrev pub check : Bool → M (Unit {0})
check true p = ok (tt, p)
check false p = err assert_failed

-- `flags & mask`
abbrev pub has_flag : ℕ → ℕ → Bool
has_flag flags mask = not (bit_and flags mask == 0)

-- `SkipBytes`
abbrev pub skip_bytes : ℕ → M (Unit {0})
skip_bytes len p = ok (tt, p + len)

module _ (mem : List ℕ) where
  -- `*ptr++`
  unfoldable pub read_byte : M ℕ
  read_byte p = elim (get_elem? mem p) [ none ↦ err fault | some b ↦ ok (b, p + 1) ]

  -- The loop of `ReadBytes`, with the rounds left.
  pub read_loop : ℕ → ℕ → M ℕ
  read_loop zero rc = pure rc
  read_loop (suc n) rc = do b ← read_byte; read_loop n (bit_or (rc <<< 8 % 2 ^ 64) b)

  unfoldable pub read_bytes : ℕ → M ℕ
  unfolding read_loop read_byte
  read_bytes n = read_loop n 0

  unfoldable pub read_u16 : M ℕ
  unfolding read_bytes
  read_u16 = do v ← read_bytes 2; pure (v % 2 ^ 16)

  -- `ReadU32`, and `ReadI32` as a bit pattern.
  unfoldable pub read_u32 : M ℕ
  unfolding read_bytes
  read_u32 = do v ← read_bytes 4; pure (v % 2 ^ 32)

  unfoldable pub read_u64 : M ℕ
  unfolding read_bytes
  read_u64 = read_bytes 8

  -- `ReadHeader`: the version and the flags.
  unfoldable pub read_header : M (ℕ × ℕ)
  unfolding read_byte read_bytes
  read_header = do version ← read_byte; flags ← read_bytes 3; pure (version, flags)
