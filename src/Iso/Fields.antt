-- ===== src/Iso/Fields.antt =====
-- playerisobmff/playerisobmffbox.h and playerisobmffbox.cpp: the macros that read and write numbers. The
-- buffer is the list of its bytes, a pointer an offset into it, and an access outside the buffer a fault.
pub mod Values
use middleware_player_interf.Common.{
  ℕ, zero, suc, ◌+◌, ◌/◌, ◌%◌, ◌^◌, bit_or, Bool, true, false, List, [], ◌∷◌, Option, none, some,
  length, set, leb, ◌==◌, if◌then◌else◌,
}
use middleware_player_interf.Common.Bits.{◌<<<◌, ◌>>>◌}
use middleware_player_interf.Mp4.Reader.{Result, ok, err, fault, M, ◌>>=◌, pure, read_byte}

module _ (mem : List ℕ) where
  -- `PLAYER_READ_U16`
  unfoldable pub read_u16 : M ℕ
  read_u16 = do a ← read_byte mem; b ← read_byte mem; pure (bit_or (a <<< 8) b)

  -- `PLAYER_READ_FLAGS`
  unfoldable pub read_flags : M ℕ
  read_flags = do
    a ← read_byte mem
    b ← read_byte mem
    c ← read_byte mem
    pure (bit_or (bit_or (a <<< 16) (b <<< 8)) c)

  -- `PLAYER_READ_U32`
  unfoldable pub read_u32 : M ℕ
  read_u32 = do
    a ← read_byte mem
    b ← read_byte mem
    c ← read_byte mem
    d ← read_byte mem
    pure (bit_or (bit_or (bit_or (a <<< 24) (b <<< 16)) (c <<< 8)) d)

  -- `ReadUint64FromBuffer`
  unfoldable pub read_u64 : M ℕ
  unfolding read_u32
  read_u64 = do high ← read_u32; low ← read_u32; pure (bit_or (high <<< 32 % 2 ^ 64) low)

  -- `memcpy` out of the buffer, with the pointer moved.
  unfoldable pub read_list : ℕ → M (List ℕ)
  read_list zero = pure []
  read_list (suc n) = do b ← read_byte mem; rest ← read_list n; pure (b ∷ rest)

  -- The loop of `ReadCStringLenFromBuffer`, with the rounds left: the length with its zero, or none for -1.
  unfoldable pub c_string_len : ℕ → ℕ → ℕ → Result (Option ℕ)
  c_string_len zero at i = ok none
  c_string_len (suc n) at i = elim (read_byte mem (at + i)) [
    | err e ↦ err e
    | ok (b, next) ↦
        let rest = c_string_len n at (i + 1) in if b == 0 then ok (some (i + 1)) else rest
  ]

-- The bytes that `PLAYER_WRITE_U32` and `WriteUint64ToBuffer` store.
abbrev pub u32_bytes : ℕ → List ℕ
u32_bytes v = (v >>> 24) % 256 ∷ (v >>> 16) % 256 ∷ (v >>> 8) % 256 ∷ v % 256 ∷ []

abbrev pub put : List ℕ → ℕ → List ℕ → List ℕ
put mem at [] = mem
put mem at (b ∷ bytes) = put (set mem at b) (at + 1) bytes

unfoldable pub write : List ℕ → ℕ → List ℕ → Result (List ℕ)
write mem at bytes =
    if leb (at + length bytes) (length mem) then ok (put mem at bytes) else err fault

-- `PLAYER_WRITE_U32`
unfoldable pub write_u32 : List ℕ → ℕ → ℕ → Result (List ℕ)
unfolding write
write_u32 mem at v = write mem at (u32_bytes v)

-- `WriteUint64ToBuffer`
unfoldable pub write_u64 : List ℕ → ℕ → ℕ → Result (List ℕ)
unfolding write_u32
write_u64 mem at v = elim (write_u32 mem at ((v >>> 32) % 2 ^ 32)) [
  | err e ↦ err e
  | ok mem' ↦ write_u32 mem' (at + 4) v
]
