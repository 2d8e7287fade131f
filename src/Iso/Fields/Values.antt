-- ===== src/Iso/Fields/Values.antt =====
-- What is written to the buffer is read back.
use middleware_player_interf.Common.{
  ℕ, ◌+◌, ◌*◌, ◌/◌, ◌%◌, ◌^◌, ◌≤◌, ◌<◌, ◌≡◌, refl, ap, ◌∙◌, bit_or, List, [], ◌∷◌, ◌⊎◌, inl,
  get_elem?, length, set, arith,
}
use middleware_player_interf.Common.Bits.{◌<<<◌, ◌>>>◌, bit_or-shift}
use middleware_player_interf.Mp4.Reader.{ok, read_byte}
use middleware_player_interf.Mp4.Reader.Values.{Holds, bind-ok, ok_at, ok_eq, read_byte-Holds}
use middleware_player_interf.Mp4.Restamp.Written.{get_elem?-set, get_elem?-set_other, length-set}
use middleware_player_interf.Iso.Fields.{
  read_u32, read_u64, u32_bytes, put, write, write_u32, write_u64,
}

pub length-put : (mem : List ℕ) (at : ℕ) (bytes : List ℕ) → length (put mem at bytes) ≡ length mem
length-put mem at [] = refl
length-put mem at (b ∷ bytes) = length-put (set mem at b) (at + 1) bytes ∙ length-set mem at b

pub put-other :
    (mem : List ℕ) (at : ℕ) (bytes : List ℕ) (j : ℕ)
    → (j < at) ⊎ (at + length bytes ≤ j)
    → get_elem? (put mem at bytes) j ≡ get_elem? mem j
put-other mem at [] j h = refl
put-other mem at (b ∷ bytes) j h =
    put-other (set mem at b) (at + 1) bytes j (omega arith)
    ∙ get_elem?-set_other mem at j b (omega arith)

pub put-Holds :
    (mem : List ℕ) (at : ℕ) (bytes : List ℕ)
    → at + length bytes ≤ length mem
    → Holds (put mem at bytes) at bytes
put-Holds mem at [] h = tt
put-Holds mem at (b ∷ bytes) h =
    let size = length-set mem at b in
    (
      put-other (set mem at b) (at + 1) bytes at (inl (omega arith))
          ∙ get_elem?-set mem at b (omega arith),
      put-Holds (set mem at b) (at + 1) bytes (omega arith),
    )

pub four_bytes :
    (a b c d : ℕ)
    → b < 256
    → c < 256
    → d < 256
    → bit_or (bit_or (bit_or (a <<< 24) (b <<< 16)) (c <<< 8)) d
      ≡ a * 2 ^ 24 + b * 2 ^ 16 + c * 2 ^ 8 + d
four_bytes a b c d hb hc hd =
    let first : bit_or (a <<< 24) (b <<< 16) ≡ (a * 256 + b) <<< 16 =
      bit_or-shift 24 a (b <<< 16) (omega arith) ∙ omega arith in
    let second : bit_or ((a * 256 + b) <<< 16) (c <<< 8) ≡ (a * 65536 + b * 256 + c) <<< 8 =
      bit_or-shift 16 (a * 256 + b) (c <<< 8) (omega arith) ∙ omega arith in
    let third = bit_or-shift 8 (a * 65536 + b * 256 + c) d (omega arith) in
    ap (λ (t : ℕ). bit_or (bit_or t (c <<< 8)) d) first
    ∙ (ap (λ (t : ℕ). bit_or t d) second ∙ (third ∙ omega arith))

-- The four bytes of a number, as the macro joins them.
pub joined :
    (v : ℕ)
    → v / 2 ^ 24 % 256 * 2 ^ 24 + v / 2 ^ 16 % 256 * 2 ^ 16 + v / 2 ^ 8 % 256 * 2 ^ 8 + v % 256
      ≡ v % 2 ^ 32
joined v = omega arith

wide :
    (v : ℕ)
    → v < 2 ^ 64
    → ((v / 2 ^ 32 % 2 ^ 32 % 2 ^ 32) <<< 32) % 2 ^ 64 ≡ (v / 2 ^ 32 % 2 ^ 32 % 2 ^ 32) <<< 32
wide v h = omega arith

module _ (mem : List ℕ) where
  read_u32-bytes :
      (a b c d p : ℕ)
      → Holds mem p (a ∷ b ∷ c ∷ d ∷ [])
      → read_u32 mem p ≡ ok (bit_or (bit_or (bit_or (a <<< 24) (b <<< 16)) (c <<< 8)) d, p + 4)
  unfolding read_u32
  read_u32-bytes a b c d p (ha, (hb, (hc, (hd, h)))) =
      bind-ok (read_byte mem) _ (read_byte-Holds mem p a ha)
      ∙ (bind-ok (read_byte mem) _ (read_byte-Holds mem (p + 1) b hb)
          ∙ (bind-ok (read_byte mem) _ (read_byte-Holds mem (p + 1 + 1) c hc)
              ∙ (bind-ok (read_byte mem) _ (read_byte-Holds mem (p + 1 + 1 + 1) d hd)
                  ∙ ok_at _ _ _ (omega arith))))

  -- Of a larger number the remainder is read.
  pub read_u32-Holds :
      (v p : ℕ) → Holds mem p (u32_bytes v) → read_u32 mem p ≡ ok (v % 2 ^ 32, p + 4)
  read_u32-Holds v p h =
      let bytes = four_bytes ((v >>> 24) % 256) ((v >>> 16) % 256) ((v >>> 8) % 256) (v % 256) in
      read_u32-bytes _ _ _ _ p h
      ∙ ok_eq _ (v % 2 ^ 32) (p + 4) (p + 4)
          (bytes (omega arith) (omega arith) (omega arith) ∙ joined v) refl

  pub read_u64-Holds :
      (v p : ℕ)
      → Holds mem p (u32_bytes (v / 2 ^ 32 % 2 ^ 32))
      → Holds mem (p + 4) (u32_bytes v)
      → v < 2 ^ 64
      → read_u64 mem p ≡ ok (v, p + 8)
  unfolding read_u64
  read_u64-Holds v p h k small =
      let value = bit_or-shift 32 (v / 2 ^ 32 % 2 ^ 32 % 2 ^ 32) (v % 2 ^ 32) (omega arith) in
      bind-ok (read_u32 mem) _ (read_u32-Holds (v / 2 ^ 32 % 2 ^ 32) p h)
      ∙ (bind-ok (read_u32 mem) _ (read_u32-Holds v (p + 4) k)
          ∙ ok_eq _ v (p + 4 + 4) (p + 8)
              (ap (λ (t : ℕ). bit_or t (v % 2 ^ 32)) (wide v small) ∙ (value ∙ omega arith))
              (omega arith))

pub Holds-put :
    (mem : List ℕ) (at : ℕ) (bytes : List ℕ) (p : ℕ) (xs : List ℕ)
    → Holds mem p xs
    → (p + length xs ≤ at) ⊎ (at + length bytes ≤ p)
    → Holds (put mem at bytes) p xs
Holds-put mem at bytes p [] h apart = tt
Holds-put mem at bytes p (x ∷ xs) h apart = (
  put-other mem at bytes p (omega arith) ∙ h.0,
  Holds-put mem at bytes (p + 1) xs h.1 (omega arith),
)

pub write-ok :
    (mem : List ℕ) (at : ℕ) (bytes : List ℕ)
    → at + length bytes ≤ length mem
    → write mem at bytes ≡ ok (put mem at bytes)
unfolding write
write-ok mem at bytes h = ground arith

-- `PLAYER_WRITE_U32` within the buffer, and then `PLAYER_READ_U32` there: the low 32 bits.
pub write_u32-read :
    (mem : List ℕ) (at v : ℕ)
    → at + 4 ≤ length mem
    → (write_u32 mem at v ≡ ok (put mem at (u32_bytes v)))
      × (read_u32 (put mem at (u32_bytes v)) at ≡ ok (v % 2 ^ 32, at + 4))
unfolding write_u32
write_u32-read mem at v h =
    (write-ok mem at (u32_bytes v) h, read_u32-Holds _ v at (put-Holds mem at (u32_bytes v) h))

abbrev pub put_u64 : List ℕ → ℕ → ℕ → List ℕ
put_u64 mem at v = put (put mem at (u32_bytes (v / 2 ^ 32 % 2 ^ 32))) (at + 4) (u32_bytes v)

-- `WriteUint64ToBuffer` within the buffer, and then `ReadUint64FromBuffer` there.
pub write_u64-read :
    (mem : List ℕ) (at v : ℕ)
    → at + 8 ≤ length mem
    → v < 2 ^ 64
    → (write_u64 mem at v ≡ ok (put_u64 mem at v))
      × (read_u64 (put_u64 mem at v) at ≡ ok (v, at + 8))
unfolding write_u64
write_u64-read mem at v h small =
    let high = u32_bytes (v / 2 ^ 32 % 2 ^ 32) in
    let first = write_u32-read mem at (v / 2 ^ 32 % 2 ^ 32) (omega arith) in
    let size = length-put mem at high in
    let second = write_u32-read (put mem at high) (at + 4) v (omega arith) in
    (
      rw (first.0, write_u64) second.0,
      read_u64-Holds _ v at
          (Holds-put _ (at + 4) (u32_bytes v) at high (put-Holds mem at high (omega arith))
            (inl (omega arith)))
          (put-Holds (put mem at high) (at + 4) (u32_bytes v) (omega arith)) small,
    )
