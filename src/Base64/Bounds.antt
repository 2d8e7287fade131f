-- ===== src/Base64/Bounds.antt =====
-- The decoder ends on every input, and never writes behind the buffer that it allocates.
use middleware_player_interf.Common.{
  ℕ, zero, suc, ◌+◌, ◌*◌, ◌/◌, ◌%◌, ◌^◌, ◌<◌, ◌≤◌, ◌≡◌, refl, List, [], ◌∷◌, arith, length,
  length-append, take, Bool, some, bit_or, Option-cases, Bool-cases, ◌⊎◌, inl, inr,
}
use middleware_player_interf.Base64.{
  decode_digit, strip_padding, read_group, write_group, decode_loop, base64_decode, bytes, null,
  stuck, overflow, Decoded, prepend,
}
use middleware_player_interf.Common.Bits.{◌<<<◌}

-- A round counts the characters that it takes, four at most.
read_group_counts :
    (i buf count : ℕ) (src : List ℕ) (buf' count' : ℕ) (rest : List ℕ)
    → read_group i buf count src ≡ some (buf', count', rest)
    → (count' + length rest ≡ count + length src) × (count ≤ count') × (count' ≤ count + i)
unfolding read_group
read_group_counts zero buf count src buf' count' rest e = ground arith
read_group_counts (suc i) buf count [] buf' count' rest e =
    ground (arith, read_group_counts i (buf <<< 6 % 2 ^ 32) count [] buf' count' rest)
read_group_counts (suc i) buf count (c ∷ src) buf' count' rest e = ground (
  arith,
  read_group_counts i (bit_or (buf <<< 6 % 2 ^ 32) (decode_digit c)) (count + 1) src buf' count'
      rest,
)

read_group_progress :
    (c : ℕ) (cs : List ℕ) (buf' count' : ℕ) (rest : List ℕ)
    → read_group 4 0 0 (c ∷ cs) ≡ some (buf', count', rest)
    → 1 ≤ count'
read_group_progress c cs buf' count' rest e =
    unfold read_group in
    ground (
      arith,
      read_group_counts 3 (bit_or (0 <<< 6 % 2 ^ 32) (decode_digit c)) 1 cs buf' count' rest,
    )

length-write_group : (buf count : ℕ) → count ≤ 4 → 4 * length (write_group buf count) ≤ 3 * count
unfolding write_group
length-write_group buf count h = ground arith

-- What a decoding of `n` characters may be.
abbrev Fits : ℕ → Decoded → Type 0
Fits n (bytes out) = 4 * length out ≤ 3 * n
Fits n null = Unit
Fits n stuck = ⊥
Fits n overflow = ⊥

prepend-Fits :
    (m n k : ℕ) (xs : List ℕ) (d : Decoded)
    → 4 * length xs ≤ 3 * m
    → m + n ≤ k
    → Fits n d
    → Fits k (prepend xs d)
prepend-Fits m n k xs (bytes ys) h l f = omega (arith, length-append xs ys)
prepend-Fits m n k xs null h l f = tt
prepend-Fits m n k xs stuck h l f = f
prepend-Fits m n k xs overflow h l f = f

decode_loop-Fits :
    (fuel : ℕ) (src : List ℕ) → length src ≤ fuel → Fits (length src) (decode_loop fuel src)
unfolding decode_loop
decode_loop-Fits fuel [] h = omega arith
decode_loop-Fits zero (c ∷ cs) h = elim h [ ]
decode_loop-Fits (suc fuel) (c ∷ cs) h = elim (Option-cases (read_group 4 0 0 (c ∷ cs))) [
  | inl e ↦ rw (e, decode_loop) tt
  | inr ((buf, count, rest), e) ↦
      let (total, lo, hi) = read_group_counts 4 0 0 (c ∷ cs) buf count rest e in
      let progress : 1 ≤ count = read_group_progress c cs buf count rest e in
      rw (e, decode_loop)
        (prepend-Fits count (length rest) (length (c ∷ cs)) (write_group buf count)
          (decode_loop fuel rest) (length-write_group buf count hi) (omega arith)
          (decode_loop-Fits fuel rest (omega arith)))
]

length-take-le : (n : ℕ) (xs : List ℕ) → length (take n xs) ≤ length xs
length-take-le zero xs = omega arith
length-take-le (suc n) [] = omega arith
length-take-le (suc n) (x ∷ xs) = omega (arith, length-take-le n xs)

Fits-cases :
    (n : ℕ) (d : Decoded)
    → Fits n d
    → (d ≡ null) ⊎ ((out : List ℕ) × (d ≡ bytes out) × (4 * length out ≤ 3 * n))
Fits-cases n (bytes out) f = inr (out, refl, f)
Fits-cases n null f = inl refl
Fits-cases n stuck f = absurd f
Fits-cases n overflow f = absurd f

-- On every input whose size can be computed `base64_Decode` returns: NULL, or a buffer with no more
-- bytes in it than were allocated.
pub base64_decode_fits :
    (malloc : ℕ → Bool) (src : List ℕ)
    → length src * 3 < 2 ^ 64
    → (base64_decode malloc src ≡ null)
      ⊎ ((out : List ℕ) × (base64_decode malloc src ≡ bytes out)
          × (length out ≤ length src * 3 % 2 ^ 64 / 4))
unfolding base64_decode
base64_decode_fits malloc src small = elim (Bool-cases (malloc (length src * 3 % 2 ^ 64 / 4))) [
  | inr e ↦ rw e (inl refl)
  | inl e ↦
      let kept : List ℕ = take (strip_padding (length src) src) src in
      rw e
        (elim (Fits-cases (length kept) (decode_loop (length kept) kept)
          (decode_loop-Fits (length kept) kept (omega arith))) [
            | inl d ↦ inl d
            | inr (out, d, f) ↦
                inr (out, d, omega (arith, length-take-le (strip_padding (length src) src) src))
          ])
]
