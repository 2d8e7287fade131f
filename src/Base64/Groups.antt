-- ===== src/Base64/Groups.antt =====
-- What the encoder writes, as RFC 4648 describes it: the six-bit groups of the input, and the padding.
use middleware_player_interf.Common.{
  ℕ, ◌+◌, ◌*◌, ◌/◌, ◌%◌, ◌^◌, ◌<◌, ◌≡◌, refl, List, [], ◌∷◌, ◌++◌, map, arith, All, ◌∙◌, bit_and,
  bit_or, Bool, true, length, ap, ◌-◌, lt→ltb,
}
use middleware_player_interf.Common.Bits.{◌<<<◌, ◌>>>◌}
use middleware_player_interf.Common.Bytes.{IsByte}
use middleware_player_interf.Base64.{encode_digit, emit_group, encode_loop, base64_encode, string}
use middleware_player_interf.Base64.Digits.{
  field_18, field_12, field_6, field_0, two_bytes, three_bytes,
}

abbrev pub sextets : List ℕ → List ℕ
sextets [] = []
sextets (a ∷ []) = a / 4 ∷ (a % 4 * 16) ∷ []
sextets (a ∷ b ∷ []) = a / 4 ∷ (a % 4 * 16 + b / 16) ∷ (b % 16 * 4) ∷ []
sextets (a ∷ b ∷ c ∷ rest) =
    a / 4 ∷ (a % 4 * 16 + b / 16) ∷ (b % 16 * 4 + c / 64) ∷ c % 64 ∷ sextets rest

abbrev pub padding : List ℕ → List ℕ
padding [] = []
padding (a ∷ []) = b'=' ∷ b'=' ∷ []
padding (a ∷ b ∷ []) = b'=' ∷ []
padding (a ∷ b ∷ c ∷ rest) = padding rest

pub sextets-lt : (src : List ℕ) → All IsByte src → All (λ v. v < 64) (sextets src)
sextets-lt [] h = tt
sextets-lt (a ∷ []) h = omega arith
sextets-lt (a ∷ b ∷ []) h = omega arith
sextets-lt (a ∷ b ∷ c ∷ rest) h =
    (omega arith, (omega arith, (omega arith, (omega arith, sextets-lt rest h.1.1.1))))

-- The masks of one round on the value `t` of its three bytes.
record IsSplit (t p q r s : ℕ) : Type 0 where
  first : bit_and t 0x00fc0000 >>> 18 ≡ p
  second : bit_and t 0x0003f000 >>> 12 ≡ q
  third : bit_and t 0x00000fc0 >>> 6 ≡ r
  fourth : bit_and t 0x0000003f ≡ s

bytes-IsSplit :
    (a b c t : ℕ)
    → IsByte a
    → IsByte b
    → IsByte c
    → t ≡ a * 2 ^ 16 + b * 2 ^ 8 + c
    → IsSplit t (a / 4) (a % 4 * 16 + b / 16) (b % 16 * 4 + c / 64) (c % 64)
bytes-IsSplit a b c t ha hb hc e = record {
  first = field_18 t ∙ omega arith;
  second = field_12 t ∙ omega arith;
  third = field_6 t ∙ omega arith;
  fourth = field_0 t ∙ omega arith;
}

-- The rounds of the loop write the digits of the six-bit groups, and the padding behind them.
encode_loop-sextets :
    (src : List ℕ)
    → All IsByte src
    → encode_loop 0 src ≡ map encode_digit (sextets src) ++ padding src
unfolding encode_loop emit_group
encode_loop-sextets [] h = refl
encode_loop-sextets (a ∷ []) h =
    let x = bytes-IsSplit a 0 0 (a <<< 16) h.0 (omega arith) (omega arith) (omega arith) in
    let second : bit_and (a <<< 16) 0x0003f000 >>> 12 ≡ a % 4 * 16 = x.second ∙ omega arith in
    cc (x.first)
encode_loop-sextets (a ∷ b ∷ []) h =
    let x : IsSplit (bit_or (a <<< 16) (b <<< 8)) (a / 4) (a % 4 * 16 + b / 16)
        (b % 16 * 4 + 0 / 64) (0 % 64) =
      bytes-IsSplit a b 0 _ h.0 h.1.0 (omega arith) (omega (arith, two_bytes a b h.1.0)) in
    let third : bit_and (bit_or (a <<< 16) (b <<< 8)) 0x00000fc0 >>> 6 ≡ b % 16 * 4 =
      x.third ∙ omega arith in
    cc (x.first, x.second)
encode_loop-sextets (a ∷ b ∷ c ∷ rest) h =
    let x = bytes-IsSplit a b c _ h.0 h.1.0 h.1.1.0 (three_bytes a b c h.1.0 h.1.1.0) in
    cc (x.first, x.second, x.third, x.fourth, encode_loop-sextets rest h.1.1.1)

-- On bytes, where the allocation of 4 characters for each 3 bytes or part of them and one more succeeds
-- and the length is below 2 ^ 31 - 1: `base64_Encode` writes the digits of the six-bit groups of RFC 4648,
-- and the padding behind them.
pub base64_encode-sextets :
    (malloc : ℕ → Bool) (src : List ℕ)
    → All IsByte src
    → malloc ((length src + 2) / 3 * 4 + 1) ≡ true
    → length src < 2 ^ 31 - 1
    → base64_encode malloc src ≡ string (map encode_digit (sextets src) ++ padding src)
unfolding base64_encode
base64_encode-sextets malloc src h room short =
    rw (room, lt→ltb (length src) (2 ^ 31 - 1) short) (ap string (encode_loop-sextets src h))

-- A string comes from a length that the index can count.
pub base64_encode-string :
    (malloc : ℕ → Bool) (src text : List ℕ)
    → All IsByte src
    → base64_encode malloc src ≡ string text
    → text ≡ map encode_digit (sextets src) ++ padding src
unfolding base64_encode
base64_encode-string malloc src text h e = ground (arith, encode_loop-sextets src h)

pub padding-All : (src : List ℕ) → All (λ c. c ≡ b'=') (padding src)
padding-All [] = tt
padding-All (a ∷ []) = (refl, (refl, tt))
padding-All (a ∷ b ∷ []) = (refl, tt)
padding-All (a ∷ b ∷ c ∷ rest) = padding-All rest
