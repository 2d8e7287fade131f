-- ===== src/Base64/Digits.antt =====
-- The two tables of _base64.cpp against each other, and the masks of the encoder as arithmetic.
use middleware_player_interf.Common.{
  ℕ, ◌+◌, ◌*◌, ◌/◌, ◌%◌, ◌^◌, ◌<◌, bit_and, bit_or, ◌≡◌, refl, ap, ◌≢◌, Bool, true, not, ◌&&◌,
  arith, ltb, ◌==◌,
}
use middleware_player_interf.Common.Bits.{◌<<<◌, ◌>>>◌, bit_and-shift, bit_and-mask, bit_or-shift}
use middleware_player_interf.Common.Bytes.{IsByte, holds_below, holds_below→holds}
use middleware_player_interf.Base64.{encode_digit, decode_digit}

abbrev digit_test : ℕ → Bool
digit_test v =
    decode_digit (encode_digit v) == v
    && (ltb (encode_digit v) 128 && (ltb 0 (encode_digit v) && not (encode_digit v == b'=')))

digit_table : holds_below 64 digit_test ≡ true
unfolding holds_below encode_digit decode_digit
digit_table = refl

pub record IsDigitOf (v : ℕ) : Type 0 where
  pub decodes : decode_digit (encode_digit v) ≡ v
  pub ascii : encode_digit v < 128
  pub nonzero : 0 < encode_digit v
  pub no_padding : encode_digit v ≢ b'='

pub encode_digit-IsDigitOf : (v : ℕ) → v < 64 → IsDigitOf v
encode_digit-IsDigitOf v h =
    let e : digit_test v ≡ true = holds_below→holds 64 digit_test v h digit_table in
    record {
      decodes = ground arith;
      ascii = ground arith;
      nonzero = ground arith;
      no_padding = ground arith;
    }

pub field_18 : (t : ℕ) → bit_and t 0x00fc0000 >>> 18 ≡ t / 2 ^ 18 % 64
field_18 t = omega (arith, bit_and-shift 18 t 63, bit_and-mask 6 (t / 2 ^ 18))

pub field_12 : (t : ℕ) → bit_and t 0x0003f000 >>> 12 ≡ t / 2 ^ 12 % 64
field_12 t = omega (arith, bit_and-shift 12 t 63, bit_and-mask 6 (t / 2 ^ 12))

pub field_6 : (t : ℕ) → bit_and t 0x00000fc0 >>> 6 ≡ t / 2 ^ 6 % 64
field_6 t = omega (arith, bit_and-shift 6 t 63, bit_and-mask 6 (t / 2 ^ 6))

pub field_0 : (t : ℕ) → bit_and t 0x0000003f ≡ t % 64
field_0 t = bit_and-mask 6 t

pub two_bytes : (a b : ℕ) → IsByte b → bit_or (a <<< 16) (b <<< 8) ≡ a * 2 ^ 16 + b * 2 ^ 8
two_bytes a b h = bit_or-shift 16 a (b * 2 ^ 8) (omega arith)

pub three_bytes :
    (a b c : ℕ)
    → IsByte b
    → IsByte c
    → bit_or (bit_or (a <<< 16) (b <<< 8)) c ≡ a * 2 ^ 16 + b * 2 ^ 8 + c
three_bytes a b c hb hc =
    let high : bit_or (a <<< 16) (b <<< 8) ≡ (a * 2 ^ 8 + b) <<< 8 =
      omega (arith, two_bytes a b hb) in
    omega (arith, ap (λ (t : ℕ). bit_or t c) high, bit_or-shift 8 (a * 2 ^ 8 + b) c hc)

pub low_byte : (t : ℕ) → bit_and t 0xff ≡ t % 2 ^ 8
low_byte t = bit_and-mask 8 t
