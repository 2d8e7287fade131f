-- ===== src/Base64/RoundTrip.antt =====
-- Decoding what the encoder wrote.
use middleware_player_interf.Common.{
  ℕ, zero, suc, ◌+◌, ◌*◌, ◌/◌, ◌%◌, ◌^◌, ◌<◌, ◌≤◌, ◌≡◌, ◌≢◌, refl, sym, ap, ◌∙◌, bit_or, List, [],
  ◌∷◌, ◌++◌, map, arith, All, length, length-append, get_or, take, All-get_or, get_or-append,
  take-append, bit_and, ◌-◌, Bool, true, some,
}
use middleware_player_interf.Common.Bits.{◌<<<◌, ◌>>>◌, bit_or-shift}
use middleware_player_interf.Common.Bytes.{IsByte}
use middleware_player_interf.Base64.{
  encode_digit, base64_encode, strip_padding, read_group, write_group, decode_loop, base64_decode,
  bytes, prepend, string,
}
use middleware_player_interf.Base64.Digits.{encode_digit-IsDigitOf, low_byte}
use mathlib.Core.List.{append-nil}
use native.Mathlib.Decide.{dec_le}
use middleware_player_interf.Base64.Groups.{
  padding-All, sextets, padding, sextets-lt, base64_encode-string,
}

-- One character of a group.
read_digit :
    (i buf count v : ℕ) (src : List ℕ)
    → v < 64
    → buf < 2 ^ 26
    → read_group (suc i) buf count (encode_digit v ∷ src)
      ≡ read_group i (buf * 64 + v) (count + 1) src
unfolding read_group
read_digit i buf count v src h fits =
    let x = encode_digit-IsDigitOf v h in
    let joined : bit_or (buf <<< 6 % 2 ^ 32) v ≡ buf * 64 + v =
      ap (λ (t : ℕ). bit_or t v) (omega arith) ∙ bit_or-shift 6 buf v h in
    ground (arith, x.decodes, joined)

-- A group of four, three or two characters.
read_four :
    (p q r s : ℕ) (rest : List ℕ)
    → p < 64
    → q < 64
    → r < 64
    → s < 64
    → read_group 4 0 0 (encode_digit p ∷ encode_digit q ∷ encode_digit r ∷ encode_digit s ∷ rest)
      ≡ some (((p * 64 + q) * 64 + r) * 64 + s, 4, rest)
read_four p q r s rest hp hq hr hs =
    read_digit 3 0 0 p _ hp (omega arith)
    ∙ read_digit 2 (0 * 64 + p) 1 q _ hq (omega arith)
    ∙ read_digit 1 ((0 * 64 + p) * 64 + q) 2 r _ hr (omega arith)
    ∙ read_digit 0 (((0 * 64 + p) * 64 + q) * 64 + r) 3 s _ hs (omega arith)
    ∙ unfold read_group in ground arith

read_three :
    (p q r : ℕ)
    → p < 64
    → q < 64
    → r < 64
    → read_group 4 0 0 (encode_digit p ∷ encode_digit q ∷ encode_digit r ∷ [])
      ≡ some (((p * 64 + q) * 64 + r) * 64, 3, [])
read_three p q r hp hq hr =
    read_digit 3 0 0 p _ hp (omega arith)
    ∙ read_digit 2 (0 * 64 + p) 1 q _ hq (omega arith)
    ∙ read_digit 1 ((0 * 64 + p) * 64 + q) 2 r _ hr (omega arith)
    ∙ unfold read_group in ground arith

read_two :
    (p q : ℕ)
    → p < 64
    → q < 64
    → read_group 4 0 0 (encode_digit p ∷ encode_digit q ∷ []) ≡ some ((p * 64 + q) * 64 * 64, 2, [])
read_two p q hp hq =
    read_digit 3 0 0 p _ hp (omega arith)
    ∙ read_digit 2 (0 * 64 + p) 1 q _ hq (omega arith)
    ∙ unfold read_group in ground arith

write_bytes :
    (t a b c : ℕ)
    → IsByte a
    → IsByte b
    → IsByte c
    → t ≡ a * 2 ^ 16 + b * 2 ^ 8 + c
    → (write_group t 4 ≡ a ∷ b ∷ c ∷ [])
      × (write_group t 3 ≡ a ∷ b ∷ [])
      × (write_group t 2 ≡ a ∷ [])
unfolding write_group
write_bytes t a b c ha hb hc e =
    let top : bit_and (t >>> 16) 0xff ≡ a = low_byte (t / 2 ^ 16) ∙ omega arith in
    let middle : bit_and (t >>> 8) 0xff ≡ b = low_byte (t / 2 ^ 8) ∙ omega arith in
    let bottom : bit_and t 0xff ≡ c = low_byte t ∙ omega arith in
    (rw (top, middle, bottom), rw (top, middle), rw top)

decode_step :
    (fuel c : ℕ) (cs : List ℕ) (buf count : ℕ) (rest out : List ℕ)
    → read_group 4 0 0 (c ∷ cs) ≡ some (buf, count, rest)
    → write_group buf count ≡ out
    → decode_loop (suc fuel) (c ∷ cs) ≡ prepend out (decode_loop fuel rest)
unfolding decode_loop
decode_step fuel c cs buf count rest out e w = rw (e, decode_loop) (rw w refl)

-- The decoder's loop gives the input of the encoder back from the digits of its groups.
pub decode_loop-sextets :
    (src : List ℕ) (fuel : ℕ)
    → All IsByte src
    → length (sextets src) ≤ fuel
    → decode_loop fuel (map encode_digit (sextets src)) ≡ bytes src
decode_loop-sextets [] fuel h k = unfold decode_loop in refl
decode_loop-sextets (a ∷ []) zero h k = elim k [ ]
decode_loop-sextets (a ∷ []) (suc fuel) h k =
    decode_step fuel _ _ _ _ _ _ (read_two _ _ (omega arith) (omega arith))
      (write_bytes _ a 0 0 h.0 (omega arith) (omega arith) (omega arith)).2
    ∙ unfold decode_loop in refl
decode_loop-sextets (a ∷ b ∷ []) zero h k = elim k [ ]
decode_loop-sextets (a ∷ b ∷ []) (suc fuel) h k =
    decode_step fuel _ _ _ _ _ _ (read_three _ _ _ (omega arith) (omega arith) (omega arith))
      (write_bytes _ a b 0 h.0 h.1.0 (omega arith) (omega arith)).1
    ∙ unfold decode_loop in refl
decode_loop-sextets (a ∷ b ∷ c ∷ rest) zero h k = elim k [ ]
decode_loop-sextets (a ∷ b ∷ c ∷ rest) (suc fuel) h k =
    decode_step fuel _ _ _ _ _ _
      (read_four _ _ _ _ _ (omega arith) (omega arith) (omega arith) (omega arith))
      (write_bytes _ a b c h.0 h.1.0 h.1.1.0 (omega arith)).0
    ∙ ap (prepend (a ∷ b ∷ c ∷ [])) (decode_loop-sextets rest fuel h.1.1.1 (omega arith))

strip_digits :
    (n : ℕ) (xs ys : List ℕ)
    → All (λ c. c ≢ b'=') xs
    → n ≤ length xs
    → strip_padding n (xs ++ ys) ≡ n
unfolding strip_padding
strip_digits zero xs ys h k = refl
strip_digits (suc n) xs ys h k = ground (arith, All-get_or (λ c. c ≢ b'=') xs ys n 0 h)

-- Stripping stops at the last character that is no padding.
pub strip_padding_lem :
    (n : ℕ) (xs ys : List ℕ)
    → All (λ c. c ≢ b'=') xs
    → All (λ c. c ≡ b'=') ys
    → length xs ≤ n
    → n ≤ length xs + length ys
    → strip_padding n (xs ++ ys) ≡ length xs
unfolding strip_padding
strip_padding_lem zero xs ys h p lo hi = omega arith
strip_padding_lem (suc n) xs ys h p lo hi = elim (dec_le (length xs) n) [
  | yes inside ↦
      let here : get_or (xs ++ ys) n 0 ≡ b'=' =
        get_or-append xs ys (n - length xs) n 0 (omega arith)
        ∙ sym (ap (λ zs. get_or zs (n - length xs) 0) (append-nil ys))
        ∙ All-get_or (λ c. c ≡ b'=') ys [] (n - length xs) 0 p (omega arith) in
      let ih = strip_padding_lem n xs ys h p inside (omega arith) in ground arith
  | no outside ↦
      let all : suc n ≡ length xs = omega arith in strip_digits (suc n) xs ys h (omega arith) ∙ all
]

digits_not_padding :
    (vs : List ℕ) → All (λ v. v < 64) vs → All (λ c. c ≢ b'=') (map encode_digit vs)
digits_not_padding [] h = tt
digits_not_padding (v ∷ vs) h =
    ((encode_digit-IsDigitOf v h.0).no_padding, digits_not_padding vs h.1)

length-map_digits : (vs : List ℕ) → length (map encode_digit vs) ≡ length vs
length-map_digits [] = refl
length-map_digits (v ∷ vs) = ap suc (length-map_digits vs)

-- The decoder reads the digits of an input with any padding behind them.
pub base64_decode-digits :
    (malloc : ℕ → Bool) (src pads : List ℕ)
    → All IsByte src
    → All (λ c. c ≡ b'=') pads
    → malloc (length (map encode_digit (sextets src) ++ pads) * 3 % 2 ^ 64 / 4) ≡ true
    → base64_decode malloc (map encode_digit (sextets src) ++ pads) ≡ bytes src
unfolding base64_decode
base64_decode-digits malloc src pads h p room = rw (room, stripped) decoded
  where
    digits : List ℕ
    digits = map encode_digit (sextets src)

    kept_length : strip_padding (length (digits ++ pads)) (digits ++ pads) ≡ length digits
    kept_length =
        strip_padding_lem (length (digits ++ pads)) digits pads
          (digits_not_padding (sextets src) (sextets-lt src h)) p
          (omega (arith, length-append digits pads)) (omega (arith, length-append digits pads))

    stripped :
        take (strip_padding (length (digits ++ pads)) (digits ++ pads)) (digits ++ pads) ≡ digits
    stripped = rw kept_length (take-append digits pads)

    decoded : decode_loop (length digits) digits ≡ bytes src
    decoded =
        decode_loop-sextets src (length digits) h (omega (arith, length-map_digits (sextets src)))

-- Wherever `base64_Encode` gives a string for some bytes (its allocation succeeds, and its `int` index stays
-- in range) and the allocation of the decoder succeeds: `base64_Decode` gives these bytes back.
pub base64_decode-encode :
    (malloc : ℕ → Bool) (src text : List ℕ)
    → All IsByte src
    → base64_encode malloc src ≡ string text
    → malloc (length text * 3 % 2 ^ 64 / 4) ≡ true
    → base64_decode malloc text ≡ bytes src
base64_decode-encode malloc src text h e room =
    rw written
      (base64_decode-digits malloc src (padding src) h (padding-All src) (rw written at room))
  where
    written : text ≡ map encode_digit (sextets src) ++ padding src
    written = base64_encode-string malloc src text h e
