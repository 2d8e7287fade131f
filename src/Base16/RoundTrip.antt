-- ===== src/Base16/RoundTrip.antt =====
-- Decoding what the base16 encoder wrote, and the inputs that the decoder cannot take.
use middleware_player_interf.Common.{
  ℕ, suc, ◌+◌, ◌*◌, ◌/◌, ◌%◌, ◌≡◌, refl, bit_and, bit_or, Bool, true, List, [], ◌∷◌, some, arith,
  All, length, ◌==◌,
}
use middleware_player_interf.Common.Bytes.{IsByte, holds_below, holds_below→holds}
use middleware_player_interf.Common.Bits.{◌<<<◌, ◌>>>◌}
use middleware_player_interf.Base16.{
  hex_digit, char_to_index, write_hascii, write_all, base16_encode, Decoded, bytes, null, fault,
  prepend, read_all, base16_decode,
}

abbrev hascii_test : ℕ → Bool
hascii_test c =
    bit_or (char_to_index (hex_digit (c >>> 4)) <<< 4 % 256)
      (char_to_index (hex_digit (bit_and c 0xf)))
    == c

hascii_table : holds_below 256 hascii_test ≡ true
unfolding holds_below hex_digit char_to_index
hascii_table = refl

hascii_back :
    (c : ℕ)
    → IsByte c
    → bit_or
        (char_to_index (hex_digit (c >>> 4)) <<< 4 % 256)
        (char_to_index (hex_digit (bit_and c 0xf)))
      ≡ c
hascii_back c h =
    let e : hascii_test c ≡ true = holds_below→holds 256 hascii_test c h hascii_table in
    ground arith

read_all-write_all : (src : List ℕ) → All IsByte src → read_all (write_all src) ≡ bytes src
unfolding read_all write_all write_hascii
read_all-write_all [] h = refl
read_all-write_all (c ∷ src) h = rw (read_all-write_all src h.1, hascii_back c h.0) refl

length-write_all : (src : List ℕ) → length (write_all src) ≡ 2 * length src
unfolding write_all write_hascii
length-write_all [] = omega arith
length-write_all (c ∷ src) = omega (arith, length-write_all src)

-- `base16_Encode` writes two characters for each byte, and `base16_Decode` gives the bytes back,
-- wherever every allocation succeeds.
pub base16_decode-encode :
    (malloc : ℕ → Bool) (src text : List ℕ)
    → All IsByte src
    → ((n : ℕ) → malloc n ≡ true)
    → base16_encode malloc src ≡ some text
    → (length text ≡ 2 * length src) × (base16_decode malloc text ≡ bytes src)
unfolding base16_decode base16_encode
base16_decode-encode malloc src text h room e =
    let written : text ≡ write_all src = ground (arith, room (1 + length src * 2)) in
    rw written
      (length-write_all src, rw (room (length (write_all src) / 2)) (read_all-write_all src h))

-- What the decoder returns by the number of characters: a byte for each pair of them, whatever they
-- are, and an access outside its buffers where one is left over.
abbrev pub Reads : ℕ → Decoded → Type 0
Reads n (bytes out) = 2 * length out ≡ n
Reads n null = ⊥
Reads n fault = n % 2 ≡ 1

prepend-Reads : (x n : ℕ) (d : Decoded) → Reads n d → Reads (suc (suc n)) (prepend x d)
prepend-Reads x n (bytes out) r = omega arith
prepend-Reads x n null r = r
prepend-Reads x n fault r = omega arith

read_all-Reads : (src : List ℕ) → Reads (length src) (read_all src)
unfolding read_all
read_all-Reads [] = omega arith
read_all-Reads (h ∷ []) = omega arith
read_all-Reads (h ∷ l ∷ src) = prepend-Reads _ (length src) (read_all src) (read_all-Reads src)

-- Where its allocation succeeds `base16_Decode` never returns NULL: it accepts every text of even
-- length, invalid characters included, and leaves its buffers exactly on the texts of odd length.
pub base16_decode-Reads :
    (malloc : ℕ → Bool) (src : List ℕ)
    → malloc (length src / 2) ≡ true
    → Reads (length src) (base16_decode malloc src)
unfolding base16_decode
base16_decode-Reads malloc src room = rw room (read_all-Reads src)
