-- ===== src/Base16/Tests.antt =====
-- Runs of the base16 functions, and the theorems at concrete inputs.
use middleware_player_interf.Common.{
  ℕ, Bool, true, List, [], ◌∷◌, ◌≡◌, refl, ◌*◌, length, arith, All, some,
}
use middleware_player_interf.Common.Bytes.{codes, IsByte}
use middleware_player_interf.Base16.{
  bytes, base16_decode, base16_encode, read_all, char_to_index, write_all, write_hascii, hex_digit,
}
use middleware_player_interf.Base16.RoundTrip.{base16_decode-encode}

abbrev always : ℕ → Bool
always n = true

decode_a : base16_decode always (codes "4aFf") ≡ bytes (0x4a ∷ 0xff ∷ [])
unfolding base16_decode read_all char_to_index
decode_a = refl

decode_invalid : base16_decode always (codes "zz") ≡ bytes (0xff ∷ [])
unfolding base16_decode read_all char_to_index
decode_invalid = refl

abbrev two_bytes : List ℕ
two_bytes = 0x4a ∷ 0xff ∷ []

two_bytes-All : All IsByte two_bytes
two_bytes-All = (omega arith, (omega arith, tt))

encode_two : base16_encode always two_bytes ≡ some (codes "4aff")
unfolding base16_encode write_all write_hascii hex_digit
encode_two = refl

base16_decode-encode_example :
    (length (codes "4aff") ≡ 2 * length two_bytes)
    × (base16_decode always (codes "4aff") ≡ bytes two_bytes)
base16_decode-encode_example =
    base16_decode-encode always two_bytes (codes "4aff") two_bytes-All (λ n. refl) encode_two
