-- ===== src/Base16.antt =====
-- baseConversion/base16.cpp, with the macro WRITE_HASCII of PlayerUtils.h. A buffer is the list of its
-- bytes. `malloc` is an argument that says whether an allocation of so many bytes succeeds.
pub mod RoundTrip
mod Tests
use middleware_player_interf.Common.{
  ℕ, ◌+◌, ◌*◌, ◌/◌, ◌%◌, bit_and, bit_or, Bool, true, false, List, [], ◌∷◌, ◌++◌, length, get_or,
  replicate, if◌then◌else◌, Option, none, some,
}
use middleware_player_interf.Common.Bits.{◌<<<◌, ◌>>>◌}
use middleware_player_interf.Common.Bytes.{codes}

unfoldable pub hex_digit : ℕ → ℕ
hex_digit v = get_or (codes "0123456789abcdef") v 0

-- `-1` as the bit pattern of a `signed char`.
abbrev minus_one : ℕ
minus_one = 0xff

-- `mBase16CharToIndex`: the rows that hold a digit, then the rows of `-1`.
index_rows : List ℕ
index_rows =
    let n : ℕ = minus_one in
    (n ∷ n ∷ n ∷ n ∷ n ∷ n ∷ n ∷ n ∷ n ∷ n ∷ n ∷ n ∷ n ∷ n ∷ n ∷ n ∷ [])
    ++ (n ∷ n ∷ n ∷ n ∷ n ∷ n ∷ n ∷ n ∷ n ∷ n ∷ n ∷ n ∷ n ∷ n ∷ n ∷ n ∷ [])
    ++ (n ∷ n ∷ n ∷ n ∷ n ∷ n ∷ n ∷ n ∷ n ∷ n ∷ n ∷ n ∷ n ∷ n ∷ n ∷ n ∷ [])
    ++ (0 ∷ 1 ∷ 2 ∷ 3 ∷ 4 ∷ 5 ∷ 6 ∷ 7 ∷ 8 ∷ 9 ∷ n ∷ n ∷ n ∷ n ∷ n ∷ n ∷ [])
    ++ (n ∷ 10 ∷ 11 ∷ 12 ∷ 13 ∷ 14 ∷ 15 ∷ n ∷ n ∷ n ∷ n ∷ n ∷ n ∷ n ∷ n ∷ n ∷ [])
    ++ (n ∷ n ∷ n ∷ n ∷ n ∷ n ∷ n ∷ n ∷ n ∷ n ∷ n ∷ n ∷ n ∷ n ∷ n ∷ n ∷ [])
    ++ (n ∷ 10 ∷ 11 ∷ 12 ∷ 13 ∷ 14 ∷ 15 ∷ n ∷ n ∷ n ∷ n ∷ n ∷ n ∷ n ∷ n ∷ n ∷ [])
    ++ (n ∷ n ∷ n ∷ n ∷ n ∷ n ∷ n ∷ n ∷ n ∷ n ∷ n ∷ n ∷ n ∷ n ∷ n ∷ n ∷ [])
    ++ replicate 128 n

unfoldable pub char_to_index : ℕ → ℕ
unfolding index_rows
char_to_index c = get_or index_rows c minus_one

-- WRITE_HASCII
pub write_hascii : ℕ → List ℕ
write_hascii c = hex_digit (c >>> 4) ∷ hex_digit (bit_and c 0xf) ∷ []

pub write_all : List ℕ → List ℕ
write_all [] = []
write_all (c ∷ src) = write_hascii c ++ write_all src

-- `base16_Encode`: the characters of the string, without the final zero.
unfoldable pub base16_encode : (ℕ → Bool) → List ℕ → Option (List ℕ)
base16_encode malloc src = if malloc (1 + length src * 2) then some (write_all src) else none

-- `fault` is an access outside a buffer: behind the last of an odd number of characters, and the
-- write behind the `srcLen / 2` bytes that were allocated for them.
pub data Decoded : Type 0 where
  bytes : List ℕ → Decoded
  null : Decoded
  fault : Decoded

abbrev pub prepend : ℕ → Decoded → Decoded
prepend x (bytes ys) = bytes (x ∷ ys)
prepend x null = null
prepend x fault = fault

pub read_all : List ℕ → Decoded
read_all [] = bytes []
read_all (h ∷ []) = fault
read_all (h ∷ l ∷ src) =
    prepend (bit_or (char_to_index h <<< 4 % 256) (char_to_index l)) (read_all src)

unfoldable pub base16_decode : (ℕ → Bool) → List ℕ → Decoded
base16_decode malloc src = if malloc (length src / 2) then read_all src else null
