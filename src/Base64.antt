-- ===== src/Base64.antt =====
-- baseConversion/_base64.cpp, and the base64-URL functions of PlayerUtils.cpp. A buffer is the list
-- of its bytes. `malloc` is an argument that says whether an allocation of so many bytes succeeds.
-- The loops of base64_Encode and base64_URL_Decode count in an `int` and compare it with a `size_t`:
-- where the counter would pass 2 ^ 31 - 1 the program has no value, and the models give `overflow`.
pub mod Digits
pub mod Groups
pub mod RoundTrip
pub mod Bounds
pub mod Url
mod Tests
use middleware_player_interf.Common.{
  ℕ, zero, suc, ◌+◌, ◌-◌, ◌*◌, ◌/◌, ◌%◌, ◌^◌, bit_and, bit_or, Bool, true, false, List, [], ◌∷◌,
  ◌++◌, Option, none, some, length, get_or, take, replicate, ltb, leb, ◌==◌, if◌then◌else◌,
}
use middleware_player_interf.Common.Bits.{◌<<<◌, ◌>>>◌}
use middleware_player_interf.Common.Bytes.{codes}

-- `encode`
alphabet : List ℕ
alphabet = codes "ABCDEFGHIJKLMNOPQRSTUVWXYZabcdefghijklmnopqrstuvwxyz0123456789+/"

unfoldable pub encode_digit : ℕ → ℕ
unfolding alphabet
encode_digit v = get_or alphabet v 0

-- `-1` as the bit pattern of a `signed char`.
abbrev minus_one : ℕ
minus_one = 0xff

-- `decode`: the rows that hold a digit, then the rows of `-1`.
decode_rows : List ℕ
decode_rows =
    let n : ℕ = minus_one in
    (n ∷ n ∷ n ∷ n ∷ n ∷ n ∷ n ∷ n ∷ n ∷ n ∷ n ∷ n ∷ n ∷ n ∷ n ∷ n ∷ [])
    ++ (n ∷ n ∷ n ∷ n ∷ n ∷ n ∷ n ∷ n ∷ n ∷ n ∷ n ∷ n ∷ n ∷ n ∷ n ∷ n ∷ [])
    ++ (n ∷ n ∷ n ∷ n ∷ n ∷ n ∷ n ∷ n ∷ n ∷ n ∷ n ∷ 62 ∷ n ∷ 63 ∷ n ∷ 63 ∷ [])
    ++ (52 ∷ 53 ∷ 54 ∷ 55 ∷ 56 ∷ 57 ∷ 58 ∷ 59 ∷ 60 ∷ 61 ∷ n ∷ n ∷ n ∷ 0 ∷ n ∷ n ∷ [])
    ++ (n ∷ 0 ∷ 1 ∷ 2 ∷ 3 ∷ 4 ∷ 5 ∷ 6 ∷ 7 ∷ 8 ∷ 9 ∷ 10 ∷ 11 ∷ 12 ∷ 13 ∷ 14 ∷ [])
    ++ (15 ∷ 16 ∷ 17 ∷ 18 ∷ 19 ∷ 20 ∷ 21 ∷ 22 ∷ 23 ∷ 24 ∷ 25 ∷ n ∷ n ∷ n ∷ n ∷ n ∷ [])
    ++ (n ∷ 26 ∷ 27 ∷ 28 ∷ 29 ∷ 30 ∷ 31 ∷ 32 ∷ 33 ∷ 34 ∷ 35 ∷ 36 ∷ 37 ∷ 38 ∷ 39 ∷ 40 ∷ [])
    ++ (41 ∷ 42 ∷ 43 ∷ 44 ∷ 45 ∷ 46 ∷ 47 ∷ 48 ∷ 49 ∷ 50 ∷ 51 ∷ n ∷ n ∷ n ∷ n ∷ n ∷ [])
    ++ replicate 128 n

unfoldable pub decode_digit : ℕ → ℕ
unfolding decode_rows
decode_digit c = get_or decode_rows c minus_one

abbrev is_negative : ℕ → Bool
is_negative d = leb 128 d

-- The four characters that one round of the encoder's loop writes.
pub emit_group : ℕ → ℕ → List ℕ
emit_group temp pad =
    encode_digit (bit_and temp 0x00fc0000 >>> 18)
    ∷ encode_digit (bit_and temp 0x0003f000 >>> 12)
    ∷ (if leb 2 pad then b'=' else encode_digit (bit_and temp 0x00000fc0 >>> 6))
    ∷ (if leb 1 pad then b'=' else encode_digit (bit_and temp 0x0000003f))
    ∷ []

-- One clause for each number of bytes that `src < fin` finds left; `pad` lives through the loop. Where the
-- `int` index leaves its range is told by `base64_encode`.
pub encode_loop : ℕ → List ℕ → List ℕ
encode_loop pad [] = []
encode_loop pad (a ∷ []) = emit_group (a <<< 16) (pad + 1 + 1)
encode_loop pad (a ∷ b ∷ []) = emit_group (bit_or (a <<< 16) (b <<< 8)) (pad + 1)
encode_loop pad (a ∷ b ∷ c ∷ rest) =
    emit_group (bit_or (bit_or (a <<< 16) (b <<< 8)) c) pad ++ encode_loop pad rest

-- The string without its final zero, NULL, or the undefined step of the index of the loop.
pub data Encoded : Type 0 where
  string : List ℕ → Encoded
  no_string index_overflow : Encoded

-- `base64_Encode`: the index `int i` goes up by 3 as long as it is below the length, and stays an `int`
-- where the length is 2 ^ 31 - 2 at most.
unfoldable pub base64_encode : (ℕ → Bool) → List ℕ → Encoded
base64_encode malloc src =
    if malloc ((length src + 2) / 3 * 4 + 1)
    then if ltb (length src) (2 ^ 31 - 1) then string (encode_loop 0 src) else index_overflow
    else no_string

-- The length once trailing `=` are stripped.
pub strip_padding : ℕ → List ℕ → ℕ
strip_padding zero src = zero
strip_padding (suc n) src =
    let rest = strip_padding n src in if get_or src n 0 == b'=' then rest else suc n

-- The inner loop, with the rounds left: `none` on an invalid character.
pub read_group : ℕ → ℕ → ℕ → List ℕ → Option (ℕ × ℕ × List ℕ)
read_group zero buf count src = some (buf, count, src)
read_group (suc i) buf count [] = read_group i (buf <<< 6 % 2 ^ 32) count []
read_group (suc i) buf count (c ∷ src) =
    let rest = read_group i (bit_or (buf <<< 6 % 2 ^ 32) (decode_digit c)) (count + 1) src in
    if is_negative (decode_digit c) then none else rest

pub write_group : ℕ → ℕ → List ℕ
write_group buf count =
    (if leb 2 count then bit_and (buf >>> 16) 0xff ∷ [] else [])
    ++ ((if leb 3 count then bit_and (buf >>> 8) 0xff ∷ [] else [])
        ++ (if leb 4 count then bit_and buf 0xff ∷ [] else []))

-- `stuck` and `overflow` are no values of the program: the fuel ran out, and an `int` did.
pub data Decoded : Type 0 where
  bytes : List ℕ → Decoded
  null : Decoded
  stuck : Decoded
  overflow : Decoded

abbrev pub prepend : List ℕ → Decoded → Decoded
prepend xs (bytes ys) = bytes (xs ++ ys)
prepend xs null = null
prepend xs stuck = stuck
prepend xs overflow = overflow

-- `while (src < fin)`, with pointers.
pub decode_loop : ℕ → List ℕ → Decoded
decode_loop fuel [] = bytes []
decode_loop zero (c ∷ cs) = stuck
decode_loop (suc fuel) (c ∷ cs) = elim (read_group 4 0 0 (c ∷ cs)) [
  | none ↦ null
  | some (buf, count, rest) ↦ prepend (write_group buf count) (decode_loop fuel rest)
]

-- `base64_Decode` with a length. A round of the loop takes a character at least.
unfoldable pub base64_decode : (ℕ → Bool) → List ℕ → Decoded
unfolding strip_padding
base64_decode malloc src =
    let kept = take (strip_padding (length src) src) src in
    if malloc (length src * 3 % 2 ^ 64 / 4) then decode_loop (length kept) kept else null

-- `strlen`: the characters before the first zero.
pub c_string : List ℕ → List ℕ
c_string [] = []
c_string (c ∷ cs) = if c == 0 then [] else c ∷ c_string cs

-- `base64_URL_Encode` rewrites the buffer of `base64_Encode` up to its zero.
pub to_url : ℕ → ℕ
to_url c = if c == b'+' then b'-' else if c == b'/' then b'_' else if c == b'=' then 0 else c

pub map_url : List ℕ → List ℕ
map_url [] = []
map_url (c ∷ cs) = if c == 0 then c ∷ cs else to_url c ∷ map_url cs

-- The caller reads the result as a string, to its first zero.
unfoldable pub base64_url_encode : (ℕ → Bool) → List ℕ → Encoded
unfolding map_url to_url c_string
base64_url_encode malloc src = elim (base64_encode malloc src) [
  | string cs ↦ string (c_string (map_url cs))
  | no_string ↦ no_string
  | index_overflow ↦ index_overflow
]

pub from_url : ℕ → ℕ
from_url c = if c == b'_' then b'/' else if c == b'-' then b'+' else c

-- The loop of `base64_URL_Decode`; where its index leaves its range is told by `base64_url_decode`.
pub map_from_url : List ℕ → List ℕ
map_from_url [] = []
map_from_url (c ∷ cs) = from_url c ∷ map_from_url cs

-- `base64_URL_Decode`: two `=` and a zero behind the copy, then `base64_Decode` of the string. The index
-- `int iter` goes up to the length.
unfoldable pub base64_url_decode : (ℕ → Bool) → List ℕ → Decoded
unfolding map_from_url from_url c_string base64_decode
base64_url_decode malloc src =
    if malloc (length src + 3)
    then if ltb (length src) (2 ^ 31)
      then base64_decode malloc (c_string (map_from_url src ++ (b'=' ∷ b'=' ∷ 0 ∷ [])))
      else overflow
    else null
