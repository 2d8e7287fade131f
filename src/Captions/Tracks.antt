-- ===== src/Captions/Tracks.antt =====
-- closedcaptions/PlayerCCManager.cpp: the channel that the name of a track stands for.
use middleware_player_interf.Common.{
  ℕ, ◌+◌, ◌-◌, ◌*◌, ◌%◌, ◌^◌, Bool, true, false, ◌&&◌, ◌||◌, [], ◌∷◌, Option, none, some, ltb, leb,
  ◌==◌, if◌then◌else◌, length, get_or, drop,
}
use middleware_player_interf.Common.Bytes.{codes}
use middleware_player_interf.Url.{starts_with}
use middleware_player_interf.Captions.{Text}

pub data CcFormat : Type 0 where
  format_608 format_708 format_default : CcFormat

abbrev pub is_digit : ℕ → Bool
is_digit c = leb b'0' c && leb c b'9'

-- `isspace` in the C locale
abbrev is_space : ℕ → Bool
is_space c = c == 32 || (leb 9 c && leb c 13)

unfoldable pub skip_spaces : Text → Text
skip_spaces [] = []
skip_spaces (c ∷ text) = let rest = skip_spaces text in if is_space c then rest else c ∷ text

-- The value of the leading digits, on top of one.
unfoldable pub digits_value : ℕ → Text → ℕ
digits_value n [] = n
digits_value n (c ∷ text) =
    let rest = digits_value (n * 10 + (c - b'0')) text in if is_digit c then rest else n

abbrev starts_digit : Text → Bool
starts_digit [] = false
starts_digit (c ∷ text) = is_digit c

-- `std::stoul` for a 64-bit `unsigned long`: `none` where it throws, for lack of digits or for a value
-- that is too large. A minus sign negates the value.
unfoldable pub stoul_digits : Bool → Text → Option ℕ
stoul_digits negative text =
    let n = digits_value 0 text in
    if starts_digit text && ltb n (2 ^ 64)
    then some (if negative then (2 ^ 64 - n) % 2 ^ 64 else n)
    else none

unfoldable pub stoul_sign : Text → Option ℕ
stoul_sign [] = none
stoul_sign (c ∷ text) =
    if c == b'-'
    then stoul_digits true text
    else if c == b'+'
    then stoul_digits false text
    else stoul_digits false (c ∷ text)

unfoldable pub stoul : Text → Option ℕ
stoul text = stoul_sign (skip_spaces text)

-- `(unsigned int)((int)c - 48 + k)` of a signed character
unfoldable pub char_number : ℕ → ℕ → ℕ
char_number k c = (2 ^ 32 + (if ltb c 128 then c else 2 ^ 32 - 256 + c) - 48 + k) % 2 ^ 32

-- The format and the number that the name says; `none` where `std::stoul` throws.
abbrev pub as_number : CcFormat → Option ℕ → Option (CcFormat × ℕ)
as_number format none = none
as_number format (some n) = some (format, n % 2 ^ 32)

unfoldable pub parse_track : Text → Option (CcFormat × ℕ)
parse_track track =
    if ltb 0 (length track) && leb 49 (get_or track 0 0) && leb (get_or track 0 0) 54
    then as_number format_default (stoul track)
    else if ltb 2 (length track) && starts_with track (codes "CC")
    then some (format_608, char_number 0 (get_or track 2 0))
    else if ltb 3 (length track) && starts_with track (codes "TXT")
    then some (format_608, char_number 4 (get_or track 3 0))
    else if ltb 4 (length track) && starts_with track (codes "TEXT")
    then some (format_608, char_number 4 (get_or track 4 0))
    else if ltb 7 (length track) && starts_with track (codes "SERVICE")
    then as_number format_708 (stoul (drop 7 track))
    else some (format_default, 0)

-- The format of the argument overrides that of the name.
unfoldable pub override : CcFormat → CcFormat × ℕ → CcFormat × ℕ
override format_default p = p
override format_608 (format_608, n) = (format_608, n)
override format_608 (f, n) = (format_608, if ltb 8 n then 0 else n)
override format_708 (f, n) = (format_708, n)

-- What is set: a digital channel, an analog one, or nothing.
pub data Selection : Type 0 where
  digital analog : ℕ → Selection
  ignored : Selection

unfoldable pub select : CcFormat × ℕ → Selection
select (format_708, n) = if ltb 0 n && leb n 63 then digital n else ignored
select (format_608, n) = if ltb 0 n && leb n 8 then analog (1000 + (n - 1)) else ignored
select (format_default, n) = ignored
