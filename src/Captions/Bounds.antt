-- ===== src/Captions/Bounds.antt =====
-- Which channels the name of a track selects.
use middleware_player_interf.Common.{
  ℕ, ◌+◌, ◌/◌, ◌%◌, ◌≡◌, ◌<◌, ◌≤◌, refl, Bool, true, false, ◌&&◌, [], ◌∷◌, ◌++◌, Option, none, some,
  arith, ◌==◌, ltb, leb, if◌then◌else◌, Bool-cases, inl, inr,
}
use middleware_player_interf.Common.Bytes.{codes, holds_below, holds_below→holds}
use middleware_player_interf.Url.{starts_with}
use middleware_player_interf.Captions.{Text}
use middleware_player_interf.Captions.Tracks.{
  CcFormat, format_608, format_708, format_default, skip_spaces, digits_value, stoul_digits,
  stoul_sign, stoul, char_number, parse_track, override, Selection, digital, analog, ignored,
  select,
}

-- The digital services, and the analog ones from `GSW_CC_ANALOG_SERVICE_CC1` to `..._T4`.
abbrev pub IsChannel : Selection → Type 0
IsChannel (digital n) = (1 ≤ n) × (n ≤ 63)
IsChannel (analog n) = (1000 ≤ n) × (n ≤ 1007)
IsChannel ignored = Unit

in_range : (p : CcFormat × ℕ) → IsChannel (select p)
unfolding select
in_range (format_708, n) = elim (Bool-cases (ltb 0 n && leb n 63)) [
  | inl e ↦ rw e (ground arith)
  | inr e ↦ rw e tt
]
in_range (format_608, n) = elim (Bool-cases (ltb 0 n && leb n 8)) [
  | inl e ↦
      let low : 0 < n = ground arith in
      let high : n ≤ 8 = ground arith in rw e (omega arith, omega arith)
  | inr e ↦ rw e tt
]
in_range (format_default, n) = tt

-- Whatever a name says and whatever the format of the call: what is selected is a digital service from 1
-- to 63, an analog one from 1000 to 1007, or nothing.
pub select-IsChannel : (f : CcFormat) (p : CcFormat × ℕ) → IsChannel (select (override f p))
select-IsChannel f p = in_range (override f p)

-- A number below 100 in decimal
abbrev pub decimal : ℕ → Text
decimal n = if ltb n 10 then (48 + n) ∷ [] else (48 + n / 10) ∷ (48 + n % 10) ∷ []

-- What `SetTrack` selects for a name without a format; `none` where it throws.
abbrev pub selected : Option (CcFormat × ℕ) → Option Selection
selected none = none
selected (some p) = some (select (override format_default p))

abbrev pub is_digital : ℕ → Option Selection → Bool
is_digital n (some (digital m)) = m == n
is_digital n _ = false

abbrev pub is_analog : ℕ → Option Selection → Bool
is_analog n (some (analog m)) = m == n
is_analog n _ = false

-- For each number from 1 to 63, "SERVICE" and the number in decimal select this digital service.
pub service_selects :
    (n : ℕ)
    → n < 63
    → is_digital (n + 1) (selected (parse_track (codes "SERVICE" ++ decimal (n + 1)))) ≡ true
service_selects n h =
    holds_below→holds 63
      (λ n. is_digital (n + 1) (selected (parse_track (codes "SERVICE" ++ decimal (n + 1))))) n h
      (unfold holds_below in
        unfold parse_track in
        unfold stoul in
        unfold stoul_sign in
        unfold stoul_digits in
        unfold skip_spaces in
        unfold digits_value in unfold starts_with in unfold select in unfold override in refl)

-- For each number from 1 to 4: "CC" and the number select the caption service with that number, and "TXT"
-- and "TEXT" with the number select the text service with that number.
pub caption_and_text_select :
    (n : ℕ)
    → n < 4
    → (is_analog (1000 + n) (selected (parse_track (codes "CC" ++ decimal (n + 1))))
        && is_analog (1004 + n) (selected (parse_track (codes "TXT" ++ decimal (n + 1))))
        && is_analog (1004 + n) (selected (parse_track (codes "TEXT" ++ decimal (n + 1)))))
      ≡ true
caption_and_text_select n h =
    holds_below→holds 4
      (λ n.
        is_analog (1000 + n) (selected (parse_track (codes "CC" ++ decimal (n + 1))))
        && is_analog (1004 + n) (selected (parse_track (codes "TXT" ++ decimal (n + 1))))
        && is_analog (1004 + n) (selected (parse_track (codes "TEXT" ++ decimal (n + 1)))))
      n h
      (unfold holds_below in
        unfold parse_track in
        unfold char_number in unfold starts_with in unfold select in unfold override in refl)
