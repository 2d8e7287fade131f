-- ===== src/Captions/Attributes.antt =====
-- The attributes of closed captions and the options that ask for them, one by one: the description that
-- `SetStyle` is held against. The names and the numbers are those of the constants GSW_CC_ATTRIB_ of
-- closedcaptions/subtec/SubtecConnector.h, the options those of the comment above the code of `SetStyle`.
use middleware_player_interf.Common.{ℕ, ◌≡◌, ◌<◌, refl, Option, none, some, arith}
use middleware_player_interf.Common.Bytes.{codes}
use middleware_player_interf.Captions.{Text, Json}
use middleware_player_interf.Captions.Tables.{
  get_color, get_text_style, get_edge_type, get_font_style, get_font_size, get_opacity,
}
use middleware_player_interf.Captions.Styling.{style_blocks}
use middleware_player_interf.Captions.Masks.{known, chosen}
use Prim.Native.String.{String}

pub data Attribute : Type 0 where
  font_color background_color font_opacity background_opacity : Attribute
  font_style font_size font_italic font_underline : Attribute
  border_type border_color win_color win_opacity edge_type edge_color : Attribute

-- The constant of the attribute is 2 to this number.
abbrev pub number : Attribute → ℕ
number font_color = 0
number background_color = 1
number font_opacity = 2
number background_opacity = 3
number font_style = 4
number font_size = 5
number font_italic = 6
number font_underline = 7
number border_type = 8
number border_color = 9
number win_color = 10
number win_opacity = 11
number edge_type = 12
number edge_color = 13

abbrev pub option_name : Attribute → String
option_name font_color = "textForegroundColor"
option_name background_color = "textBackgroundColor"
option_name font_opacity = "textForegroundOpacity"
option_name background_opacity = "textBackgroundOpacity"
option_name font_style = "fontStyle"
option_name font_size = "penSize"
option_name font_italic = "penItalicized"
option_name font_underline = "penUnderline"
option_name border_type = "windowBorderEdgeStyle"
option_name border_color = "windowBorderEdgeColor"
option_name win_color = "windowFillColor"
option_name win_opacity = "windowFillOpacity"
option_name edge_type = "textEdgeStyle"
option_name edge_color = "textEdgeColor"

-- The table that a value of the option is looked up in.
abbrev pub value_in : Attribute → Text → Option ℕ
value_in font_color = get_color
value_in background_color = get_color
value_in font_opacity = get_opacity
value_in background_opacity = get_opacity
value_in font_style = get_font_style
value_in font_size = get_font_size
value_in font_italic = get_text_style
value_in font_underline = get_text_style
value_in border_type = get_edge_type
value_in border_color = get_color
value_in win_color = get_color
value_in win_opacity = get_opacity
value_in edge_type = get_edge_type
value_in edge_color = get_color

-- A value that is known, or the old one.
abbrev pub or_old : Option ℕ → ℕ → ℕ
or_old none old = old
or_old (some v) old = v

abbrev pub asked_by : Option Text → Attribute → ℕ → ℕ
asked_by none a old = old
asked_by (some text) a old = or_old (value_in a text) old

-- What a JSON object asks of an attribute.
abbrev pub asked : Json → Attribute → ℕ → ℕ
asked json a old = asked_by (json (codes (option_name a))) a old

pub number-lt : (a : Attribute) → number a < 14
number-lt font_color = omega arith
number-lt background_color = omega arith
number-lt font_opacity = omega arith
number-lt background_opacity = omega arith
number-lt font_style = omega arith
number-lt font_size = omega arith
number-lt font_italic = omega arith
number-lt font_underline = omega arith
number-lt border_type = omega arith
number-lt border_color = omega arith
number-lt win_color = omega arith
number-lt win_opacity = omega arith
number-lt edge_type = omega arith
number-lt edge_color = omega arith

chosen-value : (o : Option ℕ) (v : ℕ) → chosen (some o) v ≡ or_old o v
chosen-value none v = refl
chosen-value (some w) v = refl

chosen-asked :
    (o : Option Text) (a : Attribute) (v : ℕ)
    → chosen (elim o [ none ↦ none | some text ↦ some (value_in a text) ]) v ≡ asked_by o a v
chosen-asked none a v = refl
chosen-asked (some text) a v = chosen-value (value_in a text) v

-- The blocks of `SetStyle` have for each attribute what is asked of it.
pub known-asked :
    (json : Json) (a : Attribute) (v : ℕ) → known (style_blocks json) (number a) v ≡ asked json a v
known-asked json font_color v = chosen-asked (json (codes "textForegroundColor")) font_color v
known-asked json background_color v =
    chosen-asked (json (codes "textBackgroundColor")) background_color v
known-asked json font_opacity v = chosen-asked (json (codes "textForegroundOpacity")) font_opacity v
known-asked json background_opacity v =
    chosen-asked (json (codes "textBackgroundOpacity")) background_opacity v
known-asked json font_style v = chosen-asked (json (codes "fontStyle")) font_style v
known-asked json font_size v = chosen-asked (json (codes "penSize")) font_size v
known-asked json font_italic v = chosen-asked (json (codes "penItalicized")) font_italic v
known-asked json font_underline v = chosen-asked (json (codes "penUnderline")) font_underline v
known-asked json border_type v = chosen-asked (json (codes "windowBorderEdgeStyle")) border_type v
known-asked json border_color v = chosen-asked (json (codes "windowBorderEdgeColor")) border_color v
known-asked json win_color v = chosen-asked (json (codes "windowFillColor")) win_color v
known-asked json win_opacity v = chosen-asked (json (codes "windowFillOpacity")) win_opacity v
known-asked json edge_type v = chosen-asked (json (codes "textEdgeStyle")) edge_type v
known-asked json edge_color v = chosen-asked (json (codes "textEdgeColor")) edge_color v
