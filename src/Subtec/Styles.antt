-- ===== src/Subtec/Styles.antt =====
-- subtec/subtecparser/TextStyleAttributes.cpp and its header: the attributes of closed captions out of a
-- JSON text. What cJSON makes of the text is an argument: the strings by name, or none where it does not
-- parse. A negative value is its 32-bit pattern.
pub mod Mask
pub mod Described
use middleware_player_interf.Common.{
  ℕ, zero, suc, ◌+◌, Bool, true, false, ◌&&◌, bit_or, List, [], ◌∷◌, map, Option, none, some, set,
  leb, ◌==◌, if◌then◌else◌,
}
use middleware_player_interf.Common.Bits.{◌<<<◌}
use middleware_player_interf.Common.Bytes.{codes, same_text}
use Prim.Native.String.{String}

-- `::tolower` on a character of the C locale.
unfoldable pub to_lower : ℕ → ℕ
to_lower c = if leb b'A' c && leb c b'Z' then c + 32 else c

-- The chains of comparisons, and the search in `ColorMapTable`.
unfoldable pub find_text : List (String × ℕ) → List ℕ → Option ℕ
find_text [] text = none
find_text ((name, value) ∷ table) text =
    let rest = find_text table text in if same_text text (codes name) then some value else rest

-- An empty input fails, as does one that is not in the table.
abbrev from_table : List (String × ℕ) → List ℕ → Option ℕ
from_table table [] = none
from_table table (c ∷ text) = find_text table (map to_lower (c ∷ text))

abbrev embedded : ℕ
embedded = 0xFFFFFFFF

unfoldable pub get_font_size : List ℕ → Option ℕ
unfolding find_text
get_font_size input =
    from_table
      (("small", 0)
        ∷ ("standard", 1)
        ∷ ("medium", 1)
        ∷ ("large", 2)
        ∷ ("extra_large", 3)
        ∷ ("auto", embedded)
        ∷ [])
      input

unfoldable pub get_font_style : List ℕ → Option ℕ
unfolding find_text
get_font_style input =
    from_table
      (("default", 0)
        ∷ ("monospaced_serif", 1)
        ∷ ("monospaced serif", 1)
        ∷ ("proportional_serif", 2)
        ∷ ("proportional serif", 2)
        ∷ ("monospaced_sanserif", 3)
        ∷ ("monospaced sans serif", 3)
        ∷ ("proportional_sanserif", 4)
        ∷ ("proportional sans serif", 4)
        ∷ ("casual", 5)
        ∷ ("cursive", 6)
        ∷ ("smallcaps", 7)
        ∷ ("small capital", 7)
        ∷ ("auto", embedded)
        ∷ [])
      input

unfoldable pub get_color : List ℕ → Option ℕ
unfolding find_text
get_color input =
    from_table
      (("black", 0x00000000)
        ∷ ("white", 0x00FFFFFF)
        ∷ ("red", 0x00FF0000)
        ∷ ("green", 0x0000FF00)
        ∷ ("blue", 0x000000FF)
        ∷ ("yellow", 0x00FFFF00)
        ∷ ("magenta", 0x00FF00FF)
        ∷ ("cyan", 0x0000FFFF)
        ∷ ("auto", 0xFF000000)
        ∷ [])
      input

unfoldable pub get_edge_type : List ℕ → Option ℕ
unfolding find_text
get_edge_type input =
    from_table
      (("none", 0)
        ∷ ("raised", 1)
        ∷ ("depressed", 2)
        ∷ ("uniform", 3)
        ∷ ("drop_shadow_left", 4)
        ∷ ("left drop shadow", 4)
        ∷ ("drop_shadow_right", 5)
        ∷ ("right drop shadow", 5)
        ∷ ("auto", embedded)
        ∷ [])
      input

unfoldable pub get_opacity : List ℕ → Option ℕ
unfolding find_text
get_opacity input =
    from_table
      (("solid", 0)
        ∷ ("flash", 1)
        ∷ ("translucent", 2)
        ∷ ("transparent", 3)
        ∷ ("auto", embedded)
        ∷ [])
      input

-- The strings of a JSON object, by name.
abbrev pub Json : Type 0
Json = List ℕ → Option (List ℕ)

-- A name that is there, with a value that is understood.
abbrev pub lookup : Json → String → (List ℕ → Option ℕ) → Option ℕ
lookup json name get = elim (json (codes name)) [ none ↦ none | some text ↦ get text ]

pub record Attributes : Type 0 where
  pub values : List ℕ
  pub mask : ℕ

-- One block of `getAttributes`: the value and its bit of the mask.
unfoldable pub assign : ℕ → ℕ → Option ℕ → Attributes → Attributes
assign position bit none s = s
assign position bit (some v) s = record {
  values = set s.values position v;
  mask = bit_or s.mask (1 <<< bit);
}

-- The position in the array, the number of the bit in the mask, and what the block finds.
abbrev pub Block : Type 0
Block = ℕ × (ℕ × Option ℕ)

abbrev pub blocks : Json → List Block
blocks json =
    (5, (5, lookup json "penSize" get_font_size))
    ∷ (4, (4, lookup json "fontStyle" get_font_style))
    ∷ (0, (0, lookup json "textForegroundColor" get_color))
    ∷ (1, (1, lookup json "textBackgroundColor" get_color))
    ∷ (12, (12, lookup json "textEdgeStyle" get_edge_type))
    ∷ (13, (13, lookup json "textEdgeColor" get_color))
    ∷ (3, (3, lookup json "textBackgroundOpacity" get_opacity))
    ∷ (2, (2, lookup json "textForegroundOpacity" get_opacity))
    ∷ (10, (10, lookup json "windowFillColor" get_color))
    ∷ (11, (11, lookup json "windowFillOpacity" get_opacity))
    ∷ []

unfoldable pub assign_all : List Block → Attributes → Attributes
unfolding assign
assign_all [] s = s
assign_all ((position, (bit, v)) ∷ bs) s = assign_all bs (assign position bit v s)

-- `getAttributes`: whether it returns 0, the values and the mask. The parser gets a text that is not empty.
unfoldable pub get_attributes : (List ℕ → Option Json) → List ℕ → List ℕ → Bool × Attributes
unfolding assign_all get_font_size get_font_style get_color get_edge_type get_opacity
get_attributes parse [] values = (false, record { values = values; mask = 0 })
get_attributes parse (c ∷ options) values = elim (parse (c ∷ options)) [
  | none ↦ (false, record { values = values; mask = 0 })
  | some json ↦ (true, assign_all (blocks json) (record { values = values; mask = 0 }))
]
