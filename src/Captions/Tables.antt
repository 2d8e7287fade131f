-- ===== src/Captions/Tables.antt =====
-- closedcaptions/PlayerCCManager.cpp: the values of the style options. `none`: the output is left as it
-- was, for an empty text and for one that is not supported. A negative value is its 32-bit pattern.
use middleware_player_interf.Common.{ℕ, List, [], ◌∷◌, map, Option, none, some, if◌then◌else◌}
use middleware_player_interf.Common.Bytes.{codes, same_text}
use middleware_player_interf.Subtec.Styles.{to_lower}
use middleware_player_interf.Url.{starts_with}
use middleware_player_interf.Captions.{Text, embedded, embedded_color}
use Prim.Native.String.{String}

-- `strncasecmp` with the length of the name: the text begins with it.
unfoldable pub find_prefix : List (String × ℕ) → Text → Option ℕ
find_prefix [] text = none
find_prefix ((name, value) ∷ table) text =
    let rest = find_prefix table text in
    if starts_with (map to_lower text) (map to_lower (codes name)) then some value else rest

-- `strncasecmp` with a length above that of all names: the text is the name.
unfoldable pub find_name : List (String × ℕ) → Text → Option ℕ
find_name [] text = none
find_name ((name, value) ∷ table) text =
    let rest = find_name table text in
    if same_text (map to_lower text) (map to_lower (codes name)) then some value else rest

abbrev if_given : (Text → Option ℕ) → Text → Option ℕ
if_given find [] = none
if_given find (c ∷ text) = find (c ∷ text)

-- `ccGetCapability` and `getColor`: `CCSupportedColors_strings` with `CCSupportedColors`.
abbrev pub supported_colors : List (String × ℕ)
supported_colors =
    ("BLACK", 0x00000000)
    ∷ ("WHITE", 0x00FFFFFF)
    ∷ ("RED", 0x00FF0000)
    ∷ ("GREEN", 0x0000FF00)
    ∷ ("BLUE", 0x000000FF)
    ∷ ("YELLOW", 0x00FFFF00)
    ∷ ("MAGENTA", 0x00FF00FF)
    ∷ ("CYAN", 0x0000FFFF)
    ∷ ("AUTO", embedded_color)
    ∷ []

unfoldable pub get_color : Text → Option ℕ
get_color input = if_given (find_name supported_colors) input

unfoldable pub get_text_style : Text → Option ℕ
get_text_style input =
    if_given (find_prefix (("false", 0) ∷ ("true", 1) ∷ ("auto", embedded) ∷ [])) input

unfoldable pub get_edge_type : Text → Option ℕ
get_edge_type input =
    if_given
      (find_prefix (
        ("none", 0)
        ∷ ("raised", 1)
        ∷ ("depressed", 2)
        ∷ ("uniform", 3)
        ∷ ("drop_shadow_left", 4)
        ∷ ("Left drop shadow", 4)
        ∷ ("drop_shadow_right", 5)
        ∷ ("Right drop shadow", 5)
        ∷ ("auto", embedded)
        ∷ []))
      input

-- The number is that of the name in the table of CCDataController.cpp, which has 0 for the embedded style.
unfoldable pub get_font_style : Text → Option ℕ
get_font_style input =
    if_given
      (find_prefix (
        ("default", 0)
        ∷ ("monospaced_serif", 1)
        ∷ ("Monospaced serif", 1)
        ∷ ("proportional_serif", 2)
        ∷ ("Proportional serif", 2)
        ∷ ("monospaced_sanserif", 3)
        ∷ ("Monospaced sans serif", 3)
        ∷ ("proportional_sanserif", 4)
        ∷ ("Proportional sans serif", 4)
        ∷ ("casual", 5)
        ∷ ("cursive", 6)
        ∷ ("smallcaps", 7)
        ∷ ("small capital", 7)
        ∷ ("auto", 0)
        ∷ []))
      input

unfoldable pub get_font_size : Text → Option ℕ
get_font_size input =
    if_given
      (find_prefix (
        ("small", 0)
        ∷ ("standard", 1)
        ∷ ("medium", 1)
        ∷ ("large", 2)
        ∷ ("extra_large", 3)
        ∷ ("auto", embedded)
        ∷ []))
      input

unfoldable pub get_opacity : Text → Option ℕ
get_opacity input =
    if_given
      (find_prefix (
        ("solid", 0)
        ∷ ("flash", 1)
        ∷ ("translucent", 2)
        ∷ ("transparent", 3)
        ∷ ("auto", embedded)
        ∷ []))
      input
