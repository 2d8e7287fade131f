-- ===== src/Subtec/Styles/Described.antt =====
-- The attributes that `getAttributes` is asked for, one by one: the description that it is held against.
-- The names and the positions are those of the enumeration in subtec/subtecparser/TextStyleAttributes.h.
use middleware_player_interf.Common.{
  ℕ, ◌≡◌, ◌<◌, refl, true, List, ◌∷◌, Option, none, some, get_elem?, length, arith, All,
}
use middleware_player_interf.Common.Bits.{bit_at, bit_at-zero}
use middleware_player_interf.Subtec.Styles.{
  Json, lookup, Attributes, blocks, assign_all, get_attributes, get_color, get_opacity,
  get_font_style, get_font_size, get_edge_type,
}
use middleware_player_interf.Subtec.Styles.Mask.{
  Leaves, IsPaired, latest, or_found, assign_all-Leaves,
}
use mathlib.Core.Path.{subst}

pub data Attribute : Type 0 where
  font_color background_color font_opacity background_opacity : Attribute
  font_style font_size font_italic font_underline : Attribute
  border_type border_color win_color win_opacity edge_type edge_color : Attribute

abbrev pub position : Attribute → ℕ
position font_color = 0
position background_color = 1
position font_opacity = 2
position background_opacity = 3
position font_style = 4
position font_size = 5
position font_italic = 6
position font_underline = 7
position border_type = 8
position border_color = 9
position win_color = 10
position win_opacity = 11
position edge_type = 12
position edge_color = 13

-- The value that a JSON object has for an attribute; there are no options for four of them.
abbrev pub wanted : Json → Attribute → Option ℕ
wanted json font_color = lookup json "textForegroundColor" get_color
wanted json background_color = lookup json "textBackgroundColor" get_color
wanted json font_opacity = lookup json "textForegroundOpacity" get_opacity
wanted json background_opacity = lookup json "textBackgroundOpacity" get_opacity
wanted json font_style = lookup json "fontStyle" get_font_style
wanted json font_size = lookup json "penSize" get_font_size
wanted json font_italic = none
wanted json font_underline = none
wanted json border_type = none
wanted json border_color = none
wanted json win_color = lookup json "windowFillColor" get_color
wanted json win_opacity = lookup json "windowFillOpacity" get_opacity
wanted json edge_type = lookup json "textEdgeStyle" get_edge_type
wanted json edge_color = lookup json "textEdgeColor" get_color

or_found-none : (o : Option ℕ) → or_found o none ≡ o
or_found-none none = refl
or_found-none (some v) = refl

latest-wanted :
    (json : Json) (a : Attribute) → latest (blocks json) (position a) none ≡ wanted json a
latest-wanted json font_color = or_found-none (lookup json "textForegroundColor" get_color)
latest-wanted json background_color = or_found-none (lookup json "textBackgroundColor" get_color)
latest-wanted json font_opacity = or_found-none (lookup json "textForegroundOpacity" get_opacity)
latest-wanted json background_opacity =
    or_found-none (lookup json "textBackgroundOpacity" get_opacity)
latest-wanted json font_style = or_found-none (lookup json "fontStyle" get_font_style)
latest-wanted json font_size = or_found-none (lookup json "penSize" get_font_size)
latest-wanted json font_italic = refl
latest-wanted json font_underline = refl
latest-wanted json border_type = refl
latest-wanted json border_color = refl
latest-wanted json win_color = or_found-none (lookup json "windowFillColor" get_color)
latest-wanted json win_opacity = or_found-none (lookup json "windowFillOpacity" get_opacity)
latest-wanted json edge_type = or_found-none (lookup json "textEdgeStyle" get_edge_type)
latest-wanted json edge_color = or_found-none (lookup json "textEdgeColor" get_color)

position-lt : (a : Attribute) → position a < 14
position-lt font_color = omega arith
position-lt background_color = omega arith
position-lt font_opacity = omega arith
position-lt background_opacity = omega arith
position-lt font_style = omega arith
position-lt font_size = omega arith
position-lt font_italic = omega arith
position-lt font_underline = omega arith
position-lt border_type = omega arith
position-lt border_color = omega arith
position-lt win_color = omega arith
position-lt win_opacity = omega arith
position-lt edge_type = omega arith
position-lt edge_color = omega arith

blocks-All : (json : Json) → All IsPaired (blocks json)
blocks-All json = (refl, (refl, (refl, (refl, (refl, (refl, (refl, (refl, (refl, (refl, tt))))))))))

-- Where the options parse, each attribute of the array whose own option has a value that is understood gets
-- that value, and its bit of the mask is set; each other one stays, and its bit is not set.
pub get_attributes-Leaves :
    (parse : List ℕ → Option Json) (c : ℕ) (options values : List ℕ) (json : Json) (a : Attribute)
    → parse (c ∷ options) ≡ some json
    → length values ≡ 14
    → ((get_attributes parse (c ∷ options) values).0 ≡ true)
      × Leaves
          (wanted json a)
          (get_elem? values (position a))
          0
          (get_elem? (get_attributes parse (c ∷ options) values).1.values (position a))
          (bit_at (position a) (get_attributes parse (c ∷ options) values).1.mask)
unfolding get_attributes
get_attributes-Leaves parse c options values json a e h =
    let start : Attributes = record { values = values; mask = 0 } in
    let k : ℕ = position a in
    let found =
      assign_all-Leaves (blocks json) start k none (get_elem? values k) 0 (blocks-All json)
        (omega (arith, position-lt a)) (refl, bit_at-zero k) in
    rw (e, get_attributes)
      (
        refl,
        subst
            (λ r.
              Leaves r (get_elem? values k) 0 (get_elem? (assign_all (blocks json) start).values k)
                (bit_at k (assign_all (blocks json) start).mask))
            (latest-wanted json a) found,
      )
