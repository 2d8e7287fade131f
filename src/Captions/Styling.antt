-- ===== src/Captions/Styling.antt =====
-- closedcaptions/: `SetStyle`, and `sendCCSetAttribute` of the data controller.
use middleware_player_interf.Common.{
  ℕ, suc, Bool, true, false, List, [], ◌∷◌, Option, none, some, bit_or, ◌==◌, if◌then◌else◌, set,
}
use middleware_player_interf.Common.Bits.{◌<<<◌, bit_at}
use middleware_player_interf.Common.Bytes.{codes}
use middleware_player_interf.Subtec.Channel.{send_cc_set_attribute}
use middleware_player_interf.Captions.{Text, Json, Replies, CcManager, call, command}
use middleware_player_interf.Captions.Tables.{
  get_color, get_text_style, get_edge_type, get_font_style, get_font_size, get_opacity,
}
use Prim.Native.String.{String}

-- What an option is, if it is there: a value, or one that is not supported.
abbrev pub option_of : Json → String → (Text → Option ℕ) → Option (Option ℕ)
option_of json name get = elim (json (codes name)) [ none ↦ none | some text ↦ some (get text) ]

-- The number of the attribute, the number of the bit that is set in the mask, and the option.
abbrev pub Block : Type 0
Block = ℕ × (ℕ × Option (Option ℕ))

abbrev pub style_blocks : Json → List Block
style_blocks json =
    (4, (4, option_of json "fontStyle" get_font_style))
    ∷ (13, (13, option_of json "textEdgeColor" get_color))
    ∷ (12, (12, option_of json "textEdgeStyle" get_edge_type))
    ∷ (0, (0, option_of json "textForegroundColor" get_color))
    ∷ (2, (2, option_of json "textForegroundOpacity" get_opacity))
    ∷ (1, (1, option_of json "textBackgroundColor" get_color))
    ∷ (3, (3, option_of json "textBackgroundOpacity" get_opacity))
    ∷ (6, (6, option_of json "penItalicized" get_text_style))
    ∷ (5, (5, option_of json "penSize" get_font_size))
    ∷ (7, (7, option_of json "penUnderline" get_text_style))
    ∷ (9, (9, option_of json "windowBorderEdgeColor" get_color))
    ∷ (8, (8, option_of json "windowBorderEdgeStyle" get_edge_type))
    ∷ (10, (10, option_of json "windowFillColor" get_color))
    ∷ (11, (11, option_of json "windowFillOpacity" get_opacity))
    ∷ []

-- The attributes and the mask that the blocks leave; the bit is set whether or not the value is known.
pub record Styles : Type 0 where
  pub values : List ℕ
  pub mask : ℕ

abbrev pub write_known : List ℕ → ℕ → Option ℕ → List ℕ
write_known values p none = values
write_known values p (some v) = set values p v

unfoldable pub apply_block : ℕ → ℕ → Option (Option ℕ) → Styles → Styles
apply_block p b none s = s
apply_block p b (some v) s = record {
  values = write_known s.values p v;
  mask = bit_or s.mask (1 <<< b);
}

unfoldable pub apply_blocks : List Block → Styles → Styles
apply_blocks [] s = s
apply_blocks ((p, (b, v)) ∷ bs) s = apply_blocks bs (apply_block p b v s)

-- The loop of `sendCCSetAttribute` over the masks from index `i` on: the attributes of the controller, and
-- the values of the packet. The test is that of `type & masks[i]`.
unfoldable pub take_masked : ℕ → ℕ → List ℕ → List ℕ → List ℕ × List ℕ
take_masked type i (old ∷ olds) (new ∷ news) =
    let rest = take_masked type (suc i) olds news in
    if bit_at i type == 1 then (new ∷ rest.0, new ∷ rest.1) else (old ∷ rest.0, 0 ∷ rest.1)
take_masked type i olds news = (olds, [])

unfoldable pub send_cc_attributes : List ℕ → ℕ → ℕ → CcManager → CcManager
send_cc_attributes attribs type cc_type m =
    let taken = take_masked type 0 m.current_attributes attribs in
    call (command (send_cc_set_attribute cc_type type taken.1))
      (record m { current_attributes = taken.0 })

-- The digital captions are type 1, the analog ones type 0.
unfoldable pub send_styles : Styles → CcManager → CcManager
send_styles s m =
    if s.mask == 0
    then m
    else send_cc_attributes s.values s.mask 0 (send_cc_attributes s.values s.mask 1 m)

unfoldable pub style_parsed : Text → Option Json → CcManager → CcManager × Bool
style_parsed options none m = (m, false)
style_parsed options (some json) m = (
  send_styles
      (apply_blocks (style_blocks json) (record { values = m.current_attributes; mask = 0 }))
      (record m { options = options }),
  true,
)

-- `SetStyle` behind the set-up of the sender, and whether it returns 0: nothing where the captions are not
-- enabled, or where there are no options.
unfoldable pub style_enabled : Replies → Text → Bool → CcManager → CcManager × Bool
style_enabled r options false m = (m, false)
style_enabled r [] true m = (m, false)
style_enabled r (c ∷ options) true m = style_parsed (c ∷ options) (r.parse (c ∷ options)) m

unfoldable pub set_style_now : Replies → Text → CcManager → CcManager × Bool
set_style_now r options m = style_enabled r options m.enabled m
