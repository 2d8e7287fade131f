-- ===== src/Captions/Rendering.antt =====
-- Whether the captions are rendered, and whether they should be.
use middleware_player_interf.Common.{
  ℕ, ◌≡◌, refl, ap, ◌∙◌, Bool, true, false, ◌&&◌, ◌||◌, not, List, [], ◌∷◌, Option, none, some,
  Bool-cases, inl, inr, ◌⊎◌, ◌==◌, arith,
}
use middleware_player_interf.Common.Replay.{replay, replay-append}
use middleware_player_interf.Subtec.Channel.{send_mute, send_unmute, send_active_type}
use middleware_player_interf.Captions.{
  Text, Json, Replies, CcManager, Call, vlhal_cc_register, media_close_caption_start, init_comms,
  command, call, init_hal, init_packet_sender, cc_show, cc_hide, cc_set_digital_channel,
  cc_set_analog_channel,
}
use middleware_player_interf.Captions.Styling.{
  Styles, send_cc_attributes, send_styles, style_parsed, style_enabled, set_style_now,
}
use middleware_player_interf.Captions.Tracks.{
  CcFormat, Selection, digital, analog, ignored, parse_track, override, select,
}
use middleware_player_interf.Captions.Manager.{
  ensure_hal_initialized, ensure_renderer_comms_initialized, ensure_initialized, start, stop,
  start_or_stop, start_if, set_style, ensure_renderer_state_consistency, set_digital_channel,
  set_analog_channel, set_selection, set_parsed, set_track,
}

-- The renderer as it hears the commands: an unmute shows the captions, a mute hides them.
unfoldable pub rendered_after : Call → Bool → Bool
rendered_after (command send_unmute) b = true
rendered_after (command send_mute) b = false
rendered_after _ b = b

abbrev pub is_rendered : CcManager → Bool
is_rendered m = replay rendered_after m.calls false

abbrev pub flags : CcManager → Bool × (Bool × Bool)
flags m = (m.enabled, (m.trickplay_started, m.parental_ctrl_locked))

-- What the flags ask for.
abbrev pub wanted : Bool × (Bool × Bool) → Bool
wanted (enabled, (trickplay, locked)) = enabled && (not trickplay && not locked)

-- The flags are as they were, and the captions are shown or not.
abbrev pub Shows : Bool → CcManager → CcManager → Type 0
Shows b m m' = (is_rendered m' ≡ b) × (flags m' ≡ flags m)

abbrev pub IsQuiet : CcManager → CcManager → Type 0
IsQuiet m m' = Shows (is_rendered m) m m'

Shows-after :
    (b : Bool) (m m' m'' : CcManager) → flags m' ≡ flags m → Shows b m' m'' → Shows b m m''
Shows-after b m m' m'' e (f, g) = (f, g ∙ e)

IsQuiet-trans : (m m' m'' : CcManager) → IsQuiet m m' → IsQuiet m' m'' → IsQuiet m m''
IsQuiet-trans m m' m'' (a, b) (c, d) = (c ∙ a, d ∙ b)

pub call-Shows : (c : Call) (m : CcManager) → Shows (rendered_after c (is_rendered m)) m (call c m)
call-Shows c m = (replay-append rendered_after m.calls c false, refl)

init_hal-IsQuiet : (r : Replies) (m : CcManager) → IsQuiet m (init_hal r m).0
unfolding init_hal
init_hal-IsQuiet r m =
    let m' : CcManager = call vlhal_cc_register m in
    let q : IsQuiet m m' = unfold rendered_after in call-Shows vlhal_cc_register m in
    elim (Bool-cases (r.register_result == 0)) [
      | inl e ↦ simp e (
          IsQuiet-trans m m' (call (media_close_caption_start m.cc_handle) m') q
            (unfold rendered_after in call-Shows (media_close_caption_start m.cc_handle) m'))
      | inr e ↦ simp e q
    ]

ensure_hal_initialized-IsQuiet :
    (r : Replies) (m : CcManager) → IsQuiet m (ensure_hal_initialized r m)
unfolding ensure_hal_initialized
ensure_hal_initialized-IsQuiet r m =
    let (a, b) = init_hal-IsQuiet r m in
    elim (Bool-cases (not m.hal_initialized || m.handle_updated)) [
      | inr e ↦ simp e (refl, refl)
      | inl e ↦ elim (Bool-cases (init_hal r m).1) [
        | inl f ↦ simp (e, f) (a, b)
        | inr f ↦ simp (e, f) (a, b)
      ]
    ]

comms-IsQuiet : (r : Replies) (m : CcManager) → IsQuiet m (ensure_renderer_comms_initialized r m)
unfolding ensure_renderer_comms_initialized init_packet_sender
comms-IsQuiet r m =
    let (a, b) = call-Shows init_comms m in
    unfold rendered_after in
    elim (Bool-cases m.renderer_initialized) [
      | inl e ↦ simp e (refl, refl)
      | inr e ↦ elim (Bool-cases r.comms_result) [
        | inl f ↦ simp (e, f) (a, b)
        | inr f ↦ simp (e, f) (a, b)
      ]
    ]

pub start-Shows : (r : Replies) (m : CcManager) → Shows true m (start r m)
unfolding start ensure_initialized cc_show
start-Shows r m =
    let h : CcManager = ensure_hal_initialized r m in
    let c : CcManager = ensure_renderer_comms_initialized r h in
    let (a, b) = IsQuiet-trans m h c (ensure_hal_initialized-IsQuiet r m) (comms-IsQuiet r h) in
    Shows-after true m c (start r m) b (unfold rendered_after in call-Shows (command send_unmute) c)

pub stop-Shows : (r : Replies) (m : CcManager) → Shows false m (stop r m)
unfolding stop cc_hide
stop-Shows r m =
    let c : CcManager = ensure_renderer_comms_initialized r m in
    Shows-after false m c (stop r m) (comms-IsQuiet r m).1
      (unfold rendered_after in call-Shows (command send_mute) c)

pub start_or_stop-Shows : (r : Replies) (b : Bool) (m : CcManager) → Shows b m (start_or_stop r b m)
unfolding start_or_stop
start_or_stop-Shows r true m = start-Shows r m
start_or_stop-Shows r false m = stop-Shows r m

send_cc_attributes-IsQuiet :
    (a : List ℕ) (t c : ℕ) (m : CcManager) → IsQuiet m (send_cc_attributes a t c m)
unfolding send_cc_attributes
send_cc_attributes-IsQuiet a t c m =
    unfold rendered_after in (replay-append rendered_after m.calls _ false, refl)

send_styles-IsQuiet : (s : Styles) (m : CcManager) → IsQuiet m (send_styles s m)
unfolding send_styles
send_styles-IsQuiet s m =
    let m' : CcManager = send_cc_attributes s.values s.mask 1 m in
    elim (Bool-cases (s.mask == 0)) [
      | inl e ↦ simp e (refl, refl)
      | inr e ↦ simp e (
          IsQuiet-trans m m' (send_cc_attributes s.values s.mask 0 m')
            (send_cc_attributes-IsQuiet s.values s.mask 1 m)
            (send_cc_attributes-IsQuiet s.values s.mask 0 m'))
    ]

style_parsed-IsQuiet :
    (t : Text) (j : Option Json) (m : CcManager) → IsQuiet m (style_parsed t j m).0
unfolding style_parsed
style_parsed-IsQuiet t none m = (refl, refl)
style_parsed-IsQuiet t (some j) m = send_styles-IsQuiet _ (record m { options = t })

style_enabled-IsQuiet :
    (r : Replies) (t : Text) (b : Bool) (m : CcManager) → IsQuiet m (style_enabled r t b m).0
unfolding style_enabled
style_enabled-IsQuiet r t false m = (refl, refl)
style_enabled-IsQuiet r [] true m = (refl, refl)
style_enabled-IsQuiet r (c ∷ t) true m = style_parsed-IsQuiet (c ∷ t) (r.parse (c ∷ t)) m

pub set_style-IsQuiet : (r : Replies) (t : Text) (m : CcManager) → IsQuiet m (set_style r t m).0
unfolding set_style set_style_now
set_style-IsQuiet r t m =
    let c : CcManager = ensure_renderer_comms_initialized r m in
    IsQuiet-trans m c (set_style_now r t c).0 (comms-IsQuiet r m)
      (style_enabled-IsQuiet r t c.enabled c)

consistency-Shows :
    (r : Replies) (m : CcManager) → Shows m.enabled m (ensure_renderer_state_consistency r m)
unfolding ensure_renderer_state_consistency
consistency-Shows r m =
    let s : CcManager = start_or_stop r m.enabled m in
    let (a, b) = start_or_stop-Shows r m.enabled m in
    let (c, d) = set_style-IsQuiet r m.options s in (c ∙ a, d ∙ b)

set_selection-Shows :
    (r : Replies) (s : Selection) (m : CcManager)
    → IsQuiet m (set_selection r s m).0 ⊎ Shows m.enabled m (set_selection r s m).0
unfolding set_selection set_digital_channel set_analog_channel cc_set_digital_channel
    cc_set_analog_channel
set_selection-Shows r (digital n) m =
    inr (consistency-Shows r (call (command (send_active_type 1 n)) m))
set_selection-Shows r (analog n) m =
    inr (consistency-Shows r (call (command (send_active_type 0 n)) m))
set_selection-Shows r ignored m = inl (refl, refl)

set_parsed-Shows :
    (r : Replies) (f : CcFormat) (p : Option (CcFormat × ℕ)) (m : CcManager)
    → IsQuiet m (set_parsed r f p m).0 ⊎ Shows m.enabled m (set_parsed r f p m).0
unfolding set_parsed
set_parsed-Shows r f none m = inl (refl, refl)
set_parsed-Shows r f (some p) m = set_selection-Shows r (select (override f p)) m

-- A track leaves the captions as they are, or shows them where they are enabled.
pub set_track-Shows :
    (r : Replies) (t : Text) (f : CcFormat) (m : CcManager)
    → IsQuiet m (set_track r t f m).0 ⊎ Shows m.enabled m (set_track r t f m).0
unfolding set_track
set_track-Shows r t f m =
    let c : CcManager = ensure_renderer_comms_initialized r m in
    let (a, b) = comms-IsQuiet r m in
    elim (set_parsed-Shows r f (parse_track t) (record c { track = t })) [
      | inl (d, e) ↦ inl (d ∙ a, e ∙ b)
      | inr (d, e) ↦ inr (d ∙ ap (λ x. x.0) b, e ∙ b)
    ]

pub start_if-Shows :
    (r : Replies) (b : Bool) (m : CcManager)
    → m.enabled ≡ b
    → is_rendered m ≡ wanted (flags m)
    → Shows b m (start_if r b m)
unfolding start_if
start_if-Shows r true m e o = start-Shows r m
start_if-Shows r false m e o = (o ∙ (ground arith), refl)
