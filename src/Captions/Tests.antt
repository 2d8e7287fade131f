-- ===== src/Captions/Tests.antt =====
-- The theorems on the closed captions at concrete calls.
use middleware_player_interf.Common.{
  ◌+◌, ◌^◌, ◌<◌, ◌≡◌, ◌≢◌, refl, true, false, List, [], ◌∷◌, none, some, arith, length, get_or, All,
}
use middleware_player_interf.Common.Bytes.{codes}
use middleware_player_interf.Common.Replay.{replay}
use middleware_player_interf.Subtec.Styles.{to_lower}
use middleware_player_interf.Url.{starts_with}
use middleware_player_interf.Captions.{
  Json, Replies, CcManager, blank_manager, init_hal, init_packet_sender, cc_show, cc_hide,
  create_default_attributes, cc_set_analog_channel, reset_channel, close,
}
use middleware_player_interf.Captions.Tables.{
  find_prefix, find_name, get_color, get_font_style, get_font_size, get_opacity, get_edge_type,
  get_text_style,
}
use middleware_player_interf.Captions.Styling.{style_enabled, set_style_now}
use middleware_player_interf.Captions.Tracks.{
  format_608, format_708, format_default, skip_spaces, digits_value, stoul_digits, stoul_sign,
  stoul, char_number, parse_track, override, select,
}
use middleware_player_interf.Captions.Manager.{
  ensure_hal_initialized, ensure_renderer_comms_initialized, ensure_initialized, start, stop,
  start_or_stop, start_if, set_style, ensure_renderer_state_consistency, set_analog_channel,
  set_trickplay_status, set_parental_control_status, set_status, set_selection, set_parsed,
  set_track,
}
use middleware_player_interf.Captions.Users.{get_id, erase, release_all, release_erased, release}
use middleware_player_interf.Captions.Rendering.{rendered_after, is_rendered}
use middleware_player_interf.Captions.Obeying
use middleware_player_interf.Captions.Obeying.{status, trickplay, parental, perform_all}
use middleware_player_interf.Captions.Bounds.{IsChannel, select-IsChannel}
use middleware_player_interf.Captions.Ids
use middleware_player_interf.Captions.Ids.{IsGiven, get_id_is_fresh}
use middleware_player_interf.Captions.Attributes.{asked, font_size}
use middleware_player_interf.Captions.Styled.{set_style_attributes}

-- All options are "large".
abbrev large : Json
large name = some (codes "large")

abbrev replies : Replies
replies = record {
  register_result = 0;
  start_result = 0;
  comms_result = true;
  parse = λ t. some large;
}

-- The captions are enabled, and trick play starts and ends.
abbrev steps : List Obeying.Operation
steps = status replies true ∷ trickplay replies true ∷ trickplay replies false ∷ []

-- Trick play that ends under a parental lock shows the captions.
locked_is_shown :
    is_rendered (
      set_trickplay_status replies false (
        set_parental_control_status replies true
          (set_trickplay_status replies true (set_status replies true blank_manager))))
    ≡ true
unfolding set_trickplay_status set_parental_control_status set_status blank_manager start_or_stop
    start stop start_if ensure_initialized ensure_hal_initialized ensure_renderer_comms_initialized
    init_packet_sender init_hal cc_show cc_hide replay rendered_after
locked_is_shown = refl

-- So does a track that is set under the lock.
track_is_shown :
    is_rendered
      (set_track replies
        (codes "CC1")
        format_default
        (set_parental_control_status replies true (set_status replies true blank_manager))).0
    ≡ true
unfolding set_parental_control_status set_status blank_manager start_or_stop start stop
    ensure_initialized ensure_hal_initialized ensure_renderer_comms_initialized init_packet_sender
    init_hal cc_show cc_hide replay rendered_after set_track set_parsed set_selection
    set_analog_channel cc_set_analog_channel ensure_renderer_state_consistency set_style
    set_style_now style_enabled parse_track char_number starts_with override select
track_is_shown = refl

-- The last user that leaves during trick play clears it, and leaves the captions enabled and hidden.
left_is_hidden :
    let left : CcManager =
      release 1
        (set_trickplay_status replies true (set_status replies true (get_id blank_manager).0)) in
    (is_rendered left ≡ false) × (left.enabled ≡ true) × (left.trickplay_started ≡ false)
unfolding set_trickplay_status set_status blank_manager start_or_stop start stop ensure_initialized
    ensure_hal_initialized ensure_renderer_comms_initialized init_packet_sender init_hal cc_show
    cc_hide replay rendered_after get_id release release_erased release_all erase reset_channel
    close
left_is_hidden = (refl, refl, refl)

-- The number 7 is no number of a track, 12 is one; and "SERVICEx" throws.
seven_is_ignored : parse_track (codes "7") ≡ some (format_default, 0)
unfolding parse_track starts_with
seven_is_ignored = refl

twelve_is_taken : parse_track (codes "12") ≡ some (format_default, 12)
unfolding parse_track stoul stoul_sign stoul_digits skip_spaces digits_value
twelve_is_taken = refl

service_x_throws : parse_track (codes "SERVICEx") ≡ none
unfolding parse_track stoul stoul_sign stoul_digits skip_spaces starts_with
service_x_throws = refl

select-IsChannel_example : IsChannel (select (override format_608 (format_708, 5)))
select-IsChannel_example = select-IsChannel format_608 (format_708, 5)

no_users : IsGiven blank_manager
unfolding blank_manager
no_users = omega arith

room_for_ids : blank_manager.id + 3 + 1 < 2 ^ 31
unfolding blank_manager
room_for_ids = omega arith

abbrev users : List Ids.Operation
users = Ids.new_id ∷ Ids.new_id ∷ Ids.leave 1 ∷ []

get_id_is_fresh_example :
    IsGiven (Ids.perform_all users blank_manager)
    × All
        (λ i. i ≢ (get_id (Ids.perform_all users blank_manager)).1)
        (Ids.perform_all users blank_manager).id_set
get_id_is_fresh_example = get_id_is_fresh users blank_manager no_users room_for_ids

abbrev switched_on : CcManager
switched_on = record blank_manager { enabled = true }

has_attributes : length switched_on.current_attributes ≡ 14
unfolding blank_manager create_default_attributes
has_attributes = refl

set_style_attributes_example :
    ((set_style_now replies (123 ∷ []) switched_on).1 ≡ true)
    × (get_or (set_style_now replies (123 ∷ []) switched_on).0.current_attributes 5 0
        ≡ asked large font_size (get_or switched_on.current_attributes 5 0))
set_style_attributes_example =
    set_style_attributes replies 123 [] large switched_on font_size refl refl has_attributes

-- The size 2 is that of "large".
large_pen : asked large font_size 0 ≡ 2
unfolding get_font_style get_color get_edge_type get_opacity get_text_style get_font_size
    find_prefix find_name starts_with to_lower
large_pen = refl
