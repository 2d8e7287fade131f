-- ===== src/Captions.antt =====
-- closedcaptions/: the manager of the closed captions, and what it sends to the renderer over
-- subtec/SubtecConnector.cpp and subtec/CCDataController.cpp. The platform's decoder, the set-up of the
-- packet sender and the JSON parser are outside: a call takes their replies.
pub mod Tables
pub mod Styling
pub mod Tracks
pub mod Manager
pub mod Users
pub mod Rendering
pub mod Leaving
pub mod Obeying
pub mod Bounds
pub mod Ids
pub mod Masks
pub mod Attributes
pub mod Styled
mod Tests
use middleware_player_interf.Common.{
  ℕ, Bool, true, false, List, [], ◌∷◌, ◌++◌, Option, none, some, ◌==◌, if◌then◌else◌, replicate,
}
use middleware_player_interf.Common.Bytes.{codes}
use middleware_player_interf.Subtec.Channel.{
  Command, send_mute, send_unmute, send_pause, send_resume, send_reset_channel, send_active_type,
  send_data_with_pts,
}

abbrev pub Text : Type 0
Text = List ℕ

-- The strings of a JSON object, by name.
abbrev pub Json : Type 0
Json = Text → Option Text

-- What goes out: the calls of the decoder with its handle, the set-up of the sender, and the calls of the
-- channel of the closed captions.
pub data Call : Type 0 where
  vlhal_cc_register media_close_caption_stop init_comms : Call
  media_close_caption_start : ℕ → Call
  command : Command → Call

-- `vlhal_cc_Register`, `media_closeCaptionStart`, `ClosedCaptionsChannel::InitComms` and the parser, which
-- throws on a text that is no JSON (`none`).
pub record Replies : Type 0 where
  pub register_result : ℕ
  pub start_result : ℕ
  pub comms_result : Bool
  pub parse : Text → Option Json

pub record TrackInfo : Type 0 where
  pub instream_id : Text
  pub language : Text

-- PlayerCCManagerBase, PlayerSubtecCCManager, the attributes of CCDataController and `IsCCOnFlag`, with
-- the calls so far, the last one at the end. An attribute stands at the index of its bit, as the number
-- that `getValue` has for it. A handle of 0 is NULL.
pub record CcManager : Type 0 where
  pub options : Text
  pub track : Text
  pub last_text_tracks : List TrackInfo
  pub enabled : Bool
  pub trickplay_started : Bool
  pub parental_ctrl_locked : Bool
  pub cc_handle : ℕ
  pub renderer_initialized : Bool
  pub hal_initialized : Bool
  pub handle_updated : Bool
  pub id : ℕ
  pub id_set : List ℕ
  pub is_cc_on_flag : Bool
  pub current_attributes : List ℕ
  pub calls : List Call

-- -1 as an `uint32_t`
abbrev pub embedded : ℕ
embedded = 0xFFFFFFFF

abbrev pub embedded_color : ℕ
embedded_color = 0xFF000000

-- `createDefaultAttributes`; the name of the embedded font style has the number 0.
unfoldable pub create_default_attributes : List ℕ
create_default_attributes =
    embedded_color ∷ embedded_color ∷ embedded ∷ embedded ∷ 0 ∷ embedded ∷ embedded ∷ embedded
    ∷ embedded ∷ embedded_color ∷ embedded_color ∷ embedded ∷ embedded ∷ embedded_color ∷ []

-- The manager before its constructor sets the track.
unfoldable pub blank_manager : CcManager
unfolding create_default_attributes
blank_manager = record {
  options = [];
  track = [];
  last_text_tracks = [];
  enabled = false;
  trickplay_started = false;
  parental_ctrl_locked = false;
  cc_handle = 0;
  renderer_initialized = false;
  hal_initialized = false;
  handle_updated = false;
  id = 0;
  id_set = [];
  is_cc_on_flag = false;
  current_attributes = create_default_attributes;
  calls = [];
}

abbrev pub call : Call → CcManager → CcManager
call c m = record m { calls = m.calls ++ (c ∷ []) }

-- `initHal`: the decoder is started only after it was registered.
unfoldable pub init_hal : Replies → CcManager → CcManager × Bool
init_hal r m =
    let registered : CcManager = call vlhal_cc_register m in
    if r.register_result == 0
    then (call (media_close_caption_start m.cc_handle) registered, r.start_result == 0)
    else (registered, false)

unfoldable pub init_packet_sender : Replies → CcManager → CcManager × Bool
init_packet_sender r m = (call init_comms m, r.comms_result)

unfoldable pub reset_channel : CcManager → CcManager
reset_channel m = call (command send_reset_channel) m

unfoldable pub close : CcManager → CcManager
close m = call media_close_caption_stop m

-- `ccShow` and `ccHide`
unfoldable pub cc_show : CcManager → CcManager
cc_show m = call (command send_unmute) m

unfoldable pub cc_hide : CcManager → CcManager
cc_hide m = call (command send_mute) m

unfoldable pub send_pause_packet : CcManager → CcManager
send_pause_packet m = call (command send_pause) m

unfoldable pub send_resume_packet : CcManager → CcManager
send_resume_packet m = call (command send_resume) m

-- `closedCaptionDataCb`, which the decoder calls.
unfoldable pub closed_caption_data_cb : ℕ → List ℕ → CcManager → CcManager
closed_caption_data_cb local_pts bytes m = call (command (send_data_with_pts local_pts bytes)) m

-- CEA-708 is type 1, CEA-608 is type 0.
unfoldable pub cc_set_digital_channel : ℕ → CcManager → CcManager
cc_set_digital_channel channel m = call (command (send_active_type 1 channel)) m

unfoldable pub cc_set_analog_channel : ℕ → CcManager → CcManager
cc_set_analog_channel channel m = call (command (send_active_type 0 channel)) m
