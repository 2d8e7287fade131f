-- ===== src/Subtec/Frame.antt =====
-- The format of a packet as its reader sees it: three words, lowest byte first, for the type, the
-- counter and the size, and as many bytes as the size says.
pub mod Sent
pub mod Types
use middleware_player_interf.Common.{
  ℕ, zero, suc, ◌+◌, ◌*◌, ◌/◌, ◌-◌, ◌%◌, ◌^◌, ◌<◌, ◌≡◌, refl, ap, sym, ◌∙◌, List, [], ◌∷◌, ◌++◌,
  Bool, true, false, Option, none, some, arith, length, ◌==◌, length-append,
}
use mathlib.Core.List.{append-nil, append_assoc}
use middleware_player_interf.Subtec.Packet.{
  Packet, PacketType, reset_all, reset_channel, subtitle_selection, ttml_selection, ttml_data,
  ttml_timestamp, cc_data, pause, resume, mute, unmute, web_vtt_selection, web_vtt_data,
  web_vtt_timestamp, cc_set_attribute, type_code, get_type, append32, append_type, push_back,
  append64, append_bytes, new_packet,
}
use middleware_player_interf.Subtec.Kinds.{
  header, append_attributes, cc_set_attribute_packet, pause_packet, resume_packet, mute_packet,
  unmute_packet, reset_channel_packet, reset_all_packet, selection_packet, data_packet,
  timestamp_packet, closed_captions_packet, closed_captions_active_type_packet,
}
use middleware_player_interf.Subtec.Channel.{
  Channel, Command, send_reset_all, send_reset_channel, send_pause, send_resume, send_mute,
  send_unmute, send_cc_set_attribute, send_ttml_selection, send_web_vtt_selection, send_ttml_data,
  send_web_vtt_data, send_ttml_timestamp, send_web_vtt_timestamp, send_data_with_pts,
  send_data_no_pts, send_active_type, send, send_packet,
}

pub record Frame : Type 0 where
  pub type : ℕ
  pub counter : ℕ
  pub payload : List ℕ

-- A word, and the bytes behind it.
abbrev pub word : ℕ → List ℕ → List ℕ
word v rest = v / 2 ^ 0 % 2 ^ 8 ∷ v / 2 ^ 8 % 2 ^ 8 ∷ v / 2 ^ 16 % 2 ^ 8 ∷ v / 2 ^ 24 % 2 ^ 8 ∷ rest

abbrev pub words : List ℕ → List ℕ
words [] = []
words (v ∷ vs) = word v (words vs)

abbrev pub read_word : List ℕ → Option (ℕ × List ℕ)
read_word (a ∷ b ∷ c ∷ d ∷ rest) = some (a + 2 ^ 8 * b + 2 ^ 16 * c + 2 ^ 24 * d, rest)
read_word _ = none

unfoldable pub read_frame : List ℕ → Option Frame
read_frame bytes = elim (read_word bytes) [
  | none ↦ none
  | some (type, bytes1) ↦ elim (read_word bytes1) [
    | none ↦ none
    | some (counter, bytes2) ↦ elim (read_word bytes2) [
      | none ↦ none
      | some (size, payload) ↦ elim (size == length payload) [
        | true ↦ some (record { type = type; counter = counter; payload = payload })
        | false ↦ none
      ]
    ]
  ]
]

-- What each call is to put into its packet.
abbrev pub type_of : Command → PacketType
type_of send_reset_all = reset_all
type_of send_reset_channel = reset_channel
type_of send_pause = pause
type_of send_resume = resume
type_of send_mute = mute
type_of send_unmute = unmute
type_of (send_cc_set_attribute cc_type attrib_type values) = cc_set_attribute
type_of (send_ttml_selection width height) = ttml_selection
type_of (send_web_vtt_selection width height) = web_vtt_selection
type_of (send_ttml_data offset bytes) = ttml_data
type_of (send_web_vtt_data offset bytes) = web_vtt_data
type_of (send_ttml_timestamp time) = ttml_timestamp
type_of (send_web_vtt_timestamp time) = web_vtt_timestamp
type_of (send_data_with_pts pts bytes) = cc_data
type_of (send_data_no_pts bytes) = cc_data
type_of (send_active_type type service) = subtitle_selection

abbrev pub counter_of : Command → Channel → ℕ
counter_of send_reset_all c = 0
counter_of _ c = c.counter

-- A 64-bit number goes as its low word and its high word.
abbrev pub double_word : ℕ → List ℕ → List ℕ
double_word v rest = word (v / 2 ^ 0 % 2 ^ 32) (word (v / 2 ^ 32 % 2 ^ 32) rest)

abbrev pub payload_of : Command → ℕ → List ℕ
payload_of send_reset_all id = []
payload_of (send_cc_set_attribute cc_type attrib_type values) id =
    word id (word cc_type (word attrib_type (words values)))
payload_of (send_ttml_selection width height) id = word id (word width (word height []))
payload_of (send_web_vtt_selection width height) id = word id (word width (word height []))
payload_of (send_ttml_data offset bytes) id = word id (double_word offset bytes)
payload_of (send_web_vtt_data offset bytes) id = word id (double_word offset bytes)
payload_of (send_ttml_timestamp time) id = word id (double_word time [])
payload_of (send_web_vtt_timestamp time) id = word id (double_word time [])
payload_of (send_data_with_pts pts bytes) id = word id (word 3 (word 1 (word pts bytes)))
payload_of (send_data_no_pts bytes) id = word id (word 3 (word 0 (word 0 bytes)))
payload_of (send_active_type type service) id = word id (word 3 (word type (word service [])))
payload_of send_reset_channel id = word id []
payload_of send_pause id = word id []
payload_of send_resume id = word id []
payload_of send_mute id = word id []
payload_of send_unmute id = word id []

-- The array of attributes has its length, the size of the payload fits a word, and the `int` index of the
-- loop over caption data its type.
abbrev pub Fits : Command → Type 0
Fits (send_cc_set_attribute cc_type attrib_type values) = length values ≡ 14
Fits (send_ttml_data offset bytes) = length bytes < 2 ^ 32 - 16
Fits (send_web_vtt_data offset bytes) = length bytes < 2 ^ 32 - 16
Fits (send_data_with_pts pts bytes) = length bytes < 2 ^ 31
Fits (send_data_no_pts bytes) = length bytes < 2 ^ 31
Fits _ = Unit
