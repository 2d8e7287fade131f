-- ===== src/Subtec/Kinds.antt =====
-- The constructors of the packets, of SubtecPacket.hpp, TtmlPacket.hpp, WebVttPacket.hpp and
-- ClosedCaptionsPacket.hpp, in `subtec/libsubtec`.
use middleware_player_interf.Common.{ℕ, ◌+◌, ◌*◌, ◌%◌, ◌^◌, List, [], ◌∷◌, length}
use middleware_player_interf.Subtec.Packet.{
  Packet, PacketType, reset_all, reset_channel, subtitle_selection, cc_data, pause, resume, mute,
  unmute, cc_set_attribute, new_packet, no_counter, append32, append64, append_type, append_bytes,
}

abbrev pub number_of_attributes : ℕ
number_of_attributes = 14

-- What all constructors begin with.
unfoldable pub header : PacketType → ℕ → ℕ → ℕ → Packet
unfolding append32 append_type
header type counter size base =
    append32 size (append32 counter (append_type type (new_packet base)))

unfoldable pub pause_packet : ℕ → ℕ → Packet
unfolding header append32
pause_packet channel_id counter = append32 channel_id (header pause counter 4 counter)

unfoldable pub resume_packet : ℕ → ℕ → Packet
unfolding header append32
resume_packet channel_id counter = append32 channel_id (header resume counter 4 counter)

unfoldable pub mute_packet : ℕ → ℕ → Packet
unfolding header append32
mute_packet channel_id counter = append32 channel_id (header mute counter 4 counter)

unfoldable pub unmute_packet : ℕ → ℕ → Packet
unfolding header append32
unmute_packet channel_id counter = append32 channel_id (header unmute counter 4 counter)

unfoldable pub reset_all_packet : Packet
unfolding header
reset_all_packet = header reset_all 0 0 0

unfoldable pub reset_channel_packet : ℕ → ℕ → Packet
unfolding header append32
reset_channel_packet channel_id counter =
    append32 channel_id (header reset_channel counter 4 counter)

-- The loop over the attributes.
unfoldable pub append_attributes : List ℕ → Packet → Packet
unfolding append32
append_attributes [] p = p
append_attributes (value ∷ values) p = append_attributes values (append32 value p)

unfoldable pub cc_set_attribute_packet : ℕ → ℕ → ℕ → ℕ → List ℕ → Packet
unfolding header append32 append_attributes
cc_set_attribute_packet channel_id counter cc_type attrib_type values = append_attributes values (
    append32 attrib_type (
      append32 cc_type (
        append32 channel_id
          (header cc_set_attribute counter ((number_of_attributes + 3) * 4) counter))))

-- The selection, data and timestamp packets of TTML and of WebVTT differ in their type.
unfoldable pub selection_packet : PacketType → ℕ → ℕ → ℕ → ℕ → Packet
unfolding header append32
selection_packet type channel_id counter width height =
    append32 height (append32 width (append32 channel_id (header type counter 12 counter)))

unfoldable pub data_packet : PacketType → ℕ → ℕ → ℕ → List ℕ → Packet
unfolding header append32 append64 append_bytes
data_packet type channel_id counter offset bytes = append_bytes bytes (
    append64 offset
      (append32 channel_id (header type counter ((8 + 4 + length bytes) % 2 ^ 32) counter)))

unfoldable pub timestamp_packet : PacketType → ℕ → ℕ → ℕ → Packet
unfolding header append32 append64
timestamp_packet type channel_id counter time =
    append64 time (append32 channel_id (header type counter 12 counter))

abbrev pub cc_channel_type : ℕ
cc_channel_type = 3

-- ClosedCaptionsPacket: `presence` and `pts` are 1 and the value, or 0 and 0. The loop over the data counts in
-- an `int`: for 2 ^ 31 bytes and more the constructor is undefined, and this is no model of it.
unfoldable pub closed_captions_packet : ℕ → ℕ → ℕ → ℕ → List ℕ → Packet
unfolding header append32 append_bytes
closed_captions_packet presence channel_id counter pts bytes = append_bytes bytes (
    append32 pts (
      append32 presence (
        append32 cc_channel_type (
          append32 channel_id (header cc_data counter ((16 + length bytes) % 2 ^ 32) no_counter)))))

unfoldable pub closed_captions_active_type_packet : ℕ → ℕ → ℕ → ℕ → Packet
unfolding header append32
closed_captions_active_type_packet channel_id counter type service = append32 service (
    append32 type (
      append32 cc_channel_type
        (append32 channel_id (header subtitle_selection counter 16 no_counter))))
