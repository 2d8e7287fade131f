-- ===== src/Subtec/Channel.antt =====
-- The class SubtecChannel and its subclasses, of subtec/libsubtec. A channel hands each packet to the
-- sender under its mutex.
use middleware_player_interf.Common.{ℕ, ◌+◌, ◌%◌, ◌^◌, List}
use middleware_player_interf.Subtec.Packet.{
  Packet, ttml_selection, ttml_data, ttml_timestamp, web_vtt_selection, web_vtt_data,
  web_vtt_timestamp,
}
use middleware_player_interf.Subtec.Kinds.{
  pause_packet, resume_packet, mute_packet, unmute_packet, reset_all_packet, reset_channel_packet,
  cc_set_attribute_packet, selection_packet, data_packet, timestamp_packet, closed_captions_packet,
  closed_captions_active_type_packet,
}

pub record Channel : Type 0 where
  pub channel_id : ℕ
  pub counter : ℕ

-- The calls of a channel.
pub data Command : Type 0 where
  send_reset_all send_reset_channel send_pause send_resume send_mute send_unmute : Command
  send_cc_set_attribute : ℕ → ℕ → List ℕ → Command
  send_ttml_selection send_web_vtt_selection : ℕ → ℕ → Command
  send_ttml_data send_web_vtt_data : ℕ → List ℕ → Command
  send_ttml_timestamp send_web_vtt_timestamp : ℕ → Command
  send_data_with_pts : ℕ → List ℕ → Command
  send_data_no_pts : List ℕ → Command
  send_active_type : ℕ → ℕ → Command

-- The constructor, with the next id of SubtecChannelManager, which it counts on.
unfoldable pub new_channel : ℕ → Channel × ℕ
new_channel next_channel_id =
    (record { channel_id = next_channel_id; counter = 0 }, (next_channel_id + 1) % 2 ^ 32)

-- `sendPacket`: the packet made from the id and the counter, which is counted on.
unfoldable pub send_packet : (ℕ → ℕ → Packet) → Channel → Channel × Packet
send_packet make c = (record c { counter = (c.counter + 1) % 2 ^ 32 }, make c.channel_id c.counter)

unfoldable pub send : Command → Channel → Channel × Packet
unfolding send_packet reset_all_packet
send send_reset_all c = (record c { counter = 1 }, reset_all_packet)
send send_reset_channel c = send_packet reset_channel_packet c
send send_pause c = send_packet pause_packet c
send send_resume c = send_packet resume_packet c
send send_mute c = send_packet mute_packet c
send send_unmute c = send_packet unmute_packet c
send (send_cc_set_attribute cc_type attrib_type values) c =
    send_packet (λ i n. cc_set_attribute_packet i n cc_type attrib_type values) c
send (send_ttml_selection width height) c =
    send_packet (λ i n. selection_packet ttml_selection i n width height) c
send (send_web_vtt_selection width height) c =
    send_packet (λ i n. selection_packet web_vtt_selection i n width height) c
send (send_ttml_data offset bytes) c = send_packet (λ i n. data_packet ttml_data i n offset bytes) c
send (send_web_vtt_data offset bytes) c =
    send_packet (λ i n. data_packet web_vtt_data i n offset bytes) c
send (send_ttml_timestamp time) c = send_packet (λ i n. timestamp_packet ttml_timestamp i n time) c
send (send_web_vtt_timestamp time) c =
    send_packet (λ i n. timestamp_packet web_vtt_timestamp i n time) c
send (send_data_with_pts pts bytes) c =
    send_packet (λ i n. closed_captions_packet 1 i n pts bytes) c
send (send_data_no_pts bytes) c = send_packet (λ i n. closed_captions_packet 0 i n 0 bytes) c
send (send_active_type type service) c =
    send_packet (λ i n. closed_captions_active_type_packet i n type service) c
