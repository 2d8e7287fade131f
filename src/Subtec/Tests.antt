-- ===== src/Subtec/Tests.antt =====
-- The theorems on packets and on the sender at concrete inputs.
use middleware_player_interf.Common.{
  List, [], arith, false, get_elem?, if◌then◌else◌, map, none, refl, replicate, set, some, true, ℕ,
  ◌∷◌, ◌≡◌, ◌≤◌,
}
use middleware_player_interf.Common.Bits.{bit_at}
use middleware_player_interf.Common.Bytes.{codes, same_text}
use middleware_player_interf.Subtec.Styles.{
  Json, get_attributes, get_font_size, find_text, to_lower, assign_all, assign,
}
use middleware_player_interf.Subtec.Styles.Mask.{Leaves}
use middleware_player_interf.Subtec.Styles.Described.{wanted, font_size, get_attributes-Leaves}
use middleware_player_interf.Subtec.Packet.{Packet, type_code}
use middleware_player_interf.Subtec.Channel.{Channel, Command, send, send_ttml_data}
use middleware_player_interf.Subtec.Frame.{read_frame, type_of, counter_of, payload_of}
use middleware_player_interf.Subtec.Frame.Sent.{send-IsFrame}
use middleware_player_interf.Subtec.Sender.{Sender, Reply, wake}
use middleware_player_interf.Subtec.Sender.Drained.{writes, wake_lem}

abbrev channel : Channel
channel = record { channel_id = 2; counter = 7 }

abbrev command : Command
command = send_ttml_data 5 (60 ∷ 62 ∷ [])

send-IsFrame_example :
    read_frame (send command channel).1.buffer
    ≡ some (record {
      type = type_code (type_of command);
      counter = counter_of command channel;
      payload = payload_of command 2;
    })
send-IsFrame_example = send-IsFrame command channel (omega arith) (omega arith)

abbrev refusing : ℕ → Reply
refusing n = record { resized = true; written = false }

abbrev packet : Packet
packet = record { buffer = 1 ∷ 2 ∷ []; counter = 0 }

abbrev sender : Sender
sender = record { queue = packet ∷ packet ∷ packet ∷ []; sock_buf_size = 1; write_fail_ctr = 4 }

wake_lem_example :
    (writes (wake refusing sender).1 ≡ map (λ (p : Packet). p.buffer) sender.queue)
    × ((wake refusing sender).0.queue ≡ [])
    × ((wake refusing sender).0.write_fail_ctr ≤ 5)
wake_lem_example = wake_lem refusing sender (omega arith)

abbrev options : Json
options name = if same_text name (codes "penSize") then some (codes "Large") else none

abbrev sizes : List ℕ
sizes = replicate 14 9

get_attributes-Leaves_example :
    ((get_attributes (λ text. some options) (b'x' ∷ []) sizes).0 ≡ true)
    × Leaves
        (wanted options font_size)
        (some 9)
        0
        (get_elem? (get_attributes (λ text. some options) (b'x' ∷ []) sizes).1.values 5)
        (bit_at 5 (get_attributes (λ text. some options) (b'x' ∷ []) sizes).1.mask)
get_attributes-Leaves_example =
    get_attributes-Leaves (λ text. some options) b'x' [] sizes options font_size refl refl

size_two :
    (get_attributes (λ text. some options) (b'x' ∷ []) sizes).1
    ≡ record { values = set sizes 5 2; mask = 32 }
unfolding get_attributes get_font_size find_text to_lower assign_all assign
size_two = refl
