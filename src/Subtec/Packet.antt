-- ===== src/Subtec/Packet.antt =====
-- The class Packet of subtec/libsubtec/SubtecPacket.hpp. A byte is a number below 256, and an
-- `int64_t` its bit pattern.
use middleware_player_interf.Common.{
  ℕ, zero, suc, ◌+◌, ◌*◌, ◌%◌, ◌^◌, bit_and, List, [], ◌∷◌, ◌++◌, true, false, leb, length, get_or,
}
use middleware_player_interf.Common.Bits.{◌<<<◌, ◌>>>◌}

pub record Packet : Type 0 where
  pub buffer : List ℕ
  pub counter : ℕ

-- Without ZERO and INVALID, which no packet carries.
pub data PacketType : Type 0 where
  pes_data timestamp reset_all reset_channel subtitle_selection teletext_selection : PacketType
  ttml_selection ttml_data ttml_timestamp cc_data pause resume mute unmute : PacketType
  web_vtt_selection web_vtt_data web_vtt_timestamp cc_set_attribute : PacketType

-- The values of the enumeration.
unfoldable pub type_code : PacketType → ℕ
type_code pes_data = 1
type_code timestamp = 2
type_code reset_all = 3
type_code reset_channel = 4
type_code subtitle_selection = 5
type_code teletext_selection = 6
type_code ttml_selection = 7
type_code ttml_data = 8
type_code ttml_timestamp = 9
type_code cc_data = 10
type_code pause = 11
type_code resume = 12
type_code mute = 13
type_code unmute = 14
type_code web_vtt_selection = 15
type_code web_vtt_data = 16
type_code web_vtt_timestamp = 17
type_code cc_set_attribute = 18

-- `Packet()` and `Packet(counter)`
abbrev pub new_packet : ℕ → Packet
new_packet counter = record { buffer = []; counter = counter }

abbrev pub no_counter : ℕ
no_counter = 0xffffffff

unfoldable pub push_back : ℕ → Packet → Packet
push_back byte p = record p { buffer = p.buffer ++ (byte ∷ []) }

unfoldable pub append32 : ℕ → Packet → Packet
unfolding push_back
append32 value p = push_back (value >>> 24 % 2 ^ 8) (
    push_back (value >>> 16 % 2 ^ 8)
      (push_back (value >>> 8 % 2 ^ 8) (push_back (value >>> 0 % 2 ^ 8) p)))

unfoldable pub append64 : ℕ → Packet → Packet
unfolding append32
append64 value p = append32 (value >>> 32 % 2 ^ 32) (append32 (value >>> 0 % 2 ^ 32) p)

unfoldable pub append_type : PacketType → Packet → Packet
unfolding append32 type_code
append_type type = append32 (type_code type)

-- The bytes of a vector or of an array behind the buffer.
unfoldable pub append_bytes : List ℕ → Packet → Packet
append_bytes bytes p = record p { buffer = p.buffer ++ bytes }

-- The loop of `getType`, with the rounds left, from the byte of index `i` on. The `int` that holds the
-- shifted byte is masked to 8 bits.
unfoldable pub type_loop : ℕ → ℕ → List ℕ → ℕ → ℕ
type_loop zero i buffer type = type
type_loop (suc n) i buffer type =
    type_loop n (i + 1) buffer
      ((type + bit_and (get_or buffer i 0 <<< (i * 8) % 2 ^ 32) 0xff) % 2 ^ 32)

unfoldable pub get_type : Packet → ℕ
unfolding type_loop
get_type p = elim (leb 4 (length p.buffer)) [ false ↦ 0 | true ↦ type_loop 4 0 p.buffer 0 ]
