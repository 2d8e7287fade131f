-- ===== src/Subtec/Frame/Sent.antt =====
-- Every packet that a channel sends is a frame.
use middleware_player_interf.Common.{
  ℕ, ◌+◌, ◌*◌, ◌/◌, ◌%◌, ◌^◌, ◌<◌, ◌≡◌, refl, ap, sym, ◌∙◌, List, [], ◌∷◌, ◌++◌, true, some, arith,
  length, ◌==◌, ==_iff,
}
use middleware_player_interf.Common.Bits.{◌>>>◌}
use mathlib.Core.List.{append-nil, append_assoc}
use middleware_player_interf.Subtec.Packet.{
  Packet, type_code, append32, append_type, push_back, append64, append_bytes,
}
use middleware_player_interf.Subtec.Kinds.{
  header, append_attributes, cc_set_attribute_packet, pause_packet, resume_packet, mute_packet,
  unmute_packet, reset_channel_packet, reset_all_packet, selection_packet, data_packet,
  timestamp_packet, closed_captions_packet, closed_captions_active_type_packet,
}
use middleware_player_interf.Subtec.Channel.{
  Channel, Command, send_reset_all, send_reset_channel, send_pause, send_resume, send_mute,
  send_unmute, send_cc_set_attribute, send_ttml_selection, send_web_vtt_selection, send_ttml_data,
  send_web_vtt_data, send_ttml_timestamp, send_web_vtt_timestamp, send_data_with_pts,
  send_data_no_pts, send_active_type, send, send_packet,
}
use middleware_player_interf.Subtec.Frame.{
  word, words, read_frame, type_of, counter_of, payload_of, Fits,
}

abbrev value : ℕ → ℕ
value v =
    v / 2 ^ 0 % 2 ^ 8
    + 2 ^ 8 * (v / 2 ^ 8 % 2 ^ 8)
    + 2 ^ 16 * (v / 2 ^ 16 % 2 ^ 8)
    + 2 ^ 24 * (v / 2 ^ 24 % 2 ^ 8)

word_value : (v : ℕ) → v < 2 ^ 32 → value v ≡ v
word_value v h = omega arith

pair_eq : {a b c d : ℕ} → a ≡ b → c ≡ d → ◌≡◌ {A = ℕ × ℕ} (a, c) (b, d)
pair_eq p q = cc

-- The bytes of three words, and a payload of the size that the third says.
read_frame-word :
    (type counter size : ℕ) (payload : List ℕ)
    → type < 2 ^ 32
    → counter < 2 ^ 32
    → size < 2 ^ 32
    → size ≡ length payload
    → read_frame (word type (word counter (word size payload)))
      ≡ some (record { type = type; counter = counter; payload = payload })
unfolding read_frame
read_frame-word type counter size payload t c z e =
    let sized : (value size == length payload) ≡ true =
      (==_iff (value size) (length payload)).1 (word_value size z ∙ e) in
    rw (sized, read_frame)
      (ap (λ (p : ℕ × ℕ). some (record { type = p.0; counter = p.1; payload = payload }))
        (let et = word_value type t in let ec = word_value counter c in pair_eq et ec))

abbrev packet : List ℕ → ℕ → Packet
packet buffer counter = record { buffer = buffer; counter = counter }

-- The loop over the attributes appends their words.
append_attributes_lem :
    (vs bs : List ℕ) (n : ℕ)
    → append_attributes vs (record { buffer = bs; counter = n })
      ≡ record { buffer = bs ++ words vs; counter = n }
unfolding append_attributes append32 push_back
append_attributes_lem [] bs n = ap (λ (b : List ℕ). packet b n) (sym (append-nil bs))
append_attributes_lem (v ∷ vs) bs n =
    let a = v >>> 0 % 2 ^ 8 in
    let b = v >>> 8 % 2 ^ 8 in
    let c = v >>> 16 % 2 ^ 8 in
    let d = v >>> 24 % 2 ^ 8 in
    let b1 = bs ++ (a ∷ []) in
    let b2 = b1 ++ (b ∷ []) in
    let b3 = b2 ++ (c ∷ []) in
    append_attributes_lem vs (b3 ++ (d ∷ [])) n
    ∙ ap (λ (t : List ℕ). packet t n)
        (append_assoc b3 (d ∷ []) (words vs)
          ∙ append_assoc b2 (c ∷ []) (d ∷ words vs)
          ∙ append_assoc b1 (b ∷ []) (c ∷ d ∷ words vs)
          ∙ append_assoc bs (a ∷ []) (b ∷ c ∷ d ∷ words vs))

length-words : (vs : List ℕ) → length (words vs) ≡ 4 * length vs
length-words [] = refl
length-words (v ∷ vs) = omega (arith, length-words vs)

-- Whatever a channel is told to send, where TTML and WebVTT data is shorter than 2 ^ 32 - 16 bytes (so that
-- the size fits a word), caption data shorter than 2 ^ 31 bytes (so that the `int` index of its loop stays in
-- range), an array of attributes has its 14 values and the counter is a word: the reader of the format finds in the packet the type of the
-- call, the counter of the channel (0 for a reset of all) and the arguments, and a size that is right.
pub send-IsFrame :
    (m : Command) (c : Channel)
    → Fits m
    → c.counter < 2 ^ 32
    → read_frame (send m c).1.buffer
      ≡ some (record {
        type = type_code (type_of m);
        counter = counter_of m c;
        payload = payload_of m c.channel_id;
      })
unfolding send send_packet header append32 append_type push_back append64 append_bytes type_code
    cc_set_attribute_packet pause_packet resume_packet mute_packet unmute_packet
    reset_channel_packet reset_all_packet selection_packet data_packet timestamp_packet
    closed_captions_packet closed_captions_active_type_packet
send-IsFrame send_reset_all c h k =
    read_frame-word 3 0 0 [] (omega arith) (omega arith) (omega arith) refl
send-IsFrame send_reset_channel c h k =
    read_frame-word 4 c.counter 4 _ (omega arith) k (omega arith) refl
send-IsFrame send_pause c h k = read_frame-word 11 c.counter 4 _ (omega arith) k (omega arith) refl
send-IsFrame send_resume c h k = read_frame-word 12 c.counter 4 _ (omega arith) k (omega arith) refl
send-IsFrame send_mute c h k = read_frame-word 13 c.counter 4 _ (omega arith) k (omega arith) refl
send-IsFrame send_unmute c h k = read_frame-word 14 c.counter 4 _ (omega arith) k (omega arith) refl
send-IsFrame (send_cc_set_attribute cc_type attrib_type values) c h k =
    let start : List ℕ =
      word 18 (word c.counter (word 68 (word c.channel_id (word cc_type (word attrib_type []))))) in
    ap (λ (p : Packet). read_frame p.buffer) (append_attributes_lem values start c.counter)
    ∙ read_frame-word 18 c.counter 68
        (word c.channel_id (word cc_type (word attrib_type (words values)))) (omega arith) k
        (omega arith) (omega (arith, length-words values))
send-IsFrame (send_ttml_selection width height) c h k =
    read_frame-word 7 c.counter 12 _ (omega arith) k (omega arith) refl
send-IsFrame (send_web_vtt_selection width height) c h k =
    read_frame-word 15 c.counter 12 _ (omega arith) k (omega arith) refl
send-IsFrame (send_ttml_data offset bytes) c h k =
    read_frame-word 8 c.counter ((8 + 4 + length bytes) % 2 ^ 32) _ (omega arith) k (omega arith)
      (omega arith)
send-IsFrame (send_web_vtt_data offset bytes) c h k =
    read_frame-word 16 c.counter ((8 + 4 + length bytes) % 2 ^ 32) _ (omega arith) k (omega arith)
      (omega arith)
send-IsFrame (send_ttml_timestamp time) c h k =
    read_frame-word 9 c.counter 12 _ (omega arith) k (omega arith) refl
send-IsFrame (send_web_vtt_timestamp time) c h k =
    read_frame-word 17 c.counter 12 _ (omega arith) k (omega arith) refl
send-IsFrame (send_data_with_pts pts bytes) c h k =
    read_frame-word 10 c.counter ((16 + length bytes) % 2 ^ 32) _ (omega arith) k (omega arith)
      (omega arith)
send-IsFrame (send_data_no_pts bytes) c h k =
    read_frame-word 10 c.counter ((16 + length bytes) % 2 ^ 32) _ (omega arith) k (omega arith)
      (omega arith)
send-IsFrame (send_active_type type service) c h k =
    read_frame-word 5 c.counter 16 _ (omega arith) k (omega arith) refl
