-- ===== src/Mp4/Codec.antt =====
-- Sample entries and codec configuration, of mp4demux.hpp. `malloc` says whether an allocation of so
-- many bytes succeeds.
use middleware_player_interf.Common.{
  ℕ, zero, suc, ◌+◌, ◌-◌, ◌*◌, ◌%◌, ◌^◌, bit_and, bit_or, Bool, true, false, List, [], ◌∷◌, none,
  some, ltb, ◌==◌, ◌||◌, if◌then◌else◌, get_elem?, length,
}
use middleware_player_interf.Common.Bits.{◌<<<◌}
use middleware_player_interf.Common.Bytes.{codes}
use Prim.Native.String.{String}
use middleware_player_interf.Mp4.Reader.{
  Error, ok, err, fault, stuck, M, pure, ◌>>=◌, ◌>>◌, check, skip_bytes, read_byte, read_u16,
  read_u32,
}
use middleware_player_interf.Mp4.State.{InitializationHeaderInfo}

-- `MultiChar_Constant`
unfoldable pub four_cc : String → ℕ
four_cc text = elim (codes text) [
  | a ∷ b ∷ c ∷ d ∷ rest ↦ ((a * 256 + b) * 256 + c) * 256 + d
  | _ ↦ 0
]

module _ (mem : List ℕ) where
  -- `readLen`: every round reads a byte, so the bytes that are left bound the rounds, and running out
  -- of them is a read outside the memory. The `int` wraps.
  read_len_loop : ℕ → ℕ → M ℕ
  read_len_loop zero rc = λ p. err fault
  read_len_loop (suc n) rc = do
    octet ← read_byte mem
    let rc' = bit_or (rc <<< 7 % 2 ^ 32) (bit_and octet 0x7f)
    let rest = read_len_loop n rc'
    if bit_and octet 0x80 == 0 then pure rc' else rest

  unfoldable pub read_len : M ℕ
  unfolding read_len_loop
  read_len p = read_len_loop (length mem - p + 1) 0 p

  -- `memcpy` of `len` bytes from the pointer, which stays.
  unfoldable pub copy_bytes : ℕ → M (List ℕ)
  copy_bytes zero p = ok ([], p)
  copy_bytes (suc n) p = elim (get_elem? mem p) [
    | none ↦ err fault
    | some b ↦ elim (copy_bytes n (p + 1)) [ err e ↦ err e | ok (rest, q) ↦ ok (b ∷ rest, p) ]
  ]

module _ (mem : List ℕ) (malloc : ℕ → Bool) where
  -- `malloc` and, where it succeeds, `memcpy`; `step` is what the pointer then moves by.
  unfoldable pub take_codec_data : ℕ → ℕ → InitializationHeaderInfo → M InitializationHeaderInfo
  unfolding copy_bytes
  take_codec_data len step info = elim (malloc len) [
    | false ↦ pure (record info { codec_data_len = len; codec_data = none })
    | true ↦ do
      copy ← copy_bytes mem len
      skip_bytes step
      pure (record info { codec_data_len = len; codec_data = some copy })
  ]

  unfoldable pub read_decoder_config : InitializationHeaderInfo → M InitializationHeaderInfo
  read_decoder_config info = do
    object_type_id ← read_byte mem
    stream_type ← read_byte mem
    up_stream ← read_byte mem
    buffer_size ← read_u16 mem
    max_bitrate ← read_u32 mem
    avg_bitrate ← read_u32 mem
    pure (record info {
      object_type_id = object_type_id;
      stream_type = stream_type;
      up_stream = up_stream;
      buffer_size = buffer_size;
      max_bitrate = max_bitrate;
      avg_bitrate = avg_bitrate;
    })

  -- The switch of `parseCodecConfigHelper`; `nested` is the call of the function itself.
  unfoldable pub parse_descriptor :
      (InitializationHeaderInfo → ℕ → M InitializationHeaderInfo)
      → ℕ
      → ℕ
      → ℕ
      → InitializationHeaderInfo
      → M InitializationHeaderInfo
  unfolding read_decoder_config take_codec_data
  parse_descriptor nested tag len end info =
      if tag == 0x03
      then (do skip_bytes 3; nested info end)
      else if tag == 0x04
      then (do info' ← read_decoder_config info; nested info' end)
      else if tag == 0x05
      then take_codec_data len len info
      else if tag == 0x06
      then (do skip_bytes len; pure info)
      else λ p. err Error.assert_failed

  -- `parseCodecConfigHelper`, on fuel.
  unfoldable pub parse_codec_config_helper :
      ℕ → InitializationHeaderInfo → ℕ → M InitializationHeaderInfo
  unfolding parse_descriptor
  parse_codec_config_helper zero info next p = elim (ltb p next) [
    | false ↦ ok (info, p)
    | true ↦ err stuck
  ]
  parse_codec_config_helper (suc fuel) info next p = elim (ltb p next) [
    | false ↦ ok (info, p)
    | true ↦
        (do
          tag ← read_byte mem
          len ← read_len mem
          end ← (λ q. ok (q + len, q))
          info' ← parse_descriptor (parse_codec_config_helper fuel) tag len end info
          (λ q. elim (q == end) [
            | true ↦ parse_codec_config_helper fuel info' next q
            | false ↦ err Error.assert_failed
          ]))
          p
  ]

  -- `next - ptr` as a `size_t`.
  abbrev pub distance : ℕ → ℕ → ℕ
  distance p next = (next + 2 ^ 64 - p) % 2 ^ 64

  -- `parseCodecConfiguration`. Every descriptor takes a byte, so the bytes of the memory bound the
  -- fuel.
  unfoldable pub parse_codec_configuration :
      ℕ → ℕ → InitializationHeaderInfo → M InitializationHeaderInfo
  unfolding four_cc parse_codec_config_helper take_codec_data
  parse_codec_configuration type next info p =
      let info' = record info { codec_type = type } in
      if type == four_cc "esds"
      then (do skip_bytes 4; parse_codec_config_helper (suc (length mem)) info' next) p
      else take_codec_data (distance p next) 0 info' p

  unfoldable pub parse_video_entry : InitializationHeaderInfo → M InitializationHeaderInfo
  parse_video_entry info = do
    skip_bytes 4
    data_reference_index ← read_u32 mem
    skip_bytes 16
    width ← read_u16 mem
    height ← read_u16 mem
    horizresolution ← read_u32 mem
    vertresolution ← read_u32 mem
    skip_bytes 4
    frame_count ← read_u16 mem
    skip_bytes 32
    depth ← read_u16 mem
    pad ← read_u16 mem
    check (pad == 0xffff)
    pure (record info {
      data_reference_index = data_reference_index;
      width = width;
      height = height;
      horizresolution = horizresolution;
      vertresolution = vertresolution;
      frame_count = frame_count;
      depth = depth;
    })

  unfoldable pub parse_audio_entry : InitializationHeaderInfo → M InitializationHeaderInfo
  parse_audio_entry info = do
    skip_bytes 4
    data_reference_index ← read_u32 mem
    skip_bytes 8
    channel_count ← read_u16 mem
    samplesize ← read_u16 mem
    skip_bytes 4
    samplerate ← read_u16 mem
    skip_bytes 2
    pure (record info {
      data_reference_index = data_reference_index;
      channel_count = channel_count;
      samplesize = samplesize;
      samplerate = samplerate;
    })

  -- The switch of `parseStreamFormat`, without the walk over the children behind it.
  unfoldable pub parse_stream_format : ℕ → InitializationHeaderInfo → M InitializationHeaderInfo
  unfolding four_cc parse_video_entry parse_audio_entry
  parse_stream_format type info =
      let info' = record info { stream_format = type } in
      if type == four_cc "hev1" || (type == four_cc "avc1" || type == four_cc "hvc1")
      then parse_video_entry info'
      else if type == four_cc "mp4a" || type == four_cc "ec-3"
      then parse_audio_entry info'
      else λ p. err Error.assert_failed
