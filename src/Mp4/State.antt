-- ===== src/Mp4/State.antt =====
-- The members of the class Mp4Demux, and of the structures that it fills.
use middleware_player_interf.Common.{ℕ, List, [], Option, none}
use middleware_player_interf.Common.Int.{ℤ}

-- A `double` that the class computes: 0.0, or the quotient of two integers as doubles. The division is
-- not carried out.
pub data Seconds : Type 0 where
  zero_seconds : Seconds
  quotient : ℕ → ℕ → Seconds

-- `ptr` is an offset from the start of the memory, which a data offset of the file may make negative.
pub record Mp4Sample : Type 0 where
  pub ptr : ℤ
  pub len : ℕ
  pub pts : Seconds
  pub dts : Seconds
  pub duration : Seconds

-- `codec_data` is the allocated copy, if there is one.
pub record InitializationHeaderInfo : Type 0 where
  pub channel_count : ℕ
  pub samplesize : ℕ
  pub samplerate : ℕ
  pub object_type_id : ℕ
  pub stream_type : ℕ
  pub up_stream : ℕ
  pub buffer_size : ℕ
  pub max_bitrate : ℕ
  pub avg_bitrate : ℕ
  pub width : ℕ
  pub height : ℕ
  pub frame_count : ℕ
  pub depth : ℕ
  pub horizresolution : ℕ
  pub vertresolution : ℕ
  pub stream_format : ℕ
  pub data_reference_index : ℕ
  pub codec_type : ℕ
  pub codec_data_len : ℕ
  pub codec_data : Option (List ℕ)

-- Without `ptr`, which the reader threads through. `moof_ptr` may be null.
pub record Mp4Demux : Type 0 where
  pub timescale : ℕ
  pub info : InitializationHeaderInfo
  pub samples : List Mp4Sample
  pub moof_ptr : Option ℕ
  pub version : ℕ
  pub flags : ℕ
  pub base_media_decode_time : ℕ
  pub fragment_duration : ℕ
  pub track_id : ℕ
  pub base_data_offset : ℕ
  pub default_sample_description_index : ℕ
  pub default_sample_duration : ℕ
  pub default_sample_size : ℕ
  pub default_sample_flags : ℕ
  pub creation_time : ℕ
  pub modification_time : ℕ
  pub duration : ℕ
  pub rate : ℕ
  pub volume : ℕ
  pub matrix : List ℕ
  pub width : ℕ
  pub height : ℕ
  pub language : ℕ

-- The constructor of InitializationHeaderInfo: `raw` holds what it leaves uninitialised.
unfoldable pub init_info : InitializationHeaderInfo → InitializationHeaderInfo
init_info raw = record raw {
  channel_count = 0;
  samplesize = 0;
  samplerate = 0;
  width = 0;
  height = 0;
  frame_count = 0;
  depth = 0;
  horizresolution = 0;
  vertresolution = 0;
  stream_format = 0;
  data_reference_index = 0;
  codec_type = 0;
  codec_data_len = 0;
  codec_data = none;
}

-- The members as the constructor of Mp4Demux sets them: `raw` holds what it leaves uninitialised.
unfoldable pub init_demux : Mp4Demux → ℕ → Mp4Demux
unfolding init_info
init_demux raw timescale = record raw {
  timescale = timescale;
  info = init_info raw.info;
  samples = [];
  moof_ptr = none;
}
