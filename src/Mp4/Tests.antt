-- ===== src/Mp4/Tests.antt =====
-- The theorems on the demultiplexer at a concrete segment.
use middleware_player_interf.Common.{
  ℕ, ◌+◌, ◌^◌, ◌<◌, ◌≡◌, refl, Bool, true, List, [], ◌∷◌, ◌++◌, arith, length, none, some,
}
use middleware_player_interf.Common.Int.{pos, ◌+ℤ◌, signed32}
use middleware_player_interf.Mp4.Reader.{ok, err, stuck}
use middleware_player_interf.Mp4.Reader.Values.{big_endian}
use middleware_player_interf.Mp4.State.{Mp4Demux, InitializationHeaderInfo, init_demux}
use middleware_player_interf.Mp4.Boxes.{parse_track_fragment_run_box}
use middleware_player_interf.Mp4.Codec.{four_cc}
use middleware_player_interf.Mp4.Demux.{demux_helper, mp4_demux}
use middleware_player_interf.Mp4.Demux.Kinds.{kind_of}
use middleware_player_interf.Mp4.Demux.Termination.{demux_helper-zero_size}
use middleware_player_interf.Mp4.Layout.{
  Entry, TrackRun, IsTrackRun, run_bytes, entries_bytes, entry_bytes, samples_of, with_header,
  TrackHeader, IsTrackHeader, header_bytes, time_bytes, box_bytes,
}
use middleware_player_interf.Mp4.Layout.Places.{Holds-whole}
use middleware_player_interf.Mp4.Layout.Run.{parse_track_fragment_run_box-Holds}
use middleware_player_interf.Common.{◌%◌, ◌≤◌, ◌⊎◌, get_elem?}
use middleware_player_interf.Mp4.Reader.Values.{Holds}
use middleware_player_interf.Mp4.Restamp.{adjust_media_decode_time}
use middleware_player_interf.Mp4.Restamp.Adjusted.{adjust_media_decode_time-tfdt}
use middleware_player_interf.Mp4.Fragment.{
  Segment, IsSegment, segment_bytes, moof_bytes, traf_bytes, sequence_bytes, after_segment,
}
use middleware_player_interf.Mp4.Fragment.Demuxed.{mp4_demux-segment_bytes}

abbrev always : ℕ → Bool
always n = true

abbrev info : InitializationHeaderInfo
info = record {
  channel_count = 0;
  samplesize = 0;
  samplerate = 0;
  object_type_id = 0;
  stream_type = 0;
  up_stream = 0;
  buffer_size = 0;
  max_bitrate = 0;
  avg_bitrate = 0;
  width = 0;
  height = 0;
  frame_count = 0;
  depth = 0;
  horizresolution = 0;
  vertresolution = 0;
  stream_format = 0;
  data_reference_index = 0;
  codec_type = 0;
  codec_data_len = 0;
  codec_data = none;
}

abbrev raw : Mp4Demux
raw = record {
  timescale = 48000;
  info = info;
  samples = [];
  moof_ptr = some 0;
  version = 0;
  flags = 0;
  base_media_decode_time = 0;
  fragment_duration = 0;
  track_id = 0;
  base_data_offset = 0;
  default_sample_description_index = 0;
  default_sample_duration = 1024;
  default_sample_size = 0;
  default_sample_flags = 0;
  creation_time = 0;
  modification_time = 0;
  duration = 0;
  rate = 0;
  volume = 0;
  matrix = [];
  width = 0;
  height = 0;
  language = 0;
}

abbrev entry : ℕ → Entry
entry size = record { duration = 0; size = size; sample_flags = 0; offset = 0 }

-- A data offset and the sizes of two samples.
abbrev run : TrackRun
run = record {
  version = 0;
  flags = 0x0201;
  data_offset = 100;
  first_sample_flags = 0;
  entries = entry 3 ∷ entry 5 ∷ [];
}

run-IsTrackRun : IsTrackRun run
run-IsTrackRun = record {
  flags_fit = omega arith;
  count_fits = omega arith;
  offset_fits = omega arith;
  first_fits = omega arith;
  entries_fit = (
    (omega arith, omega arith, omega arith, omega arith),
    ((omega arith, omega arith, omega arith, omega arith), tt),
  );
  has_offset = refl;
}

parse_track_fragment_run_box-Holds_example :
    parse_track_fragment_run_box (run_bytes run) raw 0
    ≡ ok (
      record raw {
        version = 0;
        flags = 0x0201;
        samples =
            raw.samples
            ++ samples_of
                (with_header 0 0x0201 raw)
                (pos 0 +ℤ signed32 100)
                raw.base_media_decode_time
                run.entries;
      },
      0 + length (run_bytes run),
    )
parse_track_fragment_run_box-Holds_example =
    parse_track_fragment_run_box-Holds (run_bytes run) raw run 0 0 run-IsTrackRun refl
      (Holds-whole (run_bytes run))

-- A track id and a default duration.
abbrev header : TrackHeader
header = record {
  version = 0;
  flags = 0x00008;
  track_id = 1;
  base_data_offset = 0;
  description_index = 0;
  default_duration = 1024;
  default_size = 0;
  default_flags = 0;
}

header-IsTrackHeader : IsTrackHeader header
header-IsTrackHeader = record {
  flags_fit = omega arith;
  id_fits = omega arith;
  offset_fits = omega arith;
  index_fits = omega arith;
  duration_fits = omega arith;
  size_fits = omega arith;
  sample_flags_fit = omega arith;
}

abbrev segment : Segment
segment = record {
  sequence_version = 0;
  sequence_flags = 0;
  sequence_number = 1;
  header = header;
  time_version = 1;
  time_flags = 0;
  time = 96000;
  run = run;
  media = 1 ∷ 2 ∷ 3 ∷ 4 ∷ 5 ∷ 6 ∷ 7 ∷ 8 ∷ [];
}

segment_size : length (segment_bytes segment) < 2 ^ 32
unfolding segment_bytes box_bytes moof_bytes sequence_bytes traf_bytes header_bytes time_bytes
    run_bytes entries_bytes entry_bytes
segment_size = omega arith

segment-IsSegment : IsSegment segment
segment-IsSegment = record {
  sequence_flags_fit = omega arith;
  sequence_fits = omega arith;
  header_fits = header-IsTrackHeader;
  time_flags_fit = omega arith;
  time_fits = omega arith;
  run_fits = run-IsTrackRun;
  size_fits = segment_size;
}

mp4_demux-segment_bytes_example :
    mp4_demux (segment_bytes segment) always 6 raw 48000
    ≡ ok (after_segment segment 0 (init_demux raw 48000), length (segment_bytes segment))
mp4_demux-segment_bytes_example =
    mp4_demux-segment_bytes always 0 segment raw 48000 segment-IsSegment

-- The header of an `mdat` that runs to the end of the file.
abbrev open_ended : List ℕ
open_ended = big_endian 4 0 ++ big_endian 4 0x6d646174

demux_helper-zero_size_example : demux_helper open_ended always 100 raw 8 0 ≡ err stuck
unfolding kind_of four_cc
demux_helper-zero_size_example =
    demux_helper-zero_size open_ended always 100 raw 8 0 0x6d646174 (Holds-whole open_ended)
      (omega arith) refl (omega arith)

-- A decode time box, moved by 4000.
abbrev time_box : List ℕ
time_box = box_bytes (four_cc "tfdt") (time_bytes 1 0 96000)

adjust_media_decode_time-tfdt_example :
    (after : List ℕ) × (adjust_media_decode_time 1 4000 time_box 20 0
      ≡ ok (after, (96000 + 4000) % 2 ^ 64))
    × Holds after 0 (box_bytes (four_cc "tfdt") (time_bytes 1 0 ((96000 + 4000) % 2 ^ 64)))
    × ((j : ℕ) → (j < 0 + 12) ⊎ (0 + 12 + 8 ≤ j) → get_elem? after j ≡ get_elem? time_box j)
adjust_media_decode_time-tfdt_example =
    adjust_media_decode_time-tfdt 0 4000 1 0 96000 20 0 time_box (omega arith) (omega arith)
      (omega arith) (Holds-whole time_box)
