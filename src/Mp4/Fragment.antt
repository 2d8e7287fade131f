-- ===== src/Mp4/Fragment.antt =====
-- A segment with one movie fragment, as a muxer writes it, and the members of Mp4Demux that it stands
-- for.
pub mod Parts
pub mod Demuxed
use middleware_player_interf.Common.{ℕ, ◌+◌, ◌^◌, ◌<◌, List, ◌∷◌, ◌++◌, Option, some, length}
use middleware_player_interf.Common.Int.{ℤ, pos, ◌+ℤ◌, signed32}
use middleware_player_interf.Mp4.Reader.Values.{big_endian}
use middleware_player_interf.Mp4.State.{Mp4Demux}
use middleware_player_interf.Mp4.Boxes.{time_size}
use middleware_player_interf.Mp4.Codec.{four_cc}
use middleware_player_interf.Mp4.Layout.{
  TrackRun, IsTrackRun, run_bytes, TrackHeader, IsTrackHeader, header_bytes, with_track_header,
  time_bytes, box_bytes, samples_of,
}

-- A segment with one track fragment: `moof` with `mfhd` and `traf`, and `traf` with `tfhd`, `tfdt` and
-- `trun`; then `mdat`.
pub record Segment : Type 0 where
  pub sequence_version : ℕ
  pub sequence_flags : ℕ
  pub sequence_number : ℕ
  pub header : TrackHeader
  pub time_version : ℕ
  pub time_flags : ℕ
  pub time : ℕ
  pub run : TrackRun
  pub media : List ℕ

unfoldable pub sequence_bytes : Segment → List ℕ
sequence_bytes g =
    (g.sequence_version ∷ big_endian 3 g.sequence_flags) ++ big_endian 4 g.sequence_number

unfoldable pub traf_bytes : Segment → List ℕ
traf_bytes g =
    box_bytes (four_cc "tfhd") (header_bytes g.header)
    ++ (box_bytes (four_cc "tfdt") (time_bytes g.time_version g.time_flags g.time)
        ++ box_bytes (four_cc "trun") (run_bytes g.run))

unfoldable pub moof_bytes : Segment → List ℕ
moof_bytes g =
    box_bytes (four_cc "mfhd") (sequence_bytes g) ++ box_bytes (four_cc "traf") (traf_bytes g)

unfoldable pub segment_bytes : Segment → List ℕ
segment_bytes g = box_bytes (four_cc "moof") (moof_bytes g) ++ box_bytes (four_cc "mdat") g.media

pub record IsSegment (g : Segment) : Type 0 where
  pub sequence_flags_fit : g.sequence_flags < 2 ^ 24
  pub sequence_fits : g.sequence_number < 2 ^ 32
  pub header_fits : IsTrackHeader g.header
  pub time_flags_fit : g.time_flags < 2 ^ 24
  pub time_fits : g.time < 256 ^ time_size g.time_version
  pub run_fits : IsTrackRun g.run
  pub size_fits : length (segment_bytes g) < 2 ^ 32

-- The members after a track fragment whose movie fragment starts at `moof`: the fields of its header,
-- the decode time, and the samples of the run behind those that are there.
unfoldable pub after_traf : Segment → ℕ → Mp4Demux → Mp4Demux
after_traf g moof s =
    let t = record (with_track_header g.header s) {
      version = g.run.version;
      flags = g.run.flags;
      base_media_decode_time = g.time;
    } in
    record t {
      samples =
          s.samples ++ samples_of t (pos moof +ℤ signed32 g.run.data_offset) g.time g.run.entries;
    }

-- The members after a segment that starts at `moof`.
unfoldable pub after_segment : Segment → ℕ → Mp4Demux → Mp4Demux
after_segment g moof s =
    after_traf g moof
      (record s { version = g.sequence_version; flags = g.sequence_flags; moof_ptr = some moof })
