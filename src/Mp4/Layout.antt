-- ===== src/Mp4/Layout.antt =====
-- Movie fragments as a muxer writes them (ISO/IEC 14496-12): the bytes of the boxes that carry samples,
-- and the samples that they stand for. Nothing here is taken from the parser.
pub mod Places
pub mod Run
pub mod Fields
use middleware_player_interf.Common.{
  ℕ, zero, suc, ◌+◌, ◌%◌, ◌^◌, ◌<◌, ◌≡◌, List, [], ◌∷◌, ◌++◌, Bool, true, false, Option, none, some,
  length, All, if◌then◌else◌,
}
use middleware_player_interf.Common.Int.{ℤ, pos, ◌+ℤ◌, signed32}
use middleware_player_interf.Mp4.Reader.{has_flag}
use middleware_player_interf.Mp4.Reader.Values.{big_endian}
use middleware_player_interf.Mp4.State.{Mp4Sample, Mp4Demux, quotient, zero_seconds}
use middleware_player_interf.Mp4.Boxes.{sign_extend, time_size}
use middleware_player_interf.Mp4.Codec.{four_cc}

-- An entry of a track run. A field is written where the flags of the run say so.
pub record Entry : Type 0 where
  pub duration : ℕ
  pub size : ℕ
  pub sample_flags : ℕ
  pub offset : ℕ

abbrev pub FitsU32 : Entry → Type 0
FitsU32 e =
    (e.duration < 2 ^ 32) × (e.size < 2 ^ 32) × (e.sample_flags < 2 ^ 32) × (e.offset < 2 ^ 32)

abbrev pub field_if : Bool → ℕ → List ℕ
field_if true v = big_endian 4 v
field_if false v = []

unfoldable pub entry_bytes : ℕ → Entry → List ℕ
entry_bytes flags e =
    field_if (has_flag flags 0x0100) e.duration
    ++ (field_if (has_flag flags 0x0200) e.size
        ++ (field_if (has_flag flags 0x0400) e.sample_flags
            ++ field_if (has_flag flags 0x0800) e.offset))

unfoldable pub entries_bytes : ℕ → List Entry → List ℕ
entries_bytes flags [] = []
entries_bytes flags (e ∷ es) = entry_bytes flags e ++ entries_bytes flags es

abbrev pub duration_of : Mp4Demux → Entry → ℕ
duration_of s e = if has_flag s.flags 0x0100 then e.duration else s.default_sample_duration

abbrev pub size_of : Mp4Demux → Entry → ℕ
size_of s e = if has_flag s.flags 0x0200 then e.size else s.default_sample_size

abbrev pub offset_of : Mp4Demux → Entry → ℕ
offset_of s e = if has_flag s.flags 0x0800 then e.offset else 0

-- The sample of an entry that starts at a place and a time.
abbrev pub sample_of : Mp4Demux → ℤ → ℕ → Entry → Mp4Sample
sample_of s data_ptr dts e = record {
  ptr = data_ptr;
  len = size_of s e;
  pts = quotient ((dts + sign_extend (offset_of s e)) % 2 ^ 64) s.timescale;
  dts = quotient dts s.timescale;
  duration =
      if has_flag s.flags 0x0100 then quotient (duration_of s e) s.timescale else zero_seconds;
}

-- The samples of a run: each starts where the one before it ends.
unfoldable pub samples_of : Mp4Demux → ℤ → ℕ → List Entry → List Mp4Sample
samples_of s data_ptr dts [] = []
samples_of s data_ptr dts (e ∷ es) =
    sample_of s data_ptr dts e
    ∷ samples_of s (data_ptr +ℤ pos (size_of s e)) ((dts + duration_of s e) % 2 ^ 64) es

-- A track run: its header, the number of entries, the data offset, the flags of the first sample where
-- they are announced, and the entries.
pub record TrackRun : Type 0 where
  pub version : ℕ
  pub flags : ℕ
  pub data_offset : ℕ
  pub first_sample_flags : ℕ
  pub entries : List Entry

pub record IsTrackRun (r : TrackRun) : Type 0 where
  pub flags_fit : r.flags < 2 ^ 24
  pub count_fits : length r.entries < 2 ^ 32
  pub offset_fits : r.data_offset < 2 ^ 32
  pub first_fits : r.first_sample_flags < 2 ^ 32
  pub entries_fit : All FitsU32 r.entries
  pub has_offset : has_flag r.flags 0x0001 ≡ true

unfoldable pub run_bytes : TrackRun → List ℕ
run_bytes r =
    (r.version ∷ big_endian 3 r.flags)
    ++ (big_endian 4 (length r.entries)
        ++ (big_endian 4 r.data_offset
            ++ (field_if (has_flag r.flags 0x0004) r.first_sample_flags
                ++ entries_bytes r.flags r.entries)))

-- The state once the header of a full box is read.
abbrev pub with_header : ℕ → ℕ → Mp4Demux → Mp4Demux
with_header version flags s = record s { version = version; flags = flags }

-- A track fragment header, with a field for each flag.
pub record TrackHeader : Type 0 where
  pub version : ℕ
  pub flags : ℕ
  pub track_id : ℕ
  pub base_data_offset : ℕ
  pub description_index : ℕ
  pub default_duration : ℕ
  pub default_size : ℕ
  pub default_flags : ℕ

pub record IsTrackHeader (h : TrackHeader) : Type 0 where
  pub flags_fit : h.flags < 2 ^ 24
  pub id_fits : h.track_id < 2 ^ 32
  pub offset_fits : h.base_data_offset < 2 ^ 64
  pub index_fits : h.description_index < 2 ^ 32
  pub duration_fits : h.default_duration < 2 ^ 32
  pub size_fits : h.default_size < 2 ^ 32
  pub sample_flags_fit : h.default_flags < 2 ^ 32

abbrev pub wide_if : Bool → ℕ → List ℕ
wide_if true v = big_endian 8 v
wide_if false v = []

unfoldable pub header_bytes : TrackHeader → List ℕ
header_bytes h =
    (h.version ∷ big_endian 3 h.flags)
    ++ (big_endian 4 h.track_id
        ++ (wide_if (has_flag h.flags 0x00001) h.base_data_offset
            ++ (field_if (has_flag h.flags 0x00002) h.description_index
                ++ (field_if (has_flag h.flags 0x00008) h.default_duration
                    ++ (field_if (has_flag h.flags 0x00010) h.default_size
                        ++ field_if (has_flag h.flags 0x00020) h.default_flags)))))

-- The members after a track fragment header: a field that the flags do not announce stays.
unfoldable pub with_track_header : TrackHeader → Mp4Demux → Mp4Demux
with_track_header h s = record s {
  version = h.version;
  flags = h.flags;
  track_id = h.track_id;
  base_data_offset = if has_flag h.flags 0x00001 then h.base_data_offset else s.base_data_offset;
  default_sample_description_index =
      if has_flag h.flags 0x00002 then h.description_index else s.default_sample_description_index;
  default_sample_duration =
      if has_flag h.flags 0x00008 then h.default_duration else s.default_sample_duration;
  default_sample_size = if has_flag h.flags 0x00010 then h.default_size else s.default_sample_size;
  default_sample_flags =
      if has_flag h.flags 0x00020 then h.default_flags else s.default_sample_flags;
}

-- A decode time box, of either version.
unfoldable pub time_bytes : ℕ → ℕ → ℕ → List ℕ
time_bytes version flags time =
    (version ∷ big_endian 3 flags) ++ big_endian (time_size version) time

-- A box: its size, its type, and its payload.
unfoldable pub box_bytes : ℕ → List ℕ → List ℕ
box_bytes type payload = big_endian 4 (8 + length payload) ++ (big_endian 4 type ++ payload)
