-- ===== src/Mp4/Demux/Kinds.antt =====
-- The cases of the switch of `DemuxHelper` on the type of a box.
use middleware_player_interf.Common.{ℕ, List, [], ◌∷◌, ◌==◌, if◌then◌else◌}
use Prim.Native.String.{String}
use middleware_player_interf.Mp4.Codec.{four_cc}

pub data Kind : Type 0 where
  stream_format codec_configuration movie_fragment_header track_fragment_header : Kind
  track_fragment_run track_fragment_time movie_header movie_extends_header track_extends : Kind
  track_header media_header sample_description movie_fragment container ignored unknown : Kind

-- The labels of each case.
abbrev labels : List (String × Kind)
labels =
    ("hev1", stream_format)
    ∷ ("hvc1", stream_format)
    ∷ ("avc1", stream_format)
    ∷ ("mp4a", stream_format)
    ∷ ("ec-3", stream_format)
    ∷ ("hvcC", codec_configuration)
    ∷ ("dec3", codec_configuration)
    ∷ ("avcC", codec_configuration)
    ∷ ("esds", codec_configuration)
    ∷ ("mfhd", movie_fragment_header)
    ∷ ("tfhd", track_fragment_header)
    ∷ ("trun", track_fragment_run)
    ∷ ("tfdt", track_fragment_time)
    ∷ ("mvhd", movie_header)
    ∷ ("mehd", movie_extends_header)
    ∷ ("trex", track_extends)
    ∷ ("tkhd", track_header)
    ∷ ("mdhd", media_header)
    ∷ ("stsd", sample_description)
    ∷ ("moof", movie_fragment)
    ∷ ("traf", container)
    ∷ ("moov", container)
    ∷ ("trak", container)
    ∷ ("minf", container)
    ∷ ("dinf", container)
    ∷ ("mvex", container)
    ∷ ("mdia", container)
    ∷ ("stbl", container)
    ∷ ("ftyp", ignored)
    ∷ ("hdlr", ignored)
    ∷ ("vmhd", ignored)
    ∷ ("smhd", ignored)
    ∷ ("dref", ignored)
    ∷ ("stts", ignored)
    ∷ ("stsc", ignored)
    ∷ ("stsz", ignored)
    ∷ ("stco", ignored)
    ∷ ("stss", ignored)
    ∷ ("prft", ignored)
    ∷ ("edts", ignored)
    ∷ ("fiel", ignored)
    ∷ ("colr", ignored)
    ∷ ("pasp", ignored)
    ∷ ("btrt", ignored)
    ∷ ("styp", ignored)
    ∷ ("sidx", ignored)
    ∷ ("udta", ignored)
    ∷ ("mdat", ignored)
    ∷ []

find_kind : ℕ → List (String × Kind) → Kind
unfolding four_cc
find_kind type [] = unknown
find_kind type ((label, k) ∷ rest) = if type == four_cc label then k else find_kind type rest

unfoldable pub kind_of : ℕ → Kind
unfolding find_kind
kind_of type = find_kind type labels
