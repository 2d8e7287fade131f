-- ===== src/Mp4/Fragment/Parts.antt =====
-- The boxes of a segment: their types, the cases of the switch that these select, and their sizes.
use middleware_player_interf.Common.{
  ℕ, ◌+◌, ◌-◌, ◌^◌, ◌<◌, ◌≡◌, refl, ap, List, ◌++◌, Bool, some, arith, length, length-append,
}
use middleware_player_interf.Mp4.Reader.{ok, M}
use middleware_player_interf.Mp4.State.{Mp4Demux}
use middleware_player_interf.Mp4.Boxes.{
  parse_movie_fragment_header_box, parse_track_fragment_header_box,
  parse_track_fragment_base_media_decode_time_box, parse_track_fragment_run_box,
}
use middleware_player_interf.Mp4.Codec.{four_cc}
use middleware_player_interf.Mp4.Demux.{parse_box}
use middleware_player_interf.Mp4.Demux.Kinds.{
  kind_of, movie_fragment_header, track_fragment_header, track_fragment_run, track_fragment_time,
  movie_fragment, container, ignored,
}
use middleware_player_interf.Mp4.Demux.Walk.{length-box_bytes}
use middleware_player_interf.Mp4.Layout.{header_bytes, time_bytes, run_bytes, box_bytes}
use middleware_player_interf.Mp4.Fragment.{
  Segment, sequence_bytes, traf_bytes, moof_bytes, segment_bytes,
}

-- The types of the boxes, and the cases of the switch that they select.
kind_tfhd : kind_of (four_cc "tfhd") ≡ track_fragment_header
unfolding kind_of four_cc
kind_tfhd = refl

kind_tfdt : kind_of (four_cc "tfdt") ≡ track_fragment_time
unfolding kind_of four_cc
kind_tfdt = refl

kind_trun : kind_of (four_cc "trun") ≡ track_fragment_run
unfolding kind_of four_cc
kind_trun = refl

kind_mfhd : kind_of (four_cc "mfhd") ≡ movie_fragment_header
unfolding kind_of four_cc
kind_mfhd = refl

kind_traf : kind_of (four_cc "traf") ≡ container
unfolding kind_of four_cc
kind_traf = refl

kind_moof : kind_of (four_cc "moof") ≡ movie_fragment
unfolding kind_of four_cc
kind_moof = refl

kind_mdat : kind_of (four_cc "mdat") ≡ ignored
unfolding kind_of four_cc
kind_mdat = refl

pub types_fit :
    (four_cc "tfhd" < 2 ^ 32)
    × (four_cc "tfdt" < 2 ^ 32)
    × (four_cc "trun" < 2 ^ 32)
    × (four_cc "mfhd" < 2 ^ 32)
    × (four_cc "traf" < 2 ^ 32)
    × (four_cc "moof" < 2 ^ 32)
    × (four_cc "mdat" < 2 ^ 32)
unfolding four_cc
types_fit =
    (omega arith, omega arith, omega arith, omega arith, omega arith, omega arith, omega arith)

pub length-traf_bytes :
    (g : Segment)
    → length (traf_bytes g)
      ≡ (8 + length (header_bytes g.header))
        + ((8 + length (time_bytes g.time_version g.time_flags g.time))
            + (8 + length (run_bytes g.run)))
unfolding traf_bytes
length-traf_bytes g =
    let a = box_bytes (four_cc "tfhd") (header_bytes g.header) in
    let b = box_bytes (four_cc "tfdt") (time_bytes g.time_version g.time_flags g.time) in
    let c = box_bytes (four_cc "trun") (run_bytes g.run) in
    omega (
      arith,
      length-append a (b ++ c),
      length-append b c,
      length-box_bytes (four_cc "tfhd") (header_bytes g.header),
      length-box_bytes (four_cc "tfdt") (time_bytes g.time_version g.time_flags g.time),
      length-box_bytes (four_cc "trun") (run_bytes g.run),
    )

pub length-moof_bytes :
    (g : Segment)
    → length (moof_bytes g) ≡ (8 + length (sequence_bytes g)) + (8 + length (traf_bytes g))
unfolding moof_bytes
length-moof_bytes g =
    let a = box_bytes (four_cc "mfhd") (sequence_bytes g) in
    let b = box_bytes (four_cc "traf") (traf_bytes g) in
    omega (
      arith,
      length-append a b,
      length-box_bytes (four_cc "mfhd") (sequence_bytes g),
      length-box_bytes (four_cc "traf") (traf_bytes g),
    )

pub length-segment_bytes :
    (g : Segment) → length (segment_bytes g) ≡ (8 + length (moof_bytes g)) + (8 + length g.media)
unfolding segment_bytes
length-segment_bytes g =
    let a = box_bytes (four_cc "moof") (moof_bytes g) in
    let b = box_bytes (four_cc "mdat") g.media in
    omega (
      arith,
      length-append a b,
      length-box_bytes (four_cc "moof") (moof_bytes g),
      length-box_bytes (four_cc "mdat") g.media,
    )

module _ (mem : List ℕ) (malloc : ℕ → Bool) where
  pub parse_tfhd :
      (children : Mp4Demux → ℕ → M Mp4Demux) (type next p : ℕ) (s : Mp4Demux)
      → parse_box mem malloc children (kind_of (four_cc "tfhd")) type next s p
        ≡ parse_track_fragment_header_box mem s p
  unfolding parse_box
  parse_tfhd children type next p s = rw kind_tfhd

  pub parse_tfdt :
      (children : Mp4Demux → ℕ → M Mp4Demux) (type next p : ℕ) (s : Mp4Demux)
      → parse_box mem malloc children (kind_of (four_cc "tfdt")) type next s p
        ≡ parse_track_fragment_base_media_decode_time_box mem s p
  unfolding parse_box
  parse_tfdt children type next p s = rw kind_tfdt

  pub parse_trun :
      (children : Mp4Demux → ℕ → M Mp4Demux) (type next p : ℕ) (s : Mp4Demux)
      → parse_box mem malloc children (kind_of (four_cc "trun")) type next s p
        ≡ parse_track_fragment_run_box mem s p
  unfolding parse_box
  parse_trun children type next p s = rw kind_trun

  pub parse_mfhd :
      (children : Mp4Demux → ℕ → M Mp4Demux) (type next p : ℕ) (s : Mp4Demux)
      → parse_box mem malloc children (kind_of (four_cc "mfhd")) type next s p
        ≡ parse_movie_fragment_header_box mem s p
  unfolding parse_box
  parse_mfhd children type next p s = rw kind_mfhd

  pub parse_traf :
      (children : Mp4Demux → ℕ → M Mp4Demux) (type next p : ℕ) (s : Mp4Demux)
      → parse_box mem malloc children (kind_of (four_cc "traf")) type next s p ≡ children s next p
  unfolding parse_box
  parse_traf children type next p s = rw kind_traf

  pub parse_moof :
      (children : Mp4Demux → ℕ → M Mp4Demux) (type next p : ℕ) (s : Mp4Demux)
      → parse_box mem malloc children (kind_of (four_cc "moof")) type next s (p + 4 + 4)
        ≡ children (record s { moof_ptr = some p }) next (p + 4 + 4)
  unfolding parse_box
  parse_moof children type next p s =
      let e : p + 4 + 4 - 8 ≡ p = omega arith in
      rw kind_moof (ap (λ (m : ℕ). children (record s { moof_ptr = some m }) next (p + 4 + 4)) e)

  pub parse_mdat :
      (children : Mp4Demux → ℕ → M Mp4Demux) (type next p : ℕ) (s : Mp4Demux)
      → parse_box mem malloc children (kind_of (four_cc "mdat")) type next s p ≡ ok (s, p)
  unfolding parse_box
  parse_mdat children type next p s = rw kind_mdat
