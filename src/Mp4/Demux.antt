-- ===== src/Mp4/Demux.antt =====
-- `DemuxHelper`, the constructor and the accessors of Mp4Demux. The argument `indent`, which only
-- serves the debug output, is left out.
pub mod Kinds
pub mod Walk
pub mod Termination
use middleware_player_interf.Common.{
  ℕ, zero, suc, ◌+◌, ◌-◌, Bool, true, false, List, [], ◌∷◌, Option, none, some, ltb, ◌==◌, length,
  get_elem?,
}
use middleware_player_interf.Mp4.Reader.{
  Result, Error, ok, err, fault, assert_failed, stuck, M, pure, ◌>>=◌, ◌>>◌, check, read_u32,
  read_header,
}
use middleware_player_interf.Mp4.State.{Mp4Sample, Mp4Demux, init_demux, InitializationHeaderInfo}
use middleware_player_interf.Mp4.Boxes.{
  parse_movie_fragment_header_box, parse_track_fragment_header_box,
  parse_track_fragment_base_media_decode_time_box, parse_track_fragment_run_box,
  parse_movie_header_box, parse_movie_extends_header, parse_track_extends_box, parse_track_header,
  parse_media_header_box,
}
use middleware_player_interf.Mp4.Codec.{parse_codec_configuration, parse_stream_format}
use Kinds.{
  Kind, stream_format, codec_configuration, movie_fragment_header, track_fragment_header,
  track_fragment_run, track_fragment_time, movie_header, movie_extends_header, track_extends,
  track_header, media_header, sample_description, movie_fragment, container, ignored, unknown,
  kind_of,
}

module _ (mem : List ℕ) (malloc : ℕ → Bool) where
  -- The cases of the switch; `children` is the walk of `DemuxHelper` up to an end, and `next` the end
  -- of the box.
  unfoldable pub parse_box : (Mp4Demux → ℕ → M Mp4Demux) → Kind → ℕ → ℕ → Mp4Demux → M Mp4Demux
  parse_box children stream_format type next s = do
    info ← parse_stream_format mem malloc type s.info
    children (record s { info = info }) next
  parse_box children codec_configuration type next s = do
    info ← parse_codec_configuration mem malloc type next s.info
    pure (record s { info = info })
  parse_box children movie_fragment_header type next s = parse_movie_fragment_header_box mem s
  parse_box children track_fragment_header type next s = parse_track_fragment_header_box mem s
  parse_box children track_fragment_run type next s = parse_track_fragment_run_box mem s
  parse_box children track_fragment_time type next s =
      parse_track_fragment_base_media_decode_time_box mem s
  parse_box children movie_header type next s = parse_movie_header_box mem s
  parse_box children movie_extends_header type next s = parse_movie_extends_header mem s
  parse_box children track_extends type next s = parse_track_extends_box mem s
  parse_box children track_header type next s = parse_track_header mem s
  parse_box children media_header type next s = parse_media_header_box mem s
  parse_box children sample_description type next s = do
    (version, flags) ← read_header mem
    count ← read_u32 mem
    check (count == 1)
    children (record s { version = version; flags = flags }) next
  parse_box children movie_fragment type next s =
      λ p. children (record s { moof_ptr = some (p - 8) }) next p
  parse_box children container type next s = children s next
  parse_box children ignored type next s = pure s
  parse_box children unknown type next s = pure s

  -- One round of the loop, from the start of a box to its end.
  unfoldable pub demux_box : (Mp4Demux → ℕ → M Mp4Demux) → Mp4Demux → M Mp4Demux
  unfolding parse_box
  demux_box children s p =
      (do
        size ← read_u32 mem
        type ← read_u32 mem
        s' ← parse_box children (kind_of type) type (p + size) s
        (λ q. ok (s', p + size)))
        p

  -- `DemuxHelper`, on fuel.
  unfoldable pub demux_helper : ℕ → Mp4Demux → ℕ → M Mp4Demux
  unfolding demux_box
  demux_helper zero s fin p = elim (ltb p fin) [ false ↦ ok (s, p) | true ↦ err stuck ]
  demux_helper (suc fuel) s fin p = elim (ltb p fin) [
    | false ↦ ok (s, p)
    | true ↦ (do s' ← demux_box (demux_helper fuel) s; demux_helper fuel s' fin) p
  ]

  -- The constructor, with the whole memory as the buffer.
  unfoldable pub mp4_demux : ℕ → Mp4Demux → ℕ → Result (Mp4Demux × ℕ)
  unfolding demux_helper
  mp4_demux fuel raw timescale = demux_helper fuel (init_demux raw timescale) (length mem) 0

-- `count`, and the sample behind `getPtr`, `getLen`, `getPts`, `getDts` and `getDuration`: `none` is an
-- index out of range.
unfoldable pub count : Mp4Demux → ℕ
count s = length s.samples

unfoldable pub sample_at : Mp4Demux → ℕ → Option Mp4Sample
sample_at s part = get_elem? s.samples part
