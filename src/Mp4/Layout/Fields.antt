-- ===== src/Mp4/Layout/Fields.antt =====
-- The boxes of a track fragment with fixed fields, on their layouts.
use middleware_player_interf.Common.{
  ℕ, ◌+◌, ◌^◌, ◌<◌, ◌≤◌, ◌≡◌, ◌∙◌, List, ◌∷◌, ◌++◌, arith, length, length-append,
}
use middleware_player_interf.Mp4.Reader.{
  ok, read_u32, read_u64, read_bytes, read_if, has_flag, read_header,
}
use middleware_player_interf.Mp4.Reader.Values.{
  Holds, big_endian, bind-ok, ok_at, read_u32-Holds, read_bytes-Holds, read_header-Holds,
  length-big_endian,
}
use middleware_player_interf.Mp4.State.{Mp4Demux}
use middleware_player_interf.Mp4.Boxes.{
  parse_track_fragment_header_box, parse_track_fragment_base_media_decode_time_box, time_size,
  parse_movie_fragment_header_box,
}
use middleware_player_interf.Mp4.Layout.{
  field_if, wide_if, TrackHeader, IsTrackHeader, header_bytes, with_track_header, time_bytes,
}
use middleware_player_interf.Mp4.Layout.Places.{Holds-append, read_if-Holds, read_wide_if-Holds}

time_size-le : (version : ℕ) → time_size version ≤ 8
time_size-le version = ground arith

module _ (mem : List ℕ) where
  -- On the bytes of a track fragment header whose fields fit their widths the parser takes over the fields that the flags announce,
  -- and leaves the other members as they were.
  pub parse_track_fragment_header_box-Holds :
      (s : Mp4Demux) (h : TrackHeader) (p : ℕ)
      → IsTrackHeader h
      → Holds mem p (header_bytes h)
      → parse_track_fragment_header_box mem s p
        ≡ ok (with_track_header h s, p + length (header_bytes h))
  unfolding parse_track_fragment_header_box header_bytes with_track_header
  parse_track_fragment_header_box-Holds s h p v at =
      let x = h.version ∷ big_endian 3 h.flags in
      let i = big_endian 4 h.track_id in
      let a = wide_if (has_flag h.flags 0x00001) h.base_data_offset in
      let b = field_if (has_flag h.flags 0x00002) h.description_index in
      let c = field_if (has_flag h.flags 0x00008) h.default_duration in
      let d = field_if (has_flag h.flags 0x00010) h.default_size in
      let e = field_if (has_flag h.flags 0x00020) h.default_flags in
      let (hx, h1) = Holds-append mem p x (i ++ (a ++ (b ++ (c ++ (d ++ e))))) at in
      let (hi, h2) = Holds-append mem (p + 4) i (a ++ (b ++ (c ++ (d ++ e)))) h1 in
      let (ha, h3) = Holds-append mem (p + 4 + 4) a (b ++ (c ++ (d ++ e))) h2 in
      let (hb, h4) = Holds-append mem (p + 4 + 4 + length a) b (c ++ (d ++ e)) h3 in
      let (hc, h5) = Holds-append mem (p + 4 + 4 + length a + length b) c (d ++ e) h4 in
      let (hd, he) = Holds-append mem (p + 4 + 4 + length a + length b + length c) d e h5 in
      bind-ok (read_header mem) _ (read_header-Holds mem h.version h.flags p hx v.flags_fit)
      ∙ bind-ok (read_u32 mem) _ (read_u32-Holds mem h.track_id _ hi v.id_fits)
      ∙ bind-ok (read_if (has_flag h.flags 0x00001) (read_u64 mem) s.base_data_offset) _ (
          read_wide_if-Holds mem (has_flag h.flags 0x00001) h.base_data_offset _ _ ha v.offset_fits)
      ∙ bind-ok
          (read_if (has_flag h.flags 0x00002) (read_u32 mem) s.default_sample_description_index) _
          (read_if-Holds mem (has_flag h.flags 0x00002) h.description_index _ _ hb v.index_fits)
      ∙ bind-ok (read_if (has_flag h.flags 0x00008) (read_u32 mem) s.default_sample_duration) _
          (read_if-Holds mem (has_flag h.flags 0x00008) h.default_duration _ _ hc v.duration_fits)
      ∙ bind-ok (read_if (has_flag h.flags 0x00010) (read_u32 mem) s.default_sample_size) _
          (read_if-Holds mem (has_flag h.flags 0x00010) h.default_size _ _ hd v.size_fits)
      ∙ bind-ok (read_if (has_flag h.flags 0x00020) (read_u32 mem) s.default_sample_flags) _
          (read_if-Holds mem (has_flag h.flags 0x00020) h.default_flags _ _ he v.sample_flags_fit)
      ∙ ok_at _ (p + 4 + 4 + length a + length b + length c + length d + length e)
          (p + length (x ++ (i ++ (a ++ (b ++ (c ++ (d ++ e)))))))
          (omega (
            arith,
            length-append a (b ++ (c ++ (d ++ e))),
            length-append b (c ++ (d ++ e)),
            length-append c (d ++ e),
            length-append d e,
          ))

  -- On the bytes of a decode time box, of version 1 or any other, the parser takes the time over.
  pub parse_track_fragment_base_media_decode_time_box-Holds :
      (s : Mp4Demux) (version flags time p : ℕ)
      → flags < 2 ^ 24
      → time < 256 ^ time_size version
      → Holds mem p (time_bytes version flags time)
      → parse_track_fragment_base_media_decode_time_box mem s p
        ≡ ok (
          record s { version = version; flags = flags; base_media_decode_time = time },
          p + length (time_bytes version flags time),
        )
  unfolding parse_track_fragment_base_media_decode_time_box time_bytes
  parse_track_fragment_base_media_decode_time_box-Holds s version flags time p f t h =
      let n = time_size version in
      let (hx, ht) = Holds-append mem p (version ∷ big_endian 3 flags) (big_endian n time) h in
      bind-ok (read_header mem) _ (read_header-Holds mem version flags p hx f)
      ∙ bind-ok (read_bytes mem n) _
          (read_bytes-Holds mem n time (p + 4) ht (time_size-le version) t)
      ∙ ok_at _ (p + 4 + n) (p + length ((version ∷ big_endian 3 flags) ++ big_endian n time))
          (omega (arith, length-big_endian n time))

  pub parse_movie_fragment_header_box-Holds :
      (s : Mp4Demux) (version flags sequence p : ℕ)
      → flags < 2 ^ 24
      → sequence < 2 ^ 32
      → Holds mem p ((version ∷ big_endian 3 flags) ++ big_endian 4 sequence)
      → parse_movie_fragment_header_box mem s p
        ≡ ok (record s { version = version; flags = flags }, p + 4 + 4)
  unfolding parse_movie_fragment_header_box
  parse_movie_fragment_header_box-Holds s version flags sequence p f q h =
      let (hx, hs) = Holds-append mem p (version ∷ big_endian 3 flags) (big_endian 4 sequence) h in
      bind-ok (read_header mem) _ (read_header-Holds mem version flags p hx f)
      ∙ bind-ok (read_u32 mem) _ (read_u32-Holds mem sequence (p + 4) hs q)
