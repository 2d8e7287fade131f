-- ===== src/Mp4/Fragment/Demuxed.antt =====
-- The demultiplexer on a whole segment.
use middleware_player_interf.Common.{
  ℕ, suc, ◌+◌, ◌^◌, ◌<◌, ◌≡◌, refl, ◌∙◌, List, ◌++◌, Bool, some, arith, length,
}
use middleware_player_interf.Mp4.Reader.{ok}
use middleware_player_interf.Mp4.Reader.Values.{Holds, ok_at}
use middleware_player_interf.Mp4.State.{Mp4Demux, init_demux}
use middleware_player_interf.Mp4.Codec.{four_cc}
use middleware_player_interf.Mp4.Demux.{demux_helper, mp4_demux}
use middleware_player_interf.Mp4.Demux.Walk.{
  length-box_bytes, box_payload, demux_helper-end, demux_helper-box,
}
use middleware_player_interf.Mp4.Layout.{
  header_bytes, time_bytes, run_bytes, box_bytes, with_track_header,
}
use middleware_player_interf.Mp4.Layout.Places.{Holds-append, Holds-at, Holds-whole}
use middleware_player_interf.Mp4.Layout.Run.{parse_track_fragment_run_box-Holds}
use middleware_player_interf.Mp4.Layout.Fields.{
  parse_track_fragment_header_box-Holds, parse_track_fragment_base_media_decode_time_box-Holds,
  parse_movie_fragment_header_box-Holds,
}
use middleware_player_interf.Mp4.Fragment.{
  Segment, IsSegment, sequence_bytes, traf_bytes, moof_bytes, segment_bytes, after_traf,
  after_segment,
}
use middleware_player_interf.Mp4.Fragment.Parts.{
  types_fit, length-traf_bytes, length-moof_bytes, length-segment_bytes, parse_tfhd, parse_tfdt,
  parse_trun, parse_mfhd, parse_traf, parse_moof, parse_mdat,
}

module _ (mem : List ℕ) (malloc : ℕ → Bool) where
  demux_helper-traf :
      (fuel : ℕ) (g : Segment) (s : Mp4Demux) (moof p fin : ℕ)
      → IsSegment g
      → length (traf_bytes g) < 2 ^ 32
      → s.moof_ptr ≡ some moof
      → Holds mem p (traf_bytes g)
      → fin ≡ p + length (traf_bytes g)
      → demux_helper mem malloc (suc (suc (suc fuel))) s fin p ≡ ok (after_traf g moof s, fin)
  unfolding traf_bytes after_traf with_track_header
  demux_helper-traf fuel g s moof p fin v fits m h e =
      let hb = header_bytes g.header in
      let tb = time_bytes g.time_version g.time_flags g.time in
      let rb = run_bytes g.run in
      let a = box_bytes (four_cc "tfhd") hb in
      let b = box_bytes (four_cc "tfdt") tb in
      let c = box_bytes (four_cc "trun") rb in
      let (k1, k2, k3, _, _, _, _) = types_fit in
      let sizes = length-traf_bytes g in
      let la = length-box_bytes (four_cc "tfhd") hb in
      let lb = length-box_bytes (four_cc "tfdt") tb in
      let (ha, h1) = Holds-append mem p a (b ++ c) h in
      let (hb', h2) = Holds-append mem (p + length a) b c h1 in
      let p1 = p + (8 + length hb) in
      let p2 = p1 + (8 + length tb) in
      let p3 = p2 + (8 + length rb) in
      let s1 = with_track_header g.header s in
      let s2 : Mp4Demux = record s1 {
        version = g.time_version;
        flags = g.time_flags;
        base_media_decode_time = g.time;
      } in
      let e1 : p + length a ≡ p1 = omega (arith, la) in
      let e2 : p + length a + length b ≡ p2 = omega (arith, la, lb) in
      let hb1 : Holds mem p1 b = Holds-at mem _ p1 b e1 hb' in
      let hc1 : Holds mem p2 c = Holds-at mem _ p2 c e2 h2 in
      demux_helper-box mem malloc (suc (suc fuel)) s s1 fin p _ (four_cc "tfhd") hb ha
        (omega (arith, sizes)) k1 (omega (arith, sizes))
        (parse_tfhd mem malloc _ _ _ _ s
          ∙ parse_track_fragment_header_box-Holds mem s g.header _ v.header_fits
              (box_payload mem p (four_cc "tfhd") hb ha))
      ∙ demux_helper-box mem malloc (suc fuel) s1 s2 fin p1 _ (four_cc "tfdt") tb hb1
          (omega (arith, sizes)) k2 (omega (arith, sizes))
          (parse_tfdt mem malloc _ _ _ _ s1
            ∙ parse_track_fragment_base_media_decode_time_box-Holds mem s1 g.time_version
                g.time_flags g.time _ v.time_flags_fit v.time_fits
                (box_payload mem p1 (four_cc "tfdt") tb hb1))
      ∙ demux_helper-box mem malloc fuel s2 _ fin p2 _ (four_cc "trun") rb hc1
          (omega (arith, sizes)) k3 (omega (arith, sizes))
          (parse_trun mem malloc _ _ _ _ s2
            ∙ parse_track_fragment_run_box-Holds mem s2 g.run moof _ v.run_fits m
                (box_payload mem p2 (four_cc "trun") rb hc1))
      ∙ demux_helper-end mem malloc fuel _ fin p3 (omega (arith, sizes, e))
      ∙ ok_at _ p3 fin (omega (arith, sizes, e))

  demux_helper-moof :
      (fuel : ℕ) (g : Segment) (s : Mp4Demux) (moof p fin : ℕ)
      → IsSegment g
      → length (moof_bytes g) < 2 ^ 32
      → s.moof_ptr ≡ some moof
      → Holds mem p (moof_bytes g)
      → fin ≡ p + length (moof_bytes g)
      → demux_helper mem malloc (suc (suc (suc (suc (suc fuel))))) s fin p
        ≡ ok (
          after_traf g moof (record s { version = g.sequence_version; flags = g.sequence_flags }),
          fin,
        )
  unfolding moof_bytes sequence_bytes
  demux_helper-moof fuel g s moof p fin v fits m h e =
      let sb : List ℕ = sequence_bytes g in
      let tb = traf_bytes g in
      let a = box_bytes (four_cc "mfhd") sb in
      let b = box_bytes (four_cc "traf") tb in
      let (_, _, _, k1, k2, _, _) = types_fit in
      let sizes = length-moof_bytes g in
      let (ha, hb) = Holds-append mem p a b h in
      let p1 = p + (8 + length sb) in
      let p2 = p1 + (8 + length tb) in
      let e1 : p + length a ≡ p1 = omega (arith, length-box_bytes (four_cc "mfhd") sb) in
      let hb1 = Holds-at mem _ p1 b e1 hb in
      let s1 : Mp4Demux = record s { version = g.sequence_version; flags = g.sequence_flags } in
      let next : p1 + (8 + length tb) ≡ p1 + 4 + 4 + length tb = omega arith in
      demux_helper-box mem malloc (suc (suc (suc (suc fuel)))) s s1 fin p _ (four_cc "mfhd") sb ha
        (omega (arith, sizes)) k1 (omega (arith, sizes))
        (parse_mfhd mem malloc _ _ _ _ s
          ∙ parse_movie_fragment_header_box-Holds mem s g.sequence_version g.sequence_flags
              g.sequence_number _ v.sequence_flags_fit v.sequence_fits
              (box_payload mem p (four_cc "mfhd") sb ha))
      ∙ demux_helper-box mem malloc (suc (suc (suc fuel))) s1 (after_traf g moof s1) fin p1 _
          (four_cc "traf") tb hb1 (omega (arith, sizes)) k2 (omega (arith, sizes))
          (parse_traf mem malloc _ _ _ _ s1
            ∙ demux_helper-traf fuel g s1 moof (p1 + 4 + 4) p2 v (omega (arith, sizes)) m
                (box_payload mem p1 (four_cc "traf") tb hb1) next)
      ∙ demux_helper-end mem malloc (suc (suc (suc fuel))) _ fin p2 (omega (arith, sizes, e))
      ∙ ok_at _ p2 fin (omega (arith, sizes, e))

-- On the bytes of a segment whose fields and sizes fit their widths the demultiplexer returns at their end, for every fuel of six or more:
-- the members are those of the track fragment header, the decode time is that of the track, and the
-- samples are those that the run lays out from the start of the fragment.
pub mp4_demux-segment_bytes :
    (malloc : ℕ → Bool) (fuel : ℕ) (g : Segment) (raw : Mp4Demux) (timescale : ℕ)
    → IsSegment g
    → mp4_demux (segment_bytes g) malloc (suc (suc (suc (suc (suc (suc fuel)))))) raw timescale
      ≡ ok (after_segment g 0 (init_demux raw timescale), length (segment_bytes g))
unfolding mp4_demux segment_bytes after_segment
mp4_demux-segment_bytes malloc fuel g raw timescale v =
    let mem : List ℕ = segment_bytes g in
    let s = init_demux raw timescale in
    let mb = moof_bytes g in
    let a = box_bytes (four_cc "moof") mb in
    let b = box_bytes (four_cc "mdat") g.media in
    let (_, _, _, _, _, k1, k2) = types_fit in
    let sizes = length-segment_bytes g in
    let fits = v.size_fits in
    let (ha, hb) = Holds-append mem 0 a b (Holds-whole mem) in
    let p1 = 0 + (8 + length mb) in
    let p2 = p1 + (8 + length g.media) in
    let e1 : 0 + length a ≡ p1 = omega (arith, length-box_bytes (four_cc "moof") mb) in
    let hb1 = Holds-at mem _ p1 b e1 hb in
    let t = after_segment g 0 s in
    demux_helper-box mem malloc (suc (suc (suc (suc (suc fuel))))) s t (length mem) 0 _
      (four_cc "moof") mb ha (omega (arith, sizes)) k1 (omega (arith, sizes))
      (parse_moof mem malloc (demux_helper mem malloc (suc (suc (suc (suc (suc fuel))))))
          (four_cc "moof") p1 0 s
        ∙ demux_helper-moof mem malloc fuel g (record s { moof_ptr = some 0 }) 0 (0 + 4 + 4) p1 v
            (omega (arith, sizes)) refl (box_payload mem 0 (four_cc "moof") mb ha) (omega arith))
    ∙ demux_helper-box mem malloc (suc (suc (suc (suc fuel)))) t t (length mem) p1 _
        (four_cc "mdat") g.media hb1 (omega (arith, sizes)) k2 (omega (arith, sizes))
        (parse_mdat mem malloc (demux_helper mem malloc (suc (suc (suc (suc fuel)))))
          (four_cc "mdat") p2 (p1 + 4 + 4) t)
    ∙ demux_helper-end mem malloc (suc (suc (suc (suc fuel)))) t (length mem) p2
        (omega (arith, sizes))
    ∙ ok_at t p2 (length mem) (omega (arith, sizes))
