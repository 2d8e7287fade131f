-- ===== src/Mp4/Layout/Run.antt =====
-- `parseTrackFragmentRunBox` on the layout of a track run.
use middleware_player_interf.Common.{
  ℕ, ◌+◌, ◌%◌, ◌^◌, ◌≡◌, sym, ◌∙◌, List, [], ◌∷◌, ◌++◌, some, arith, length, length-append, All,
}
use middleware_player_interf.Common.Int.{ℤ, pos, ◌+ℤ◌, signed32}
use mathlib.Core.List.{append-nil, append_assoc}
use middleware_player_interf.Mp4.Reader.{ok, read_u32, read_if, check, has_flag, read_header}
use middleware_player_interf.Mp4.Reader.Values.{
  Holds, big_endian, bind-ok, ok_at, ok_eq, read_u32-Holds, read_header-Holds,
}
use middleware_player_interf.Mp4.State.{Mp4Sample, Mp4Demux}
use middleware_player_interf.Mp4.Boxes.{
  read_sample, run_loop, parse_track_fragment_run_box, moof_offset,
}
use middleware_player_interf.Mp4.Layout.{
  Entry, FitsU32, field_if, entry_bytes, entries_bytes, duration_of, size_of, sample_of, samples_of,
  TrackRun, IsTrackRun, run_bytes, with_header,
}
use middleware_player_interf.Mp4.Layout.Places.{
  Holds-append, read_if-Holds, check-true, moof_offset-some,
}

module _ (mem : List ℕ) where
  read_sample-Holds :
      (s : Mp4Demux) (data_ptr : ℤ) (dts p : ℕ) (e : Entry)
      → Holds mem p (entry_bytes s.flags e)
      → FitsU32 e
      → read_sample mem s data_ptr dts p
        ≡ ok (
          (
            sample_of s data_ptr dts e,
            data_ptr +ℤ pos (size_of s e),
            (dts + duration_of s e) % 2 ^ 64,
          ),
          p + length (entry_bytes s.flags e),
        )
  unfolding read_sample entry_bytes
  read_sample-Holds s data_ptr dts p e h (f1, f2, f3, f4) =
      let d = field_if (has_flag s.flags 0x0100) e.duration in
      let z = field_if (has_flag s.flags 0x0200) e.size in
      let l = field_if (has_flag s.flags 0x0400) e.sample_flags in
      let o = field_if (has_flag s.flags 0x0800) e.offset in
      let (hd, h1) = Holds-append mem p d (z ++ (l ++ o)) h in
      let (hz, h2) = Holds-append mem (p + length d) z (l ++ o) h1 in
      let (hl, ho) = Holds-append mem (p + length d + length z) l o h2 in
      bind-ok (read_if (has_flag s.flags 0x0100) (read_u32 mem) s.default_sample_duration) _
        (read_if-Holds mem (has_flag s.flags 0x0100) e.duration s.default_sample_duration p hd f1)
      ∙ bind-ok (read_if (has_flag s.flags 0x0200) (read_u32 mem) s.default_sample_size) _
          (read_if-Holds mem (has_flag s.flags 0x0200) e.size s.default_sample_size _ hz f2)
      ∙ bind-ok (read_if (has_flag s.flags 0x0400) (read_u32 mem) 0) _
          (read_if-Holds mem (has_flag s.flags 0x0400) e.sample_flags 0 _ hl f3)
      ∙ bind-ok (read_if (has_flag s.flags 0x0800) (read_u32 mem) 0) _
          (read_if-Holds mem (has_flag s.flags 0x0800) e.offset 0 _ ho f4)
      ∙ ok_at _ (p + length d + length z + length l + length o) (p + length (d ++ (z ++ (l ++ o))))
          (omega
            (arith, length-append d (z ++ (l ++ o)), length-append z (l ++ o), length-append l o))

  -- The loop of the parser turns the bytes of the entries into their samples.
  run_loop-Holds :
      (s : Mp4Demux) (es : List Entry) (data_ptr : ℤ) (dts : ℕ) (acc : List Mp4Sample) (p : ℕ)
      → Holds mem p (entries_bytes s.flags es)
      → All FitsU32 es
      → run_loop mem s (length es) data_ptr dts acc p
        ≡ ok (acc ++ samples_of s data_ptr dts es, p + length (entries_bytes s.flags es))
  unfolding run_loop entries_bytes samples_of
  run_loop-Holds s [] data_ptr dts acc p h f =
      ok_eq acc (acc ++ []) p (p + 0) (sym (append-nil acc)) (omega arith)
  run_loop-Holds s (e ∷ es) data_ptr dts acc p h f =
      let (he, hes) = Holds-append mem p (entry_bytes s.flags e) (entries_bytes s.flags es) h in
      bind-ok (read_sample mem s data_ptr dts) _ (read_sample-Holds s data_ptr dts p e he f.0)
      ∙ run_loop-Holds s es (data_ptr +ℤ pos (size_of s e)) ((dts + duration_of s e) % 2 ^ 64)
          (acc ++ (sample_of s data_ptr dts e ∷ [])) (p + length (entry_bytes s.flags e)) hes f.1
      ∙ ok_eq _ _ (p + length (entry_bytes s.flags e) + length (entries_bytes s.flags es))
          (p + length (entry_bytes s.flags e ++ entries_bytes s.flags es))
          (append_assoc acc (sample_of s data_ptr dts e ∷ []) _)
          (omega (arith, length-append (entry_bytes s.flags e) (entries_bytes s.flags es)))

module _ (mem : List ℕ) where
  -- On the bytes of a track run with a data offset, whose fields fit their widths, inside a movie
  -- fragment, the parser appends the samples of the entries:
  -- as many as the run counts, laid out from the start of the fragment plus the data offset, each at
  -- the end of the one before it, and decoded from the decode time of the track on.
  pub parse_track_fragment_run_box-Holds :
      (s : Mp4Demux) (r : TrackRun) (moof p : ℕ)
      → IsTrackRun r
      → s.moof_ptr ≡ some moof
      → Holds mem p (run_bytes r)
      → parse_track_fragment_run_box mem s p
        ≡ ok (
          record s {
            version = r.version;
            flags = r.flags;
            samples =
                s.samples
                ++ samples_of
                    (with_header r.version r.flags s)
                    (pos moof +ℤ signed32 r.data_offset)
                    s.base_media_decode_time
                    r.entries;
          },
          p + length (run_bytes r),
        )
  unfolding parse_track_fragment_run_box run_bytes
  parse_track_fragment_run_box-Holds s r moof p v m h =
      let x = r.version ∷ big_endian 3 r.flags in
      let n = big_endian 4 (length r.entries) in
      let o = big_endian 4 r.data_offset in
      let z = field_if (has_flag r.flags 0x0004) r.first_sample_flags in
      let b = entries_bytes r.flags r.entries in
      let (hx, h1) = Holds-append mem p x (n ++ (o ++ (z ++ b))) h in
      let (hn, h2) = Holds-append mem (p + 4) n (o ++ (z ++ b)) h1 in
      let (ho, h3) = Holds-append mem (p + 4 + 4) o (z ++ b) h2 in
      let (hz, hb) = Holds-append mem (p + 4 + 4 + 4) z b h3 in
      let t = with_header r.version r.flags s in
      bind-ok (read_header mem) _ (read_header-Holds mem r.version r.flags p hx v.flags_fit)
      ∙ bind-ok (read_u32 mem) _ (read_u32-Holds mem (length r.entries) _ hn v.count_fits)
      ∙ bind-ok (check (has_flag r.flags 0x0001)) _
          (check-true (has_flag r.flags 0x0001) _ v.has_offset)
      ∙ bind-ok (read_u32 mem) _ (read_u32-Holds mem r.data_offset _ ho v.offset_fits)
      ∙ bind-ok (moof_offset s.moof_ptr r.data_offset) _ (moof_offset-some _ moof r.data_offset _ m)
      ∙ bind-ok (read_if (has_flag r.flags 0x0004) (read_u32 mem) 0) _
          (read_if-Holds mem (has_flag r.flags 0x0004) r.first_sample_flags 0 _ hz v.first_fits)
      ∙ bind-ok
          (run_loop mem t (length r.entries) (pos moof +ℤ signed32 r.data_offset)
            s.base_media_decode_time s.samples)
          _
          (run_loop-Holds mem t r.entries (pos moof +ℤ signed32 r.data_offset)
            s.base_media_decode_time s.samples _ hb v.entries_fit)
      ∙ ok_at _ (p + 4 + 4 + 4 + length z + length b) (p + length (x ++ (n ++ (o ++ (z ++ b)))))
          (omega (arith, length-append z b))
