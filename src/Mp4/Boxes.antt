-- ===== src/Mp4/Boxes.antt =====
-- The parsers of the boxes with fixed fields, of mp4demux.hpp.
use middleware_player_interf.Common.{
  ℕ, zero, suc, ◌+◌, ◌-◌, ◌%◌, ◌^◌, List, [], ◌∷◌, ◌++◌, Option, none, some, ltb, ◌==◌,
  if◌then◌else◌,
}
use middleware_player_interf.Common.Int.{ℤ, pos, ◌+ℤ◌, signed32}
use middleware_player_interf.Mp4.Reader.{
  ok, err, fault, M, pure, ◌>>=◌, ◌>>◌, read_if, check, has_flag, skip_bytes, read_u16, read_u32,
  read_u64, read_bytes, read_header,
}
use middleware_player_interf.Mp4.State.{zero_seconds, quotient, Mp4Sample, Mp4Demux}

-- `(version==1)?8:4`
abbrev pub time_size : ℕ → ℕ
time_size version = if version == 1 then 8 else 4

-- An `int32_t` as the `uint64_t` that it is converted to.
abbrev pub sign_extend : ℕ → ℕ
sign_extend w = if ltb w (2 ^ 31) then w else w + (2 ^ 64 - 2 ^ 32)

-- `data_ptr += data_offset`, with `moof_ptr` in `data_ptr`.
abbrev pub moof_offset : Option ℕ → ℕ → M ℤ
moof_offset none offset p = err fault
moof_offset (some moof) offset p = ok (pos moof +ℤ signed32 offset, p)

module _ (mem : List ℕ) where
  unfoldable pub parse_movie_fragment_header_box : Mp4Demux → M Mp4Demux
  parse_movie_fragment_header_box s = do
    (version, flags) ← read_header mem
    sequence_number ← read_u32 mem
    pure (record s { version = version; flags = flags })

  unfoldable pub parse_track_fragment_header_box : Mp4Demux → M Mp4Demux
  parse_track_fragment_header_box s = do
    (version, flags) ← read_header mem
    track_id ← read_u32 mem
    offset ← read_if (has_flag flags 0x00001) (read_u64 mem) s.base_data_offset
    index ← read_if (has_flag flags 0x00002) (read_u32 mem) s.default_sample_description_index
    duration ← read_if (has_flag flags 0x00008) (read_u32 mem) s.default_sample_duration
    size ← read_if (has_flag flags 0x00010) (read_u32 mem) s.default_sample_size
    sample_flags ← read_if (has_flag flags 0x00020) (read_u32 mem) s.default_sample_flags
    pure (record s {
      version = version;
      flags = flags;
      track_id = track_id;
      base_data_offset = offset;
      default_sample_description_index = index;
      default_sample_duration = duration;
      default_sample_size = size;
      default_sample_flags = sample_flags;
    })

  unfoldable pub parse_track_fragment_base_media_decode_time_box : Mp4Demux → M Mp4Demux
  parse_track_fragment_base_media_decode_time_box s = do
    (version, flags) ← read_header mem
    time ← read_bytes mem (time_size version)
    pure (record s { version = version; flags = flags; base_media_decode_time = time })

  -- One round of the loop of `parseTrackFragmentRunBox`, from `data_ptr` and `dts` to their new values.
  unfoldable pub read_sample : Mp4Demux → ℤ → ℕ → M (Mp4Sample × ℤ × ℕ)
  read_sample s data_ptr dts = do
    sample_duration ← read_if (has_flag s.flags 0x0100) (read_u32 mem) s.default_sample_duration
    len ← read_if (has_flag s.flags 0x0200) (read_u32 mem) s.default_sample_size
    sample_flags ← read_if (has_flag s.flags 0x0400) (read_u32 mem) 0
    offset ← read_if (has_flag s.flags 0x0800) (read_u32 mem) 0
    pure (
      record {
        ptr = data_ptr;
        len = len;
        pts = quotient ((dts + sign_extend offset) % 2 ^ 64) s.timescale;
        dts = quotient dts s.timescale;
        duration =
            if has_flag s.flags 0x0100 then quotient sample_duration s.timescale else zero_seconds;
      },
      data_ptr +ℤ pos len,
      (dts + sample_duration) % 2 ^ 64,
    )

  -- The loop, with the rounds left and the samples so far.
  unfoldable pub run_loop : Mp4Demux → ℕ → ℤ → ℕ → List Mp4Sample → M (List Mp4Sample)
  unfolding read_sample
  run_loop s zero data_ptr dts samples = pure samples
  run_loop s (suc n) data_ptr dts samples = do
    (sample, data_ptr', dts') ← read_sample s data_ptr dts
    run_loop s n data_ptr' dts' (samples ++ (sample ∷ []))

  unfoldable pub parse_track_fragment_run_box : Mp4Demux → M Mp4Demux
  unfolding run_loop
  parse_track_fragment_run_box s = do
    (version, flags) ← read_header mem
    let t = record s { version = version; flags = flags }
    sample_count ← read_u32 mem
    check (has_flag flags 0x0001)
    data_offset ← read_u32 mem
    data_ptr ← moof_offset s.moof_ptr data_offset
    sample_flags ← read_if (has_flag flags 0x0004) (read_u32 mem) 0
    samples ← run_loop t sample_count data_ptr s.base_media_decode_time s.samples
    pure (record t { samples = samples })

  -- `for (i = 0; i < 9; i++) matrix[i] = ReadI32();` with the rounds left.
  unfoldable pub read_matrix : ℕ → M (List ℕ)
  read_matrix zero = pure []
  read_matrix (suc n) = do entry ← read_u32 mem; rest ← read_matrix n; pure (entry ∷ rest)

  unfoldable pub parse_movie_header_box : Mp4Demux → M Mp4Demux
  unfolding read_matrix
  parse_movie_header_box s = do
    (version, flags) ← read_header mem
    creation ← read_bytes mem (time_size version)
    modification ← read_bytes mem (time_size version)
    timescale ← read_u32 mem
    duration ← read_u32 mem
    rate ← read_u32 mem
    volume ← read_u32 mem
    skip_bytes 8
    matrix ← read_matrix 9
    pure (record s {
      version = version;
      flags = flags;
      creation_time = creation;
      modification_time = modification;
      timescale = timescale;
      duration = duration;
      rate = rate;
      volume = volume;
      matrix = matrix;
    })

  unfoldable pub parse_movie_extends_header : Mp4Demux → M Mp4Demux
  parse_movie_extends_header s = do
    (version, flags) ← read_header mem
    duration ← read_u32 mem
    pure (record s { version = version; flags = flags; fragment_duration = duration })

  unfoldable pub parse_track_extends_box : Mp4Demux → M Mp4Demux
  parse_track_extends_box s = do
    (version, flags) ← read_header mem
    track_id ← read_u32 mem
    index ← read_u32 mem
    duration ← read_u32 mem
    size ← read_u32 mem
    sample_flags ← read_u32 mem
    pure (record s {
      version = version;
      flags = flags;
      track_id = track_id;
      default_sample_description_index = index;
      default_sample_duration = duration;
      default_sample_size = size;
      default_sample_flags = sample_flags;
    })

  unfoldable pub parse_track_header : Mp4Demux → M Mp4Demux
  unfolding read_matrix
  parse_track_header s = do
    (version, flags) ← read_header mem
    creation ← read_bytes mem (time_size version)
    modification ← read_bytes mem (time_size version)
    track_id ← read_u32 mem
    skip_bytes (20 + time_size version)
    matrix ← read_matrix 9
    width ← read_u32 mem
    height ← read_u32 mem
    pure (record s {
      version = version;
      flags = flags;
      creation_time = creation;
      modification_time = modification;
      track_id = track_id;
      matrix = matrix;
      width = width;
      height = height;
    })

  unfoldable pub parse_media_header_box : Mp4Demux → M Mp4Demux
  parse_media_header_box s = do
    (version, flags) ← read_header mem
    creation ← read_bytes mem (time_size version)
    modification ← read_bytes mem (time_size version)
    timescale ← read_u32 mem
    duration ← read_u32 mem
    language ← read_u16 mem
    pure (record s {
      version = version;
      flags = flags;
      creation_time = creation;
      modification_time = modification;
      timescale = timescale;
      duration = duration;
      language = language;
    })
