-- ===== src/Iso/Leaves.antt =====
-- playerisobmff/playerisobmffbox.cpp: the boxes without children. A location is the offset of the field in
-- the buffer, none the null pointer.
pub mod Samples
pub mod Events
use middleware_player_interf.Common.{
  ℕ, zero, suc, ◌+◌, ◌-◌, ◌%◌, ◌^◌, Bool, true, false, List, Option, none, some, ◌==◌,
  if◌then◌else◌,
}
use middleware_player_interf.Mp4.Reader.{
  ok, err, M, ◌>>=◌, ◌>>◌, pure, read_byte, read_if, skip_bytes, has_flag,
}
use middleware_player_interf.Iso.Fields.{
  read_u16, read_flags, read_u32, read_u64, read_list, c_string_len,
}

-- FullIsoBmffBox, with the pointer of its base class.
pub record Full : Type 0 where
  pub version : ℕ
  pub flags : ℕ
  pub base : Option ℕ

-- MvhdIsoBmffBox and MdhdIsoBmffBox
pub record Timed : Type 0 where
  pub full : Full
  pub time_scale : ℕ
  pub time_scale_loc : ℕ

-- TfdtIsoBmffBox
pub record Tfdt : Type 0 where
  pub full : Full
  pub base_mdt : ℕ
  pub base_mdt_loc : ℕ

-- TfhdIsoBmffBox
pub record Tfhd : Type 0 where
  pub full : Full
  pub default_sample_duration : ℕ
  pub default_sample_duration_loc : Option ℕ
  pub default_sample_size : ℕ

-- PrftIsoBmffBox
pub record Prft : Type 0 where
  pub full : Full
  pub track_id : ℕ
  pub ntp_ts : ℕ
  pub media_time : ℕ

-- SidxIsoBmffBox
pub record Sidx : Type 0 where
  pub full : Full
  pub time_scale : ℕ
  pub duration : ℕ

-- SencIsoBmffBox
pub record Senc : Type 0 where
  pub full : Full
  pub sample_count_loc : ℕ
  pub num_samples : ℕ

-- SaizIsoBmffBox
pub record Saiz : Type 0 where
  pub full : Full
  pub sample_count_loc : ℕ
  pub num_samples : ℕ
  pub first_sample_info_size : ℕ

-- The place of the pointer.
abbrev pub here : M ℕ
here p = ok (p, p)

module _ (mem : List ℕ) where
  abbrev pub read_full : M Full
  read_full = do
    version ← read_byte mem
    flags ← read_flags mem
    pure (record { version = version; flags = flags; base = none })

  -- With `setBase`: the start of the box lies eight bytes in front.
  abbrev pub read_based : M Full
  read_based = do start ← here; full ← read_full; pure (record full { base = some (start - 8) })

  -- `constructMvhdBox` and `constructMdhdBox`
  unfoldable pub construct_timed_box : M Timed
  unfolding read_flags read_u32
  construct_timed_box = do
    full ← read_based
    skip_bytes (if full.version == 1 then 16 else 8)
    loc ← here
    scale ← read_u32 mem
    pure (record { full = full; time_scale = scale; time_scale_loc = loc })

  unfoldable pub construct_tfdt_box : M Tfdt
  unfolding read_flags read_u32 read_u64
  construct_tfdt_box = do
    full ← read_full
    loc ← here
    mdt ← (if full.version == 1 then read_u64 mem else read_u32 mem)
    pure (record { full = full; base_mdt = mdt; base_mdt_loc = loc })

  unfoldable pub construct_tfhd_box : M Tfhd
  unfolding read_flags read_u32
  construct_tfhd_box = do
    full ← read_based
    skip_bytes 4
    skip_bytes (if has_flag full.flags 0x00001 then 8 else 0)
    skip_bytes (if has_flag full.flags 0x00002 then 4 else 0)
    loc ← here
    duration ← read_if (has_flag full.flags 0x00008) (read_u32 mem) 0
    size ← read_if (has_flag full.flags 0x00010) (read_u32 mem) 0
    pure (record {
      full = full;
      default_sample_duration = duration;
      default_sample_duration_loc = if has_flag full.flags 0x00008 then some loc else none;
      default_sample_size = size;
    })

  unfoldable pub construct_prft_box : M Prft
  unfolding read_flags read_u32 read_u64
  construct_prft_box = do
    full ← read_full
    track ← read_u32 mem
    ntp ← read_u64 mem
    pts ← read_u64 mem
    pure (record { full = full; track_id = track; ntp_ts = ntp; media_time = pts })

  -- The loop over the references, with the rounds left.
  unfoldable pub read_references : ℕ → ℕ → M ℕ
  unfolding read_u32
  read_references zero duration = pure duration
  read_references (suc n) duration = do
    size ← read_u32 mem
    length ← read_u32 mem
    sap ← read_u32 mem
    read_references n ((duration + length) % 2 ^ 32)

  unfoldable pub construct_sidx_box : M Sidx
  unfolding read_flags read_u32 read_u16 read_u64 read_references
  construct_sidx_box = do
    full ← read_full
    reference ← read_u32 mem
    scale ← read_u32 mem
    earliest ← (if full.version == 0 then read_u32 mem else read_u64 mem)
    offset ← (if full.version == 0 then read_u32 mem else read_u64 mem)
    unused ← read_u16 mem
    count ← read_u16 mem
    duration ← read_references count 0
    pure (record { full = full; time_scale = scale; duration = duration })

  unfoldable pub construct_senc_box : M Senc
  unfolding read_flags read_u32
  construct_senc_box = do
    full ← read_based
    loc ← here
    count ← read_u32 mem
    pure (record { full = full; sample_count_loc = loc; num_samples = count })

  unfoldable pub construct_saiz_box : M Saiz
  unfolding read_flags read_u32
  construct_saiz_box = do
    full ← read_based
    skip_bytes (if has_flag full.flags 0x0001 then 8 else 0)
    default ← read_byte mem
    loc ← here
    count ← read_u32 mem
    first ← here
    size ← read_if (default == 0) (read_byte mem) default
    pure (record {
      full = full;
      sample_count_loc = loc;
      num_samples = count;
      first_sample_info_size = size;
    })
