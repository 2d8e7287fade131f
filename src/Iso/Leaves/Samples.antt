-- ===== src/Iso/Leaves/Samples.antt =====
-- playerisobmff/playerisobmffbox.cpp: the run of samples.
use middleware_player_interf.Common.{
  ℕ, zero, suc, ◌+◌, ◌%◌, ◌^◌, Bool, true, false, List, Option, none, some, if◌then◌else◌,
}
use middleware_player_interf.Mp4.Reader.{M, ◌>>=◌, ◌>>◌, pure, read_if, skip_bytes, has_flag}
use middleware_player_interf.Iso.Fields.{read_flags, read_u32}
use middleware_player_interf.Iso.Leaves.{Full, here, read_based}

-- TrunIsoBmffBox
pub record Trun : Type 0 where
  pub full : Full
  pub duration : ℕ
  pub sample_count : ℕ
  pub sample_count_loc : ℕ
  pub first_sample_duration_loc : Option ℕ
  pub first_sample_size : ℕ

-- What the loop over the samples of a run keeps.
pub record Samples : Type 0 where
  pub total : ℕ
  pub first_loc : Option ℕ
  pub first_size : ℕ

module _ (mem : List ℕ) where
  -- One round of the loop of `constructTrunBox`.
  abbrev read_sample : ℕ → Bool → Samples → M Samples
  read_sample flags is_first s = do
    loc ← here
    duration ← read_if (has_flag flags 0x0100) (read_u32 mem) 0
    size ← read_if (has_flag flags 0x0200) (read_u32 mem) s.first_size
    skip_bytes (if has_flag flags 0x0400 then 4 else 0)
    skip_bytes (if has_flag flags 0x0800 then 4 else 0)
    pure (record {
      total = (s.total + duration) % 2 ^ 64;
      first_loc =
          if is_first then (if has_flag flags 0x0100 then some loc else none) else s.first_loc;
      first_size = if is_first then size else s.first_size;
    })

  unfoldable pub read_samples : ℕ → ℕ → Bool → Samples → M Samples
  read_samples zero flags is_first s = pure s
  read_samples (suc n) flags is_first s = do
    s' ← read_sample flags is_first s
    read_samples n flags false s'

  unfoldable pub construct_trun_box : M Trun
  unfolding read_flags read_u32 read_samples
  construct_trun_box = do
    full ← read_based mem
    loc ← here
    count ← read_u32 mem
    skip_bytes (if has_flag full.flags 0x0001 then 4 else 0)
    skip_bytes (if has_flag full.flags 0x0004 then 4 else 0)
    s ← read_samples count full.flags true (record { total = 0; first_loc = none; first_size = 0 })
    pure (record {
      full = full;
      duration = s.total;
      sample_count = count;
      sample_count_loc = loc;
      first_sample_duration_loc = s.first_loc;
      first_sample_size = s.first_size;
    })
