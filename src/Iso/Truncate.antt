-- ===== src/Iso/Truncate.antt =====
-- playerisobmff/playerisobmffbox.cpp: boxes that are changed in the buffer, and cut to one sample.
pub mod Row
pub mod Times
use middleware_player_interf.Common.{
  ℕ, ◌+◌, ◌-◌, ◌*◌, ◌%◌, ◌^◌, Bool, true, false, List, [], ◌∷◌, Option, none, some, ltb, leb, ◌==◌,
  if◌then◌else◌,
}
use middleware_player_interf.Common.Bytes.{codes}
use middleware_player_interf.Mp4.Reader.{Result, ok, err, fault, has_flag}
use middleware_player_interf.Iso.Fields.{write, write_u32, write_u64}
use middleware_player_interf.Iso.Leaves.{Full, Timed, Tfdt, Tfhd, Senc, Saiz}
use middleware_player_interf.Iso.Leaves.Samples.{Trun}
use middleware_player_interf.Iso.Boxes.{◌>>=◌}

-- uint32_t subtraction
abbrev pub sub_u32 : ℕ → ℕ → ℕ
sub_u32 a b = (a + (2 ^ 32 - b % 2 ^ 32)) % 2 ^ 32

-- `setTimeScale` of MvhdIsoBmffBox and MdhdIsoBmffBox
unfoldable pub set_time_scale : ℕ → List ℕ → Timed → Result (Timed × List ℕ)
unfolding write_u32
set_time_scale scale mem b =
    write_u32 mem b.time_scale_loc scale >>= λ mem'. ok (record b { time_scale = scale }, mem')

-- `setBaseMDT`
unfoldable pub set_base_mdt : ℕ → List ℕ → Tfdt → Result (Tfdt × List ℕ)
unfolding write_u32 write_u64
set_base_mdt mdt mem b =
    (if b.full.version == 1
      then write_u64 mem b.base_mdt_loc mdt
      else write_u32 mem b.base_mdt_loc (mdt % 2 ^ 32))
    >>= λ mem'. ok (record b { base_mdt = mdt }, mem')

-- A write through a pointer that may be null, where the code tests it.
abbrev pub write_at : Option ℕ → ℕ → List ℕ → Result (List ℕ)
write_at none v mem = ok mem
write_at (some at) v mem = write_u32 mem at v

-- `setFirstSampleDuration`
unfoldable pub set_first_sample_duration : ℕ → List ℕ → Trun → Result (Trun × List ℕ)
set_first_sample_duration duration mem b =
    write_at b.first_sample_duration_loc duration mem >>= λ mem'.
    ok (record b { duration = duration }, mem')

-- `setDefaultSampleDuration`
unfoldable pub set_default_sample_duration : ℕ → List ℕ → Tfhd → Result (Tfhd × List ℕ)
set_default_sample_duration duration mem b =
    write_at b.default_sample_duration_loc duration mem >>= λ mem'.
    ok (record b { default_sample_duration = duration }, mem')

-- The constructor of SkipIsoBmffBox.
unfoldable pub write_skip_box : List ℕ → ℕ → ℕ → Result (List ℕ)
unfolding write_u32 write
write_skip_box mem size at = write_u32 mem at size >>= λ mem'. write mem' (at + 4) (codes "skip")

-- `getBase`, and a fault where the null pointer is written through.
abbrev pub get_base : Full → Result ℕ
get_base full = elim full.base [ none ↦ err fault | some at ↦ ok at ]

-- The bytes of a sample in the table of a run.
unfoldable pub bytes_per_sample : ℕ → ℕ
bytes_per_sample flags =
    (if has_flag flags 0x0100 then 4 else 0)
    + (if has_flag flags 0x0200 then 4 else 0)
    + ((if has_flag flags 0x0400 then 4 else 0) + (if has_flag flags 0x0800 then 4 else 0))

-- The writes of `TrunIsoBmffBox::truncate`: the new size, the box and the buffer.
unfoldable pub cut_trun : List ℕ → ℕ → Trun → ℕ → ℕ → Result (ℕ × (Trun × List ℕ))
unfolding write_u32 write_skip_box
cut_trun mem size b new_size rest =
    let b' : Trun = record b { sample_count = 1 } in
    write_u32 mem b.sample_count_loc 1 >>= λ mem'. elim (leb 8 (sub_u32 size new_size)) [
      | false ↦ ok (size, (b', mem'))
      | true ↦ get_base b.full >>= λ base. write_u32 mem' base new_size >>= λ mem''.
          write_skip_box mem'' rest (base + new_size) >>= λ cut. ok (new_size, (b', cut))
    ]

-- `TrunIsoBmffBox::truncate`, with the size of the box.
unfoldable pub truncate_trun : List ℕ → ℕ → Trun → Result (ℕ × (Trun × List ℕ))
unfolding cut_trun bytes_per_sample
truncate_trun mem size b = elim (ltb 1 b.sample_count) [
  | false ↦ ok (size, (b, mem))
  | true ↦
      let each : ℕ = bytes_per_sample b.full.flags in
      let table : ℕ = b.sample_count * each % 2 ^ 32 in
      cut_trun mem size b ((sub_u32 size table + each) % 2 ^ 32) (sub_u32 table each)
]

-- `SencIsoBmffBox::truncate`, which leaves the size of the object.
unfoldable pub truncate_senc : ℕ → List ℕ → ℕ → Senc → Result (Senc × List ℕ)
unfolding write_u32 write_skip_box
truncate_senc first mem size b = elim (ltb 1 b.num_samples) [
  | false ↦ ok (b, mem)
  | true ↦
      (elim (first == 0) [
        | true ↦ ok mem
        | false ↦ get_base b.full >>= λ base.
            let new_end : ℕ = b.sample_count_loc + 4 + first in
            let new_size : ℕ = (new_end - base) % 2 ^ 32 in
            elim (leb 8 (sub_u32 size new_size)) [
              | false ↦ ok mem
              | true ↦ write_u32 mem base new_size >>= λ mem'.
                  write_skip_box mem' (sub_u32 size new_size) new_end
            ]
      ])
      >>= λ mem'.
          write_u32 mem' b.sample_count_loc 1 >>= λ cut. ok (record b { num_samples = 1 }, cut)
]

-- `SaizIsoBmffBox::truncate`, which leaves the size of the object.
unfoldable pub truncate_saiz : List ℕ → ℕ → Saiz → Result (Saiz × List ℕ)
unfolding write_u32 write_skip_box
truncate_saiz mem size b =
    let new_size : ℕ = sub_u32 size (sub_u32 b.num_samples 1) in
    (elim (leb 8 (sub_u32 size new_size)) [
      | false ↦ ok mem
      | true ↦ get_base b.full >>= λ base. write_u32 mem base new_size >>= λ mem'.
          write_skip_box mem' (sub_u32 size new_size) (base + new_size)
    ])
    >>= λ mem'.
        write_u32 mem' b.sample_count_loc 1 >>= λ cut. ok (record b { num_samples = 1 }, cut)

-- `setSize`, which is `MdatIsoBmffBox::truncate` too: the new size and the buffer.
unfoldable pub set_size : List ℕ → Option ℕ → ℕ → Result (ℕ × List ℕ)
unfolding write_u32
set_size mem base new_size = elim base [
  | none ↦ err fault
  | some at ↦ write_u32 mem at new_size >>= λ mem'. ok (new_size, mem')
]

-- `rewriteAsSkipBox`: the new type and the buffer.
unfoldable pub rewrite_as_skip_box : List ℕ → Option ℕ → Result (List ℕ × List ℕ)
unfolding write
rewrite_as_skip_box mem base = elim base [
  | none ↦ err fault
  | some at ↦ write mem (at + 4) (codes "skip") >>= λ mem'. ok (codes "skip", mem')
]
