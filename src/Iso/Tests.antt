-- ===== src/Iso/Tests.antt =====
-- The theorems on the boxes at concrete buffers.
use middleware_player_interf.Common.{
  ℕ, true, false, ◌≡◌, inl, inr, refl, List, [], ◌∷◌, ◌++◌, none, some, arith, get_elem?,
}
use middleware_player_interf.Common.Bytes.{codes}
use middleware_player_interf.Mp4.Reader.{ok}
use middleware_player_interf.Iso.Fields.{u32_bytes, read_u32}
use middleware_player_interf.Iso.Leaves.{construct_tfdt_box}
use middleware_player_interf.Iso.Leaves.Samples.{Trun}
use middleware_player_interf.Iso.Boxes.{kind_of, is_type, read_head}
use middleware_player_interf.Iso.Buffer.{Buffer, parse_buffer, parse_mdat_box, get_mdat_box_size}
use middleware_player_interf.Iso.Buffer.Walk.{Item, IsOpaque, texts, lay_out, parse_buffer-row}
use middleware_player_interf.Iso.Buffer.Payload.{
  first_item, payload_of, size_of, parse_mdat_box-row,
}
use middleware_player_interf.Iso.Truncate.{set_base_mdt, truncate_trun, bytes_per_sample}
use middleware_player_interf.Iso.Truncate.Row.{truncate_trun-row}
use middleware_player_interf.Iso.Truncate.Times.{full_of, tfdt_of, set_base_mdt-construct}

styp-IsOpaque : IsOpaque (codes "styp")
unfolding kind_of is_type
styp-IsOpaque = (refl, inl refl)

mdat-IsOpaque : IsOpaque (codes "mdat")
unfolding kind_of is_type
mdat-IsOpaque = (refl, inr refl)

abbrev items : List Item
items =
    record { type = codes "styp"; payload = 1 ∷ [] }
    ∷ record { type = codes "mdat"; payload = 60 ∷ 62 ∷ [] }
    ∷ []

abbrev parsed : Buffer
parsed = record { buffer = texts items; boxes = lay_out 0 items; chunked_box = none }

parse_buffer-row_example : parse_buffer 3 (texts items) false none ≡ ok (true, parsed)
parse_buffer-row_example =
    parse_buffer-row items 3 false none (styp-IsOpaque, (mdat-IsOpaque, tt)) (omega arith)
      (omega arith)

parse_mdat_box-row_example :
    (b : Buffer) × (parse_buffer 3 (texts items) false none ≡ ok (true, b))
    × (parse_mdat_box b ≡ ok (payload_of (first_item items "mdat")))
    × (get_mdat_box_size b ≡ size_of (first_item items "mdat"))
parse_mdat_box-row_example =
    parse_mdat_box-row items 3 false none (styp-IsOpaque, (mdat-IsOpaque, tt)) (omega arith)
      (omega arith)

abbrev empty_box : List ℕ
empty_box = u32_bytes 0 ++ codes "styp"

abbrev large_box : List ℕ
large_box = u32_bytes 99 ++ (codes "mdat" ++ (1 ∷ []))

-- A run of three samples with their sizes.
abbrev run_box : List ℕ
run_box =
    u32_bytes 28
    ++ (codes "trun"
        ++ (0 ∷ 0 ∷ 2 ∷ 0 ∷ (u32_bytes 3 ++ (u32_bytes 7 ++ (u32_bytes 8 ++ u32_bytes 9)))))

abbrev run : Trun
run = record {
  full = record { version = 0; flags = 0x200; base = some 0 };
  duration = 0;
  sample_count = 3;
  sample_count_loc = 12;
  first_sample_duration_loc = none;
  first_sample_size = 7;
}

truncate_trun-row_example :
    (mem' : List ℕ) × (truncate_trun run_box 28 run
      ≡ ok (20, (record run { sample_count = 1 }, mem')))
    × (read_head mem' 0 ≡ ok (20, codes "trun"))
    × (read_u32 mem' 12 ≡ ok (1, 16))
    × (read_head mem' 20 ≡ ok (8, codes "skip"))
    × (get_elem? mem' 10 ≡ get_elem? run_box 10)
unfolding bytes_per_sample
truncate_trun-row_example =
    truncate_trun-row run_box 28 0 run 20 8 (codes "trun") refl refl (omega arith) refl refl
      (omega arith) (omega arith) (omega arith) (omega arith) (refl, (refl, (refl, (refl, tt))))
      refl 10 (inr (inl (omega arith, omega arith)))

set_base_mdt-construct_example :
    (mem' : List ℕ) × (set_base_mdt 9
        (1 ∷ 0 ∷ 0 ∷ 0 ∷ 0 ∷ 0 ∷ 0 ∷ 0 ∷ 0 ∷ 0 ∷ 0 ∷ 5 ∷ [])
        (tfdt_of (full_of 1 0 0 0) 5 4)
      ≡ ok (tfdt_of (full_of 1 0 0 0) 9 4, mem'))
    × (construct_tfdt_box mem' 0 ≡ ok (tfdt_of (full_of 1 0 0 0) 9 4, 12))
set_base_mdt-construct_example =
    set_base_mdt-construct (1 ∷ 0 ∷ 0 ∷ 0 ∷ 0 ∷ 0 ∷ 0 ∷ 0 ∷ 0 ∷ 0 ∷ 0 ∷ 5 ∷ []) 0 1 0 0 0 5 9
      (refl, (refl, (refl, (refl, tt)))) (omega arith) (omega arith)
