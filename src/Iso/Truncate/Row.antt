-- ===== src/Iso/Truncate/Row.antt =====
-- A run that is cut to one sample, with a `skip` box over the rest.
use middleware_player_interf.Common.{
  ℕ, ◌+◌, ◌-◌, ◌*◌, ◌%◌, ◌^◌, ◌≤◌, ◌<◌, ◌≡◌, refl, ap, ◌∙◌, true, List, ◌++◌, some, length, ltb,
  leb, arith, get_elem?, ◌⊎◌, inl, inr, lt→ltb,
}
use middleware_player_interf.Common.Bytes.{codes}
use middleware_player_interf.Mp4.Reader.{ok}
use middleware_player_interf.Mp4.Reader.Values.{Holds, ok_at}
use middleware_player_interf.Mp4.Layout.Places.{Holds-at}
use middleware_player_interf.Mp4.Restamp.Written.{Holds-join}
use middleware_player_interf.Iso.Fields.{u32_bytes, put, read_u32}
use middleware_player_interf.Iso.Fields.Values.{
  Holds-put, put-Holds, put-other, length-put, write_u32-read, write-ok, read_u32-Holds,
}
use middleware_player_interf.Iso.Leaves.{Full}
use middleware_player_interf.Iso.Leaves.Samples.{Trun}
use middleware_player_interf.Iso.Boxes.{read_head}
use middleware_player_interf.Iso.Buffer.Walk.{bind-done, read_head-small}
use middleware_player_interf.Iso.Truncate.{
  sub_u32, bytes_per_sample, write_skip_box, truncate_trun, get_base, cut_trun,
}

sub_u32-le : (a b : ℕ) → b ≤ a → a < 2 ^ 32 → sub_u32 a b ≡ a - b
sub_u32-le a b h small = omega arith

-- The buffer with a `skip` box.
abbrev skipped : List ℕ → ℕ → ℕ → List ℕ
skipped mem size at = put (put mem at (u32_bytes size)) (at + 4) (codes "skip")

write_skip_box-ok :
    (mem : List ℕ) (size at : ℕ)
    → at + 8 ≤ length mem
    → write_skip_box mem size at ≡ ok (skipped mem size at)
unfolding write_skip_box
write_skip_box-ok mem size at h =
    let first = (write_u32-read mem at size (omega arith)).0 in
    let long = length-put mem at (u32_bytes size) in
    bind-done (put mem at (u32_bytes size)) _ first
    ∙ write-ok (put mem at (u32_bytes size)) (at + 4) (codes "skip") (omega arith)

get_base-some : (full : Full) (base : ℕ) → full.base ≡ some base → get_base full ≡ ok base
get_base-some full base e = rw (e, get_base) refl

-- The three writes, in their order.
abbrev pub truncated : List ℕ → ℕ → ℕ → ℕ → ℕ → List ℕ
truncated mem loc base new_size cut =
    skipped (put (put mem loc (u32_bytes 1)) base (u32_bytes new_size)) cut (base + new_size)

cut_trun-truncated :
    (mem : List ℕ) (size base : ℕ) (b : Trun) (n cut : ℕ)
    → b.full.base ≡ some base
    → n + cut ≡ size
    → 8 ≤ cut
    → size < 2 ^ 32
    → base + size ≤ length mem
    → b.sample_count_loc + 4 ≤ length mem
    → 8 ≤ n
    → cut_trun mem size b n cut
      ≡ ok (n, (record b { sample_count = 1 }, truncated mem b.sample_count_loc base n cut))
unfolding cut_trun
cut_trun-truncated mem size base b n cut based sum room small inside loc header =
    let enough : leb 8 (sub_u32 size n) ≡ true = ground arith in
    let mem' : List ℕ = put mem b.sample_count_loc (u32_bytes 1) in
    let mem'' : List ℕ = put mem' base (u32_bytes n) in
    let long = length-put mem b.sample_count_loc (u32_bytes 1) in
    let longer = length-put mem' base (u32_bytes n) in
    let first = (write_u32-read mem b.sample_count_loc 1 loc).0 in
    let second = (write_u32-read mem' base n (omega arith)).0 in
    let third = write_skip_box-ok mem'' cut (base + n) (omega arith) in
    bind-done mem' _ first
    ∙ rw enough (
        bind-done base _ (get_base-some b.full base based)
        ∙ (bind-done mem'' _ second ∙ bind-done (skipped mem'' cut (base + n)) _ third))

truncate_trun-truncated :
    (mem : List ℕ) (size base : ℕ) (b : Trun) (n cut : ℕ)
    → b.full.base ≡ some base
    → 1 < b.sample_count
    → b.sample_count * bytes_per_sample b.full.flags ≡ bytes_per_sample b.full.flags + cut
    → n + cut ≡ size
    → bytes_per_sample b.full.flags + 8 ≤ n
    → 8 ≤ cut
    → size < 2 ^ 32
    → base + size ≤ length mem
    → b.sample_count_loc + 4 ≤ length mem
    → truncate_trun mem size b
      ≡ ok (n, (record b { sample_count = 1 }, truncated mem b.sample_count_loc base n cut))
unfolding truncate_trun
truncate_trun-truncated mem size base b n cut based many table sum header room small inside loc =
    let each : ℕ = bytes_per_sample b.full.flags in
    let new_size : (sub_u32 size (b.sample_count * each % 2 ^ 32) + each) % 2 ^ 32 ≡ n =
      omega arith in
    let rest : sub_u32 (b.sample_count * each % 2 ^ 32) each ≡ cut = omega arith in
    let big : ltb 1 b.sample_count ≡ true = lt→ltb 1 b.sample_count many in
    rw (big, truncate_trun)
      (ap (λ (m : ℕ). cut_trun mem size b m (sub_u32 (b.sample_count * each % 2 ^ 32) each))
          new_size
        ∙ (ap (λ (m : ℕ). cut_trun mem size b n m) rest
            ∙ cut_trun-truncated mem size base b n cut based sum room small inside loc
                (omega arith)))

-- A run of more than one sample, whose table ends the box and whose rest has room for a box: `truncate`
-- stores the count of one, and the buffer then holds at the place of the box one of the same type with
-- the new size, and behind it a `skip` box over all that is left of the old size. Every other byte of the
-- buffer stays: the version and the flags of the run, the bytes from behind its count to the new end, which
-- hold the first sample, those behind the head of the `skip` box, and those in front of the box.
pub truncate_trun-row :
    (mem : List ℕ) (size base : ℕ) (b : Trun) (n cut : ℕ) (type : List ℕ)
    → b.full.base ≡ some base
    → b.sample_count_loc ≡ base + 12
    → 1 < b.sample_count
    → b.sample_count * bytes_per_sample b.full.flags ≡ bytes_per_sample b.full.flags + cut
    → n + cut ≡ size
    → bytes_per_sample b.full.flags + 16 ≤ n
    → 8 ≤ cut
    → size < 2 ^ 32
    → base + size ≤ length mem
    → Holds mem (base + 4) type
    → length type ≡ 4
    → (j : ℕ)
    → (j < base)
      ⊎ (((base + 8 ≤ j) × (j < base + 12))
          ⊎ (((base + 16 ≤ j) × (j < base + n)) ⊎ (base + n + 8 ≤ j)))
    → (mem' : List ℕ) × (truncate_trun mem size b ≡ ok (n, (record b { sample_count = 1 }, mem')))
      × (read_head mem' base ≡ ok (n, type))
      × (read_u32 mem' (base + 12) ≡ ok (1, base + 16))
      × (read_head mem' (base + n) ≡ ok (cut, codes "skip"))
      × (get_elem? mem' j ≡ get_elem? mem j)
truncate_trun-row mem size base b n cut type based loc many table sum header room small inside h
      four j apart =
    let one : List ℕ = put mem b.sample_count_loc (u32_bytes 1) in
    let sized : List ℕ = put one base (u32_bytes n) in
    let headed : List ℕ = put sized (base + n) (u32_bytes cut) in
    let a = length-put mem b.sample_count_loc (u32_bytes 1) in
    let a' = length-put one base (u32_bytes n) in
    let a'' = length-put sized (base + n) (u32_bytes cut) in
    let final : List ℕ = put headed (base + n + 4) (codes "skip") in
    let keep : (p : ℕ) (xs : List ℕ)
        → Holds sized p xs
        → p + length xs ≤ base + n
        → Holds final p xs =
      λ p xs k before.
        Holds-put headed (base + n + 4) (codes "skip") p xs
          (Holds-put sized (base + n) (u32_bytes cut) p xs k (inl before)) (inl (omega arith)) in
    let name : Holds sized (base + 4) type =
      Holds-put one base (u32_bytes n) (base + 4) type
        (Holds-put mem b.sample_count_loc (u32_bytes 1) (base + 4) type h (inl (omega arith)))
        (inr (omega arith)) in
    let front =
      Holds-join sized base (u32_bytes n) type (put-Holds one base (u32_bytes n) (omega arith))
        name in
    let count : Holds sized (base + 12) (u32_bytes 1) =
      Holds-put one base (u32_bytes n) (base + 12) (u32_bytes 1)
        (Holds-at one _ (base + 12) (u32_bytes 1) loc
          (put-Holds mem b.sample_count_loc (u32_bytes 1) (omega arith)))
        (inr (omega arith)) in
    let back =
      Holds-join final (base + n) (u32_bytes cut) (codes "skip")
        (Holds-put headed (base + n + 4) (codes "skip") (base + n) (u32_bytes cut)
          (put-Holds sized (base + n) (u32_bytes cut) (omega arith)) (inl (omega arith)))
        (put-Holds headed (base + n + 4) (codes "skip") (omega arith)) in
    (
      put headed (base + n + 4) (codes "skip"),
      truncate_trun-truncated mem size base b n cut based many table sum (omega arith) room small
          inside (omega arith),
      read_head-small final n base type (keep base (u32_bytes n ++ type) front (omega arith)) four
          (omega arith),
      read_u32-Holds final 1 (base + 12) (keep (base + 12) (u32_bytes 1) count (omega arith))
          ∙ ok_at 1 (base + 12 + 4) (base + 16) (omega arith),
      read_head-small final cut (base + n) (codes "skip") back refl (omega arith),
      put-other headed (base + n + 4) (codes "skip") j (omega arith)
          ∙ (put-other sized (base + n) (u32_bytes cut) j (omega arith)
              ∙ (put-other one base (u32_bytes n) j (omega arith)
                  ∙ put-other mem b.sample_count_loc (u32_bytes 1) j (omega arith))),
    )
