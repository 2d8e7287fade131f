-- ===== src/Iso/Buffer/Sizes.antt =====
-- Boxes whose size field is zero, or is larger than what is left of the buffer.
use middleware_player_interf.Common.{
  ℕ, zero, suc, ◌+◌, ◌-◌, ◌%◌, ◌^◌, ◌≤◌, ◌<◌, ◌≡◌, refl, ◌∙◌, Bool, true, false, List, ◌++◌, Option,
  length, ltb, arith, ltb-irrefl_le, lt→ltb, inr,
}
use middleware_player_interf.Mp4.Reader.{Result, ok, err, stuck}
use middleware_player_interf.Mp4.Reader.Values.{Holds}
use middleware_player_interf.Mp4.Layout.Places.{Holds-append}
use middleware_player_interf.Mp4.Restamp.Written.{Holds-join}
use middleware_player_interf.Iso.Fields.{u32_bytes, put}
use middleware_player_interf.Iso.Fields.Values.{Holds-put, put-Holds, write_u32-read}
use middleware_player_interf.Iso.Boxes.{Box, box, Children, construct_box, construct_kids}
use middleware_player_interf.Iso.Buffer.{parse_loop}
use middleware_player_interf.Iso.Buffer.Walk.{
  IsOpaque, body_of, bind-done, read_head-small, construct_box-opaque, construct_sized-opaque,
}

-- A box of size zero and of a type that is not looked into, in front of which eight bytes or more are
-- left: `parseBuffer` adds it for ever, no number of rounds is enough.
pub parse_loop-zero :
    (n : ℕ) (mem : List ℕ) (offset : ℕ) (type : List ℕ) (chunk : Option Box) (correct : Bool)
    (new_id : Option ℕ)
    → Holds mem offset (u32_bytes 0 ++ type)
    → IsOpaque type
    → offset + 8 ≤ length mem
    → length mem < 2 ^ 32
    → parse_loop n mem offset chunk correct new_id ≡ err stuck
unfolding parse_loop
parse_loop-zero zero mem offset type chunk correct new_id h opaque eight small = refl
parse_loop-zero (suc n) mem offset type chunk correct new_id h opaque eight small =
    let more : ltb offset (length mem) ≡ true = lt→ltb offset (length mem) (omega arith) in
    let left : (length mem - offset) % 2 ^ 32 ≡ length mem - offset = omega arith in
    let built =
      construct_box-opaque mem (construct_kids n) offset 0 (length mem - offset) type correct new_id
        h opaque (omega arith) (omega arith) (omega arith) in
    let not_small : ltb (length mem - offset) 4 ≡ false =
      ltb-irrefl_le (length mem - offset) 4 (omega arith) in
    let not_large : ltb (length mem - offset) 0 ≡ false =
      ltb-irrefl_le (length mem - offset) 0 (omega arith) in
    let same : offset + 0 ≡ offset = omega arith in
    let rest = parse_loop-zero n mem offset type chunk correct new_id h opaque eight small in
    rw (more, parse_loop)
      (rw left (
        bind-done (box 0 0 type (body_of type offset), mem) _ built
        ∙ rw (not_small, not_large, same, rest) refl))

-- A box of a type that is not looked into, larger than what is left: with the correction its size becomes
-- what is left, in the box and in the buffer.
pub construct_box-corrected :
    (kids : Bool → List ℕ → ℕ → ℕ → Option ℕ → Result Children) (mem : List ℕ) (p size max : ℕ)
    (type : List ℕ) (new_id : Option ℕ)
    → Holds mem p (u32_bytes size ++ type)
    → IsOpaque type
    → size < 2 ^ 32
    → 8 ≤ max
    → max < size
    → p + 8 ≤ length mem
    → construct_box kids mem p max true new_id
      ≡ ok (box 0 max type (body_of type p), put mem p (u32_bytes max))
unfolding construct_box
construct_box-corrected kids mem p size max type new_id h opaque small eight large fits =
    let head = read_head-small mem size p type h opaque.0 small in
    let (k, l) = Holds-append mem p (u32_bytes size) type h in
    let mem' : List ℕ = put mem p (u32_bytes max) in
    let enough : ltb max 8 ≡ false = ltb-irrefl_le max 8 eight in
    let is_large : ltb max size ≡ true = lt→ltb max size large in
    let written = (write_u32-read mem p max (omega arith)).0 in
    let h' =
      Holds-join mem' p (u32_bytes max) type (put-Holds mem p (u32_bytes max) (omega arith))
        (Holds-put mem p (u32_bytes max) (p + 4) type l (inr (omega arith))) in
    let again = read_head-small mem' max p type h' opaque.0 (omega arith) in
    let fits' : ltb max max ≡ false = ltb-irrefl_le max max (omega arith) in
    let rest = construct_sized-opaque mem' kids p max type new_id opaque.1 in
    rw (enough, construct_box)
      (bind-done (size, type) _ head
        ∙ rw is_large (bind-done mem' _ written ∙ (bind-done (max, type) _ again ∙ rw fits' rest)))
