-- ===== src/Iso/Boxes.antt =====
-- playerisobmff/playerisobmffbox.cpp: `constructBox` and the boxes with children. The children are
-- constructed on fuel, which a child of size zero uses up: the loop then never ends.
use middleware_player_interf.Common.{
  ℕ, zero, suc, ◌+◌, ◌-◌, ◌%◌, ◌^◌, Bool, true, false, ◌&&◌, List, Option, none, some, ltb, ◌==◌,
  if◌then◌else◌,
}
use middleware_player_interf.Common.Bytes.{codes, same_text}
use Prim.Native.String.{String}
use middleware_player_interf.Mp4.Reader.{Result, ok, err, stuck, read_byte}
use middleware_player_interf.Iso.Fields.{read_u32, read_list, write_u32}
use middleware_player_interf.Iso.Leaves.{
  Timed, Tfdt, Tfhd, Prft, Sidx, Senc, Saiz, construct_timed_box, construct_tfdt_box,
  construct_tfhd_box, construct_prft_box, construct_sidx_box, construct_senc_box,
  construct_saiz_box,
}
use middleware_player_interf.Iso.Leaves.Samples.{Trun, construct_trun_box}
use middleware_player_interf.Iso.Leaves.Events.{Emsg, construct_emsg_box}

-- IsoBmffBox and its classes: the offset, the size, the four bytes of the type, and the rest.
mutual
  pub data Box : Type 0 where
    box : ℕ → ℕ → List ℕ → Body → Box

  pub data Body : Type 0 where
    plain : Body
    container : Boxes → Body
    trak : ℕ → Boxes → Body
    mvhd mdhd : Timed → Body
    tfhd : Tfhd → Body
    tfdt : Tfdt → Body
    trun : Trun → Body
    emsg : Emsg → Body
    prft : Prft → Body
    sidx : Sidx → Body
    mdat : ℕ → Body
    senc : Senc → Body
    saiz : Saiz → Body

  pub data Boxes : Type 0 where
    nil : Boxes
    cons : Box → Boxes → Boxes

abbrev pub get_size : Box → ℕ
get_size (box offset size type body) = size

abbrev pub get_offset : Box → ℕ
get_offset (box offset size type body) = offset

abbrev pub get_type : Box → List ℕ
get_type (box offset size type body) = type

abbrev pub set_offset : ℕ → Box → Box
set_offset os (box offset size type body) = box os size type body

infixl 5 ◌>>=◌
abbrev pub ◌>>=◌ : {A B : Type 0} → Result A → (A → Result B) → Result B
r >>= f = elim r [ err e ↦ err e | ok a ↦ f a ]

-- `IS_TYPE`: equal first four bytes.
unfoldable pub is_type : List ℕ → String → Bool
is_type type name = same_text type (codes name)

-- What `constructBox` does with a type.
pub data Kind : Type 0 where
  other_kind container_kind trak_kind tfhd_kind tfdt_kind trun_kind mvhd_kind mdhd_kind emsg_kind
        prft_kind sidx_kind mdat_kind senc_kind saiz_kind :
      Kind

unfoldable pub kind_of : List ℕ → Kind
unfolding is_type
kind_of type =
    if is_type type "moov"
    then container_kind
    else if is_type type "trak"
    then trak_kind
    else if is_type type "mdia"
    then container_kind
    else if is_type type "moof"
    then container_kind
    else if is_type type "traf"
    then container_kind
    else if is_type type "tfhd"
    then tfhd_kind
    else if is_type type "tfdt"
    then tfdt_kind
    else if is_type type "trun"
    then trun_kind
    else if is_type type "mvhd"
    then mvhd_kind
    else if is_type type "mdhd"
    then mdhd_kind
    else if is_type type "emsg"
    then emsg_kind
    else if is_type type "prft"
    then prft_kind
    else if is_type type "sidx"
    then sidx_kind
    else if is_type type "mdat"
    then mdat_kind
    else if is_type type "senc"
    then senc_kind
    else if is_type type "saiz"
    then saiz_kind
    else other_kind

-- The children, the track id of a track, and the buffer.
pub record Children : Type 0 where
  pub boxes : Boxes
  pub track_id : ℕ
  pub buffer : List ℕ

-- A leaf changes nothing in the buffer.
abbrev pub leaf : {A : Type 0} → List ℕ → (A → Body) → Result (A × ℕ) → Result (Body × List ℕ)
leaf mem make r = r >>= λ (a, next). ok (make a, mem)

-- A size and a type from the buffer.
unfoldable pub read_head : List ℕ → ℕ → Result (ℕ × List ℕ)
unfolding read_u32 read_list
read_head mem hdr =
    read_u32 mem hdr >>= λ (size, next). read_list mem 4 next >>= λ (type, behind). ok (size, type)

-- The new track id is none for -1.
module _ (kids : Bool → List ℕ → ℕ → ℕ → Option ℕ → Result Children) where
  -- The class that belongs to the type, from the pointer behind the size and the type.
  unfoldable pub construct_body : List ℕ → ℕ → ℕ → List ℕ → Option ℕ → Result (Body × List ℕ)
  unfolding kind_of
  construct_body mem ptr size type new_id = elim (kind_of type) [
    | other_kind ↦ ok (plain, mem)
    | container_kind ↦ kids false mem ptr size new_id >>= λ k. ok (container k.boxes, k.buffer)
    | trak_kind ↦ kids true mem ptr size new_id >>= λ k. ok (trak k.track_id k.boxes, k.buffer)
    | tfhd_kind ↦ leaf mem tfhd (construct_tfhd_box mem ptr)
    | tfdt_kind ↦ leaf mem tfdt (construct_tfdt_box mem ptr)
    | trun_kind ↦ leaf mem trun (construct_trun_box mem ptr)
    | mvhd_kind ↦ leaf mem mvhd (construct_timed_box mem ptr)
    | mdhd_kind ↦ leaf mem mdhd (construct_timed_box mem ptr)
    | emsg_kind ↦ leaf mem emsg (construct_emsg_box mem size ptr)
    | prft_kind ↦ leaf mem prft (construct_prft_box mem ptr)
    | sidx_kind ↦ leaf mem sidx (construct_sidx_box mem ptr)
    | mdat_kind ↦ ok (mdat (ptr - 8), mem)
    | senc_kind ↦ leaf mem senc (construct_senc_box mem ptr)
    | saiz_kind ↦ leaf mem saiz (construct_saiz_box mem ptr)
  ]

  -- `constructBox` behind the test of the size.
  abbrev pub construct_sized : List ℕ → ℕ → ℕ → List ℕ → Option ℕ → Result (Box × List ℕ)
  construct_sized mem hdr size type new_id =
      construct_body mem (hdr + 8) size type new_id >>= λ (body, mem').
      ok (box 0 size type body, mem')

  -- A box larger than what is there keeps its size and gets no class.
  abbrev pub construct_large : List ℕ → ℕ → List ℕ → Result (Box × List ℕ)
  construct_large mem size type = ok (box 0 size type plain, mem)

  -- The jump to L_RESTART, with the size written to the buffer.
  abbrev pub restart : List ℕ → ℕ → ℕ → Option ℕ → Result (Box × List ℕ)
  restart mem hdr max new_id = write_u32 mem hdr max >>= λ mem'.
      read_head mem' hdr >>= λ (size, type). elim (ltb max size) [
        | true ↦ construct_large mem' size type
        | false ↦ construct_sized mem' hdr size type new_id
      ]

  -- `constructBox`
  unfoldable pub construct_box : List ℕ → ℕ → ℕ → Bool → Option ℕ → Result (Box × List ℕ)
  unfolding read_head write_u32 construct_body
  construct_box mem hdr max correct new_id = elim (ltb max 8) [
    | true ↦ ok (box 0 max (codes "UKWN") plain, mem)
    | false ↦ read_head mem hdr >>= λ (size, type). elim (ltb max size) [
      | false ↦ construct_sized mem hdr size type new_id
      | true ↦ elim correct [
        | false ↦ construct_large mem size type
        | true ↦ restart mem hdr max new_id
      ]
    ]
  ]

-- The branch for `TKHD` of `constructTrakBox`: the track id and the buffer. The pointer is that of the
-- child, and the whole offset of the child is added to it.
unfoldable pub track_header : List ℕ → ℕ → ℕ → Option ℕ → Result (ℕ × List ℕ)
unfolding read_u32 write_u32
track_header mem ptr offset new_id = read_byte mem (ptr + offset) >>= λ (version, next).
    let at : ℕ = next + (if version == 1 then 19 else 11) in
    elim new_id [
      | none ↦ read_u32 mem at >>= λ (id, behind). ok (id, mem)
      | some id ↦
          write_u32 mem at id >>= λ mem'. read_u32 mem' at >>= λ (id', behind). ok (id', mem')
    ]

-- The track id after a child.
abbrev pub after_child : Bool → Box → List ℕ → ℕ → ℕ → ℕ → Option ℕ → Result (ℕ × List ℕ)
after_child is_trak child mem ptr offset track new_id =
    elim (is_trak && is_type (get_type child) "tkhd") [
      | true ↦ track_header mem ptr offset new_id
      | false ↦ ok (track, mem)
    ]

-- The loops of `constructContainer` and `constructTrakBox`, the offset in 32 bits.
unfoldable pub construct_children : ℕ → Bool → List ℕ → ℕ → ℕ → ℕ → ℕ → Option ℕ → Result Children
unfolding construct_box track_header is_type
construct_children zero is_trak mem ptr offset size track new_id = err stuck
construct_children (suc n) is_trak mem ptr offset size track new_id = elim (ltb offset size) [
  | false ↦ ok (record { boxes = nil; track_id = track; buffer = mem })
  | true ↦
      construct_box (λ trak mem ptr size id. construct_children n trak mem ptr 8 size 0 id) mem ptr
        (size - offset) false (if is_trak then none else new_id)
      >>= λ (child, mem').
          after_child is_trak child mem' ptr offset track new_id >>= λ (track', mem'').
          construct_children n is_trak mem'' (ptr + get_size child)
            ((offset + get_size child) % 2 ^ 32) size track' new_id
          >>= λ rest. ok (record rest { boxes = cons (set_offset offset child) rest.boxes })
]

-- `constructContainer` and `constructTrakBox`
abbrev pub construct_kids : ℕ → Bool → List ℕ → ℕ → ℕ → Option ℕ → Result Children
construct_kids fuel is_trak mem ptr size new_id =
    construct_children fuel is_trak mem ptr 8 size 0 new_id
