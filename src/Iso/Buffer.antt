-- ===== src/Iso/Buffer.antt =====
-- playerisobmff/playerisobmffbuffer.cpp: the boxes of a whole buffer. The size of the buffer is the length
-- of the list.
pub mod Walk
pub mod Sizes
pub mod Payload
use middleware_player_interf.Common.{
  ℕ, zero, suc, ◌+◌, ◌-◌, ◌%◌, ◌^◌, Bool, true, false, ◌||◌, List, [], ◌∷◌, Option, none, some, ltb,
  length, if◌then◌else◌,
}
use Prim.Native.String.{String}
use middleware_player_interf.Mp4.Reader.{Result, ok, err, stuck}
use middleware_player_interf.Iso.Fields.{read_list}
use middleware_player_interf.Iso.Boxes.{
  Box, ◌>>=◌, get_size, get_offset, get_type, set_offset, is_type, construct_box, construct_kids,
}

-- PlayerIsoBmffBuffer
pub record Buffer : Type 0 where
  pub buffer : List ℕ
  pub boxes : List Box
  pub chunked_box : Option Box

abbrev pub set_buffer : List ℕ → Buffer
set_buffer mem = record { buffer = mem; boxes = []; chunked_box = none }

-- A box that ends behind the buffer.
abbrev pub is_chunked : ℕ → Box → Bool
is_chunked left b = ltb left 4 || ltb left (get_size b)

-- The loop of `parseBuffer`, on fuel.
unfoldable pub parse_loop : ℕ → List ℕ → ℕ → Option Box → Bool → Option ℕ → Result Buffer
unfolding construct_box
parse_loop zero mem offset chunk correct new_id = err stuck
parse_loop (suc n) mem offset chunk correct new_id = elim (ltb offset (length mem)) [
  | false ↦ ok (record { buffer = mem; boxes = []; chunked_box = chunk })
  | true ↦
      construct_box (construct_kids n) mem offset ((length mem - offset) % 2 ^ 32) correct new_id
      >>= λ (b, mem').
          let placed : Box = set_offset (offset % 2 ^ 32) b in
          let chunk' : Option Box =
            if is_chunked (length mem - offset) b then some placed else chunk in
          parse_loop n mem' (offset + get_size b) chunk' correct new_id >>= λ rest.
          ok (record rest { boxes = placed ∷ rest.boxes })
]

-- `parseBuffer`, which tells whether there is a box.
unfoldable pub parse_buffer : ℕ → List ℕ → Bool → Option ℕ → Result (Bool × Buffer)
unfolding parse_loop
parse_buffer fuel mem correct new_id = parse_loop fuel mem 0 none correct new_id >>= λ b.
    ok (elim b.boxes [ [] ↦ false | x ∷ xs ↦ true ], b)

-- The first box of a type.
unfoldable pub find_box : List Box → String → Option Box
unfolding is_type
find_box [] name = none
find_box (b ∷ bs) name =
    let rest = find_box bs name in if is_type (get_type b) name then some b else rest

-- `isInitSegment`
unfoldable pub is_init_segment : Buffer → Bool
unfolding find_box
is_init_segment b = elim (find_box b.boxes "ftyp") [ none ↦ false | some found ↦ true ]

-- `getMdatBoxSize`: none where the argument is left as it is.
unfoldable pub get_mdat_box_size : Buffer → Option ℕ
unfolding find_box
get_mdat_box_size b = elim (find_box b.boxes "mdat") [
  | none ↦ none
  | some found ↦ some (get_size found)
]

-- `parseMdatBox`: what is copied, none where there is no such box. The size is a uint32_t.
unfoldable pub parse_mdat_box : Buffer → Result (Option (List ℕ))
unfolding find_box
parse_mdat_box b = elim (find_box b.boxes "mdat") [
  | none ↦ ok none
  | some found ↦
      read_list b.buffer ((get_size found + (2 ^ 32 - 8)) % 2 ^ 32)
        ((get_offset found + 8) % 2 ^ 32)
      >>= λ (text, next). ok (some text)
]
