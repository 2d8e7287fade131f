-- ===== src/Iso/Buffer/Walk.antt =====
-- What `parseBuffer` returns for a buffer that is a row of boxes.
use middleware_player_interf.Common.{
  ℕ, zero, suc, ◌+◌, ◌-◌, ◌%◌, ◌^◌, ◌≤◌, ◌<◌, ◌≡◌, refl, ap, ◌∙◌, Bool, true, false, ◌⊎◌, inl, inr,
  List, [], ◌∷◌, ◌++◌, Option, none, All, length, length-append, ltb, arith, ltb-irrefl_le, lt→ltb,
  ◌||◌,
}
use mathlib.Core.Path.{subst}
use middleware_player_interf.Mp4.Reader.{Result, ok, read_byte}
use middleware_player_interf.Mp4.Reader.Values.{Holds, bind-ok, read_byte-Holds, ok_at}
use middleware_player_interf.Mp4.Layout.Places.{Holds-at, Holds-append, Holds-whole}
use middleware_player_interf.Iso.Fields.{read_list, u32_bytes}
use middleware_player_interf.Iso.Fields.Values.{read_u32-Holds}
use middleware_player_interf.Iso.Boxes.{
  Box, box, Body, plain, mdat, ◌>>=◌, other_kind, mdat_kind, kind_of, read_head, Children,
  construct_body, construct_sized, construct_box, construct_kids,
}
use middleware_player_interf.Iso.Buffer.{Buffer, parse_loop, parse_buffer}

-- A box of a type that is not looked into.
pub record Item : Type 0 where
  pub type : List ℕ
  pub payload : List ℕ

abbrev pub item_size : Item → ℕ
item_size i = 8 + length i.payload

abbrev pub item_text : Item → List ℕ
item_text i = u32_bytes (item_size i) ++ (i.type ++ i.payload)

abbrev pub texts : List Item → List ℕ
texts [] = []
texts (i ∷ items) = item_text i ++ texts items

abbrev pub IsOpaque : List ℕ → Type 0
IsOpaque type = (length type ≡ 4) × ((kind_of type ≡ other_kind) ⊎ (kind_of type ≡ mdat_kind))

abbrev pub body_of : List ℕ → ℕ → Body
body_of type at = elim (kind_of type) [ mdat_kind ↦ mdat at | _ ↦ plain ]

-- The boxes of a row, from an offset on.
abbrev pub lay_out : ℕ → List Item → List Box
lay_out at [] = []
lay_out at (i ∷ items) =
    box at (item_size i) i.type (body_of i.type at) ∷ lay_out (at + item_size i) items

-- A step that returns goes on with its value.
pub bind-done :
    {A B : Type 0} {r : Result A} (a : A) (f : A → Result B) → r ≡ ok a → (r >>= f) ≡ f a
bind-done a f e = rw e refl

module _ (mem : List ℕ) where
  pub read_list-Holds :
      (xs : List ℕ) (p : ℕ) → Holds mem p xs → read_list mem (length xs) p ≡ ok (xs, p + length xs)
  unfolding read_list
  read_list-Holds [] p h = ok_at [] p (p + 0) (omega arith)
  read_list-Holds (x ∷ xs) p h =
      bind-ok (read_byte mem) _ (read_byte-Holds mem p x h.0)
      ∙ (bind-ok (read_list mem (length xs)) _ (read_list-Holds xs (p + 1) h.1)
          ∙ ok_at (x ∷ xs) (p + 1 + length xs) (p + suc (length xs)) (omega arith))

  pub read_head-Holds :
      (size p : ℕ) (type : List ℕ)
      → Holds mem p (u32_bytes size ++ type)
      → length type ≡ 4
      → read_head mem p ≡ ok (size % 2 ^ 32, type)
  unfolding read_head
  read_head-Holds size p type h four =
      let (k, l) = Holds-append mem p (u32_bytes size) type h in
      let list : read_list mem 4 (p + 4) ≡ ok (type, p + 4 + length type) =
        subst (λ n. read_list mem n (p + 4) ≡ ok (type, p + 4 + length type)) four
          (read_list-Holds type (p + 4) l) in
      rw (read_u32-Holds mem size p k, read_head) (rw list refl)

  ok_size :
      (a b : ℕ) (type : List ℕ)
      → a ≡ b
      → ◌≡◌ {A = Result (ℕ × List ℕ)} (ok (a, type)) (ok (b, type))
  ok_size a b type e = rw e refl

  pub read_head-small :
      (size p : ℕ) (type : List ℕ)
      → Holds mem p (u32_bytes size ++ type)
      → length type ≡ 4
      → size < 2 ^ 32
      → read_head mem p ≡ ok (size, type)
  read_head-small size p type h four small =
      read_head-Holds size p type h four ∙ ok_size (size % 2 ^ 32) size type (omega arith)

  module _ (kids : Bool → List ℕ → ℕ → ℕ → Option ℕ → Result Children) where
    construct_body-opaque :
        (ptr size : ℕ) (type : List ℕ) (new_id : Option ℕ)
        → (kind_of type ≡ other_kind) ⊎ (kind_of type ≡ mdat_kind)
        → construct_body kids mem ptr size type new_id ≡ ok (body_of type (ptr - 8), mem)
    unfolding construct_body
    construct_body-opaque ptr size type new_id (inl e) = rw (e, construct_body, body_of) refl
    construct_body-opaque ptr size type new_id (inr e) = rw (e, construct_body, body_of) refl

    pub construct_sized-opaque :
        (p size : ℕ) (type : List ℕ) (new_id : Option ℕ)
        → (kind_of type ≡ other_kind) ⊎ (kind_of type ≡ mdat_kind)
        → construct_sized kids mem p size type new_id ≡ ok (box 0 size type (body_of type p), mem)
    construct_sized-opaque p size type new_id kind =
        let body = construct_body-opaque (p + 8) size type new_id kind in
        let back : p + 8 - 8 ≡ p = omega arith in
        let placed : construct_body kids mem (p + 8) size type new_id ≡ ok (body_of type p, mem) =
          body ∙ ap (λ (q : ℕ). ok (body_of type q, mem)) back in
        bind-done (body_of type p, mem) (λ (b, mem'). ok (box 0 size type b, mem')) placed

    pub construct_box-opaque :
        (p size max : ℕ) (type : List ℕ) (correct : Bool) (new_id : Option ℕ)
        → Holds mem p (u32_bytes size ++ type)
        → IsOpaque type
        → size < 2 ^ 32
        → 8 ≤ max
        → size ≤ max
        → construct_box kids mem p max correct new_id ≡ ok (box 0 size type (body_of type p), mem)
    unfolding construct_box
    construct_box-opaque p size max type correct new_id h (four, kind) small eight fits =
        let head = read_head-small size p type h four small in
        let enough : ltb max 8 ≡ false = ltb-irrefl_le max 8 eight in
        let not_large : ltb max size ≡ false = ltb-irrefl_le max size fits in
        rw (enough, construct_box)
          (bind-done (size, type) _ head
            ∙ rw not_large (construct_sized-opaque p size type new_id kind))

abbrev pub IsRow : List Item → Type 0
IsRow items = All (λ i. IsOpaque i.type) items

pub item_text-length : (i : Item) → length i.type ≡ 4 → length (item_text i) ≡ item_size i
item_text-length i four = let inner = length-append i.type i.payload in omega (arith)

pub texts-length :
    (i : Item) (items : List Item)
    → length i.type ≡ 4
    → length (texts (i ∷ items)) ≡ item_size i + length (texts items)
texts-length i items four =
    length-append (item_text i) (texts items)
    ∙ ap (λ (n : ℕ). n + length (texts items)) (item_text-length i four)

-- The loop from a place on where the rest of the row stands.
module _ (mem : List ℕ) (chunk : Option Box) (correct : Bool) (new_id : Option ℕ)
    (small : length mem < 2 ^ 32) where
  not_chunked :
      (size more left : ℕ) → left ≡ size + more → 8 ≤ size → (ltb left 4 || ltb left size) ≡ false
  not_chunked size more left e eight =
      rw (ltb-irrefl_le left 4 (omega arith), ltb-irrefl_le left size (omega arith)) refl

  parse_loop-row :
      (items : List Item) (n offset : ℕ)
      → IsRow items
      → Holds mem offset (texts items)
      → length mem ≡ offset + length (texts items)
      → length items < n
      → parse_loop n mem offset chunk correct new_id
        ≡ ok (record { buffer = mem; boxes = lay_out offset items; chunked_box = chunk })
  unfolding parse_loop
  parse_loop-row items zero offset row h e fuel = absurd (omega arith)
  parse_loop-row [] (suc n) offset row h e fuel =
      let ended : ltb offset (length mem) ≡ false =
        ltb-irrefl_le offset (length mem) (omega arith) in
      rw (ended, parse_loop) refl
  parse_loop-row (i ∷ items) (suc n) offset (opaque, row) h e fuel =
      let (k, l) = Holds-append mem offset (item_text i) (texts items) h in
      let ahead : Holds mem offset (u32_bytes (item_size i) ++ i.type) =
        (Holds-append mem offset (u32_bytes (item_size i) ++ i.type) i.payload k).0 in
      let long = texts-length i items opaque.0 in
      let first = item_text-length i opaque.0 in
      let more : ltb offset (length mem) ≡ true = lt→ltb offset (length mem) (omega arith) in
      let left : (length mem - offset) % 2 ^ 32 ≡ item_size i + length (texts items) =
        omega arith in
      let built =
        construct_box-opaque mem (construct_kids n) offset (item_size i)
          (item_size i + length (texts items)) i.type correct new_id ahead opaque (omega arith)
          (omega arith) (omega arith) in
      let rest =
        parse_loop-row items n (offset + item_size i) row
          (Holds-at mem _ _ (texts items) (omega arith) l) (omega arith) (omega arith) in
      let whole =
        not_chunked (item_size i) (length (texts items)) (length mem - offset) (omega arith)
          (omega arith) in
      let place : offset % 2 ^ 32 ≡ offset = omega arith in
      rw (more, parse_loop)
        (rw left (
          bind-done (box 0 (item_size i) i.type (body_of i.type offset), mem) _ built
          ∙ rw (whole, place, rest) refl))

abbrev pub some_item : List Item → Bool
some_item [] = false
some_item (i ∷ items) = true

some-row :
    (items : List Item)
    → ◌≡◌ {A = Result (Bool × Buffer)}
        (ok (
          elim (lay_out 0 items) [ [] ↦ false | x ∷ xs ↦ true ],
          record { buffer = texts items; boxes = lay_out 0 items; chunked_box = none },
        ))
        (ok (
          some_item items,
          record { buffer = texts items; boxes = lay_out 0 items; chunked_box = none },
        ))
some-row [] = refl
some-row (i ∷ items) = refl

-- A buffer that is a row of boxes of types that are not looked into, with fewer than 2^32 bytes: the loop
-- ends within one round more than there are boxes, the boxes are those of the row at the offsets where
-- they start, none is chunked, and the buffer is as before.
pub parse_buffer-row :
    (items : List Item) (fuel : ℕ) (correct : Bool) (new_id : Option ℕ)
    → IsRow items
    → length (texts items) < 2 ^ 32
    → length items < fuel
    → parse_buffer fuel (texts items) correct new_id
      ≡ ok (
        some_item items,
        record { buffer = texts items; boxes = lay_out 0 items; chunked_box = none },
      )
unfolding parse_buffer
parse_buffer-row items fuel correct new_id row small enough =
    let walked =
      parse_loop-row (texts items) none correct new_id small items fuel 0 row
        (Holds-whole (texts items)) (omega arith) enough in
    rw (walked, parse_buffer) (some-row items)
