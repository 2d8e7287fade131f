-- ===== src/Iso/Buffer/Payload.antt =====
-- What `parseMdatBox` copies from a buffer that is a row of boxes.
use middleware_player_interf.Common.{
  ℕ, ◌+◌, ◌-◌, ◌%◌, ◌^◌, ◌≤◌, ◌<◌, ◌≡◌, refl, Bool, List, [], ◌∷◌, ◌++◌, Option, none, some, length,
  arith, if◌then◌else◌, Bool-cases, inl, inr,
}
use Prim.Native.String.{String}
use middleware_player_interf.Mp4.Reader.{ok}
use middleware_player_interf.Mp4.Reader.Values.{Holds}
use middleware_player_interf.Mp4.Layout.Places.{Holds-at, Holds-append, Holds-whole}
use middleware_player_interf.Iso.Fields.{u32_bytes, read_list}
use middleware_player_interf.Iso.Boxes.{Box, is_type, ◌>>=◌}
use middleware_player_interf.Iso.Buffer.{
  Buffer, find_box, parse_buffer, parse_mdat_box, get_mdat_box_size,
}
use middleware_player_interf.Iso.Buffer.Walk.{
  Item, IsRow, item_size, item_text, texts, texts-length, item_text-length, lay_out, some_item,
  bind-done, read_list-Holds, parse_buffer-row,
}

-- The first item of a type.
abbrev pub first_item : List Item → String → Option Item
first_item [] name = none
first_item (i ∷ items) name =
    let rest = first_item items name in if is_type i.type name then some i else rest

abbrev pub payload_of : Option Item → Option (List ℕ)
payload_of none = none
payload_of (some i) = some i.payload

abbrev pub size_of : Option Item → Option ℕ
size_of none = none
size_of (some i) = some (item_size i)

module _ (mem : List ℕ) (small : length mem < 2 ^ 32) where
  -- The payload of a box that starts at a place.
  copy_payload :
      (i : Item) (p : ℕ)
      → length i.type ≡ 4
      → Holds mem p (item_text i)
      → p + item_size i ≤ length mem
      → (read_list mem ((item_size i + (2 ^ 32 - 8)) % 2 ^ 32) ((p + 8) % 2 ^ 32)
          >>= λ (text, next). ok (some text))
        ≡ ok (some i.payload)
  copy_payload i p four h fits =
      let (k, l) =
        Holds-append mem (p + 4) i.type i.payload
          (Holds-append mem p (u32_bytes (item_size i)) (i.type ++ i.payload) h).1 in
      let n : (item_size i + (2 ^ 32 - 8)) % 2 ^ 32 ≡ length i.payload = omega arith in
      let at : (p + 8) % 2 ^ 32 ≡ p + 8 = omega arith in
      let copied =
        read_list-Holds mem i.payload (p + 8)
          (Holds-at mem (p + 4 + length i.type) (p + 8) i.payload (omega arith) l) in
      rw (n, at)
        (bind-done (i.payload, p + 8 + length i.payload) (λ (text, next). ok (some text)) copied)

  row-payload :
      (items : List Item) (p : ℕ) (chunk : Option Box)
      → IsRow items
      → Holds mem p (texts items)
      → p + length (texts items) ≤ length mem
      → (parse_mdat_box (record { buffer = mem; boxes = lay_out p items; chunked_box = chunk })
          ≡ ok (payload_of (first_item items "mdat")))
        × (get_mdat_box_size (record { buffer = mem; boxes = lay_out p items; chunked_box = chunk })
            ≡ size_of (first_item items "mdat"))
  unfolding parse_mdat_box get_mdat_box_size find_box
  row-payload [] p chunk row h fits = (refl, refl)
  row-payload (i ∷ items) p chunk (opaque, row) h fits =
      let (k, l) = Holds-append mem p (item_text i) (texts items) h in
      let long = texts-length i items opaque.0 in
      let first = item_text-length i opaque.0 in
      elim (Bool-cases (is_type i.type "mdat")) [
        | inl e ↦ (
          rw (e, parse_mdat_box, find_box) (copy_payload i p opaque.0 k (omega arith)),
          rw (e, get_mdat_box_size, find_box) refl,
        )
        | inr e ↦
            let rest =
              row-payload items (p + item_size i) chunk row
                (Holds-at mem _ _ (texts items) (omega arith) l) (omega arith) in
            (rw (e, parse_mdat_box, find_box) rest.0, rw (e, get_mdat_box_size, find_box) rest.1)
      ]

-- A buffer that is a row of boxes of types that are not looked into, with fewer than 2^32 bytes: behind
-- `parseBuffer`, `getMdatBoxSize` and `parseMdatBox` give the size and the payload of the first `mdat`
-- box of the row, and nothing where there is none.
pub parse_mdat_box-row :
    (items : List Item) (fuel : ℕ) (correct : Bool) (new_id : Option ℕ)
    → IsRow items
    → length (texts items) < 2 ^ 32
    → length items < fuel
    → (b : Buffer) × (parse_buffer fuel (texts items) correct new_id ≡ ok (some_item items, b))
      × (parse_mdat_box b ≡ ok (payload_of (first_item items "mdat")))
      × (get_mdat_box_size b ≡ size_of (first_item items "mdat"))
parse_mdat_box-row items fuel correct new_id row small enough =
    let found =
      row-payload (texts items) small items 0 none row (Holds-whole (texts items)) (omega arith) in
    (
      record { buffer = texts items; boxes = lay_out 0 items; chunked_box = none },
      parse_buffer-row items fuel correct new_id row small enough,
      found.0,
      found.1,
    )
