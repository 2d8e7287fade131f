-- ===== src/Sessions/Widevine.antt =====
-- drm/helper/WidevineDrmHelper.cpp: the key ids of a Widevine PSSH box. A pointer into the box is the list
-- of the bytes from there to its end; a read behind the end, and a shift that C++ leaves undefined, is `fault`.
use middleware_player_interf.Common.{
  ℕ, zero, suc, ◌+◌, ◌/◌, ◌%◌, ◌^◌, Bool, true, false, ◌&&◌, ◌||◌, bit_and, bit_or, List, [], ◌∷◌,
  Option, none, some, ltb, leb, ◌==◌, if◌then◌else◌, length, take, drop, get_or,
}
use middleware_player_interf.Common.Bits.{◌<<<◌}
use middleware_player_interf.Common.Bytes.{same_text, codes}
use middleware_player_interf.Sessions.{Bytes}
use middleware_player_interf.Sessions.Creation.{DrmHelper}

-- `mKeyIDs` is a map whose keys count from 0: a list. `none` is the default slot -1.
pub record WidevineHelper : Type 0 where
  pub init_data : Bytes
  pub key_ids : List Bytes
  pub content_metadata : Bytes
  pub default_key_slot : Option ℕ
  pub protection_scheme : ℕ

unfoldable pub new_helper : WidevineHelper
new_helper = record {
  init_data = [];
  key_ids = [];
  content_metadata = [];
  default_key_slot = none;
  protection_scheme = 0;
}

-- `mKeyIDs[i] = key` for an `i` that is at most the size.
abbrev pub put_key : List Bytes → ℕ → Bytes → List Bytes
put_key [] i key = key ∷ []
put_key (k ∷ ks) zero key = key ∷ ks
put_key (k ∷ ks) (suc i) key = k ∷ put_key ks i key

-- READ_U32, and what is behind it
unfoldable pub read_word : Bytes → Option (ℕ × Bytes)
read_word (a ∷ b ∷ c ∷ d ∷ rest) =
    some (bit_or (bit_or (bit_or (a <<< 24) (b <<< 16)) (c <<< 8)) d, rest)
read_word _ = none

-- The value, of which only the low 32 bits are used, and what is behind it. The shift is one of an `int`: by 32
-- or more, or with bits that leave its 32, it is undefined, and the result is `none`.
unfoldable pub parse_multi_int : ℕ → ℕ → Bytes → Option (ℕ × Bytes)
parse_multi_int shift value [] = some (value, [])
parse_multi_int shift value (code ∷ bytes) =
    let piece = bit_and code 0x7F <<< shift in
    let rest = parse_multi_int (shift + 7) (bit_or value piece) bytes in
    if leb 32 shift || leb (2 ^ 32) piece
    then none
    else if bit_and code 0x80 == 0
    then some (bit_or value piece, bytes)
    else rest

-- The variables of the loop: `kidCount`, `rc` and the helper.
pub record Found : Type 0 where
  pub kid_count : ℕ
  pub rc : Bool
  pub helper : WidevineHelper

abbrev pub add_key : Bytes → Found → Found
add_key key f = record {
  kid_count = f.kid_count + 1;
  rc = true;
  helper = record f.helper { key_ids = put_key f.helper.key_ids f.kid_count key };
}

-- A content id or a key id, behind its type.
unfoldable pub key_field : Bytes → Found → Option (Bytes × Found)
key_field [] f = none
key_field (size ∷ bytes) f = some (
  drop size bytes,
  if ltb 0 size && leb size (length bytes) then add_key (take size bytes) f else f,
)

unfoldable pub skip_field : Bytes → Found → Option (Bytes × Found)
skip_field [] f = none
skip_field (size ∷ bytes) f = some (drop size bytes, f)

-- A number that is not used.
unfoldable pub ignore_number : Option (ℕ × Bytes) → Found → Option (Bytes × Found)
ignore_number none f = none
ignore_number (some (value, bytes)) f = some (bytes, f)

unfoldable pub keep_scheme : Option (ℕ × Bytes) → Found → Option (Bytes × Found)
keep_scheme none f = none
keep_scheme (some (value, bytes)) f =
    some (bytes, record f { helper = record f.helper { protection_scheme = value % 2 ^ 32 } })

-- One round of the loop, behind the type of the field; `none` is a read behind the end, or a shift that is
-- undefined.
unfoldable pub field : ℕ → Bytes → Found → Option (Bytes × Found)
field type bytes f =
    if type == 0x38 || (type == 0x50 || type == 0x08)
    then ignore_number (parse_multi_int 0 0 bytes) f
    else if type == 0x48
    then keep_scheme (parse_multi_int 0 0 bytes) f
    else if type == 0x22 || type == 0x12
    then key_field bytes f
    else if type == 0x32 || (type == 0x2A || type == 0x1A)
    then skip_field bytes f
    else some (bytes, f)

-- What `parsePssh` comes to; `stuck`: the fuel of the loop ran out.
pub data Parsed : Type 0 where
  fault stuck : Parsed
  parsed : Bool → WidevineHelper → Parsed

unfoldable pub fields : ℕ → Bytes → Found → Parsed
fields fuel [] f = parsed f.rc f.helper
fields zero (type ∷ bytes) f = stuck
fields (suc fuel) (type ∷ bytes) f = elim (field type bytes f) [
  | none ↦ fault
  | some (rest, f') ↦ fields fuel rest f'
]

-- The loop over the key ids of version 1, from index `i` on, for a number of them.
unfoldable pub key_ids_of : ℕ → Bytes → Found → Parsed
key_ids_of zero bytes f = parsed f.rc f.helper
key_ids_of (suc n) bytes f =
    let rest = key_ids_of n (drop 16 bytes) (add_key (take 16 bytes) f) in
    if leb 16 (length bytes) then rest else fault

abbrev pub system_id_widevine : Bytes
system_id_widevine =
    0xED ∷ 0xEF ∷ 0x8B ∷ 0xA9 ∷ 0x79 ∷ 0xD6 ∷ 0x4A ∷ 0xCE ∷ 0xA3 ∷ 0xC8 ∷ 0x27 ∷ 0xDC ∷ 0xD5 ∷ 0x1D
    ∷ 0x21 ∷ 0xED ∷ []

-- Behind the system id, by the version. A size that is not that of the rest is only logged.
unfoldable pub parse_fields : Option (ℕ × Bytes) → Found → Parsed
parse_fields none f = fault
parse_fields (some (size, bytes)) f = fields (length bytes) bytes f

unfoldable pub parse_key_ids : Option (ℕ × Bytes) → Found → Parsed
parse_key_ids none f = fault
parse_key_ids (some (count, bytes)) f = key_ids_of count bytes f

unfoldable pub parse_version : ℕ → Bytes → Found → Parsed
parse_version version bytes f =
    if version == 0
    then parse_fields (read_word bytes) f
    else if version == 1
    then parse_key_ids (read_word bytes) f
    else parsed false f.helper

unfoldable pub parse_system : Option (ℕ × Bytes) → Found → Parsed
parse_system none f = fault
parse_system (some (version_and_flags, bytes)) f =
    if ltb (length bytes) 16
    then fault
    else if same_text (take 16 bytes) system_id_widevine
    then parse_version (version_and_flags / 2 ^ 24 % 256) (drop 16 bytes) f
    else parsed false f.helper

unfoldable pub parse_type : Option (ℕ × Bytes) → Found → Parsed
parse_type none f = fault
parse_type (some (type, bytes)) f =
    if type == 0x70737368 then parse_system (read_word bytes) f else parsed false f.helper

unfoldable pub parse_size : ℕ → Option (ℕ × Bytes) → Found → Parsed
parse_size size none f = fault
parse_size size (some (box_size, bytes)) f =
    if box_size == size then parse_type (read_word bytes) f else parsed false f.helper

unfoldable pub parse_pssh : Bytes → WidevineHelper → Parsed
parse_pssh pssh h =
    parse_size (length pssh) (read_word pssh)
      (record { kid_count = 0; rc = false; helper = record h { init_data = pssh } })

-- `getKey`; `setDefaultKeyID` takes the last slot with the key.
unfoldable pub key_at : Option ℕ → List Bytes → Bytes
key_at slot [] = []
key_at none (k ∷ ks) = k
key_at (some i) (k ∷ ks) = if ltb i (length (k ∷ ks)) then get_or (k ∷ ks) i [] else k

unfoldable pub last_slot : Bytes → ℕ → List Bytes → Option ℕ → Option ℕ
last_slot key i [] old = old
last_slot key i (k ∷ ks) old = last_slot key (suc i) ks (if same_text key k then some i else old)

unfoldable pub set_default_key_id : Bytes → WidevineHelper → WidevineHelper
set_default_key_id key h = record h {
  default_key_slot = last_slot key 0 h.key_ids h.default_key_slot;
}

-- The helper as the session manager sees it.
unfoldable pub widevine_helper : WidevineHelper → DrmHelper
widevine_helper h = record {
  key = key_at h.default_key_slot h.key_ids;
  keys = h.key_ids;
  ocdm_system_id = codes "com.widevine.alpha";
  init_data = h.init_data;
}
