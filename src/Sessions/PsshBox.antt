-- ===== src/Sessions/PsshBox.antt =====
-- A PSSH box of version 1 with key ids of 16 bytes and the data behind them, and what the Widevine helper reads out of it.
use middleware_player_interf.Common.{
  ℕ, zero, suc, ◌+◌, ◌*◌, ◌/◌, ◌%◌, ◌^◌, ◌≡◌, ◌<◌, ◌≤◌, refl, ap, ◌∙◌, true, false, List, [], ◌∷◌,
  ◌++◌, some, arith, leb, length, take, drop, All, ==_iff, take-append, length-append,
  ltb-irrefl_le,
}
use mathlib.Core.List.{append_assoc}
use middleware_player_interf.Common.Search.{append-one}
use middleware_player_interf.Iso.Fields.{u32_bytes}
use middleware_player_interf.Iso.Fields.Values.{four_bytes, joined}
use middleware_player_interf.Sessions.{Bytes}
use middleware_player_interf.Sessions.Widevine.{
  new_helper, put_key, read_word, Found, add_key, Parsed, parsed, key_ids_of, system_id_widevine,
  parse_key_ids, parse_version, parse_system, parse_type, parse_size, parse_pssh,
}

abbrev pub join : List Bytes → Bytes
join [] = []
join (k ∷ ks) = k ++ join ks

abbrev pub IsKeyId : Bytes → Type 0
IsKeyId k = length k ≡ 16

-- The size of the data, and these.
abbrev pub data_part : Bytes → Bytes
data_part d = u32_bytes (length d) ++ d

-- Behind the system id: the number of the key ids, these, and the data.
abbrev pub key_part : List Bytes → Bytes → Bytes
key_part ks d = u32_bytes (length ks) ++ (join ks ++ data_part d)

abbrev pub pssh_of : List Bytes → Bytes → Bytes
pssh_of ks d =
    u32_bytes (36 + (16 * length ks + length d))
    ++ (0x70 ∷ 0x73 ∷ 0x73 ∷ 0x68 ∷ 1 ∷ 0 ∷ 0 ∷ 0 ∷ (system_id_widevine ++ key_part ks d))

read_word-bytes :
    (v : ℕ) (rest : Bytes) → v < 2 ^ 32 → read_word (u32_bytes v ++ rest) ≡ some (v, rest)
unfolding read_word
read_word-bytes v rest h =
    let value =
      four_bytes (v / 2 ^ 24 % 256) (v / 2 ^ 16 % 256) (v / 2 ^ 8 % 256) (v % 256) (omega arith)
        (omega arith) (omega arith) in
    let small : v % 2 ^ 32 ≡ v = omega arith in
    ap (λ n. some (n, rest)) (value ∙ (joined v ∙ small))

put_key-next : (ks : List Bytes) (k : Bytes) → put_key ks (length ks) k ≡ ks ++ (k ∷ [])
put_key-next [] k = refl
put_key-next (x ∷ ks) k = ap (◌∷◌ x) (put_key-next ks k)

take_key : (n : ℕ) (k rest : Bytes) → length k ≡ n → take n (k ++ rest) ≡ k
take_key n k rest e = rw (← e) (take-append k rest)

drop_key : (n : ℕ) (k rest : Bytes) → length k ≡ n → drop n (k ++ rest) ≡ rest
drop_key n [] rest e = rw (← e) refl
drop_key zero (x ∷ k) rest e = absurd (omega arith)
drop_key (suc n) (x ∷ k) rest e = drop_key n k rest (omega arith)

-- The found state after keys have been added.
abbrev after_keys : List Bytes → Found → Parsed
after_keys [] f = parsed f.rc f.helper
after_keys (k ∷ ks) f = after_keys ks (add_key k f)

key_ids_of-join :
    (ks : List Bytes) (rest : Bytes) (f : Found)
    → All IsKeyId ks
    → key_ids_of (length ks) (join ks ++ rest) f ≡ after_keys ks f
unfolding key_ids_of
key_ids_of-join [] rest f h = refl
key_ids_of-join (k ∷ ks) rest f (e, h) =
    let tail : Bytes = join ks ++ rest in
    let split : join (k ∷ ks) ++ rest ≡ k ++ tail = append_assoc k (join ks) rest in
    let room : leb 16 (length (k ++ tail)) ≡ true =
      enough 16 _ (omega (arith, e, length-append k tail)) in
    ap (λ bs. key_ids_of (suc (length ks)) bs f) split
    ∙ rw (room, drop_key 16 k tail e, take_key 16 k tail e)
        (key_ids_of-join ks rest (add_key k f) h)
  where
    enough : (a b : ℕ) → a ≤ b → leb a b ≡ true
    enough a b h = ground arith

after_keys_lem :
    (k : Bytes) (ks : List Bytes) (f : Found)
    → f.kid_count ≡ length f.helper.key_ids
    → after_keys (k ∷ ks) f
      ≡ parsed true (record f.helper { key_ids = f.helper.key_ids ++ (k ∷ ks) })
after_keys_lem k [] f e = rw (e, put_key-next f.helper.key_ids k) refl
after_keys_lem k (x ∷ ks) f e =
    let old : List Bytes = f.helper.key_ids in
    let added : put_key old f.kid_count k ≡ old ++ (k ∷ []) = rw e (put_key-next old k) in
    after_keys_lem x ks (add_key k f) (rw added (omega (arith, e, length-append old (k ∷ []))))
    ∙ rw added
        (ap (λ xs. parsed true (record f.helper { key_ids = xs })) (append-one old (x ∷ ks) k))

system_lem :
    (rest : Bytes) (f : Found)
    → parse_system (some (2 ^ 24, system_id_widevine ++ rest)) f ≡ parse_key_ids (read_word rest) f
unfolding parse_system parse_version
system_lem rest f = rw (ltb-irrefl_le (length (system_id_widevine ++ rest)) 16 (omega arith)) refl

parse_key_ids-join :
    (ks : List Bytes) (rest : Bytes) (f : Found)
    → All IsKeyId ks
    → parse_key_ids (some (length ks, join ks ++ rest)) f ≡ after_keys ks f
unfolding parse_key_ids
parse_key_ids-join ks rest f h = key_ids_of-join ks rest f h

size_lem :
    (n m : ℕ) (body : Bytes) (f : Found)
    → m ≡ n
    → parse_size n (some (m, body)) f ≡ parse_type (read_word body) f
unfolding parse_size
size_lem n m body f e = rw ((==_iff m n).1 e) refl

type_lem :
    (rest : Bytes) (f : Found)
    → parse_type (read_word (0x70 ∷ 0x73 ∷ 0x73 ∷ 0x68 ∷ 1 ∷ 0 ∷ 0 ∷ 0 ∷ rest)) f
      ≡ parse_system (some (2 ^ 24, rest)) f
unfolding parse_type read_word
type_lem rest f = refl

length-join : (ks : List Bytes) → All IsKeyId ks → length (join ks) ≡ 16 * length ks
length-join [] h = refl
length-join (k ∷ ks) (e, h) = omega (arith, e, length-append k (join ks), length-join ks h)

-- For keys of 16 bytes, at least one, and any data, small enough for a 32-bit size: on the bytes of a box of
-- version 1 with these keys and data (the size, the type, the version, the system id, the number of the
-- keys, the keys, the size of the data and the data) a new helper succeeds, keeps the box as its init data,
-- and has exactly these keys in their order.
pub parse_pssh-keys :
    (k : Bytes) (ks : List Bytes) (d : Bytes)
    → All IsKeyId (k ∷ ks)
    → 36 + (16 * length (k ∷ ks) + length d) < 2 ^ 32
    → parse_pssh (pssh_of (k ∷ ks) d) new_helper
      ≡ parsed true (record new_helper { init_data = pssh_of (k ∷ ks) d; key_ids = k ∷ ks })
unfolding parse_pssh new_helper
parse_pssh-keys k ks d h small =
    let all : List Bytes = k ∷ ks in
    let total : ℕ = 36 + (16 * length all + length d) in
    let rest : Bytes = join all ++ data_part d in
    let body : Bytes =
      0x70 ∷ 0x73 ∷ 0x73 ∷ 0x68 ∷ 1 ∷ 0 ∷ 0 ∷ 0 ∷ (system_id_widevine ++ key_part all d) in
    let f : Found = record {
      kid_count = 0;
      rc = false;
      helper = record new_helper { init_data = pssh_of all d };
    } in
    let size : total ≡ length (pssh_of all d) =
      omega (arith, length-join all h, length-append (join all) (data_part d)) in
    let count : length all < 2 ^ 32 = omega arith in
    ap (λ r. parse_size (length (pssh_of all d)) r f) (read_word-bytes total body small)
    ∙ size_lem (length (pssh_of all d)) total body f size
    ∙ type_lem (system_id_widevine ++ key_part all d) f
    ∙ system_lem (key_part all d) f
    ∙ ap (λ r. parse_key_ids r f) (read_word-bytes (length all) rest count)
    ∙ parse_key_ids-join all (data_part d) f h
    ∙ after_keys_lem k ks f refl
