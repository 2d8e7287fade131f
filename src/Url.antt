-- ===== src/Url.antt =====
-- PlayerUtils.cpp: prefixes, the resolution of an address against its base, and trimming. A string is
-- the list of its bytes, without the final zero, and a pointer into it an offset.
pub mod Texts
pub mod Parts
pub mod Resolving
pub mod Trimmed
mod Tests
use middleware_player_interf.Common.{
  ℕ, zero, suc, ◌+◌, ◌-◌, Bool, true, false, ◌&&◌, ◌||◌, not, List, [], ◌∷◌, ◌++◌, Option, none,
  some, leb, ◌==◌, if◌then◌else◌, take, drop, length,
}

-- `player_StartsWith`: a text that ends before the prefix compares its zero.
unfoldable pub starts_with : List ℕ → List ℕ → Bool
starts_with text [] = true
starts_with [] (p ∷ prefix) = false
starts_with (c ∷ text) (p ∷ prefix) =
    let rest = starts_with text prefix in if c == p then rest else false

abbrev is_between : ℕ → ℕ → ℕ → Bool
is_between lo hi c = leb lo c && leb c hi

-- `isalnum (ch) || ch == '.' || ch == '-' || ch == '+'`
unfoldable pub is_protocol_char : ℕ → Bool
is_protocol_char c =
    is_between b'0' b'9' c
    || (is_between b'A' b'Z' c
        || (is_between b'a' b'z' c || (c == b'.' || (c == b'-' || c == b'+'))))

abbrev pub plus_one : Option ℕ → Option ℕ
plus_one none = none
plus_one (some n) = some (n + 1)

abbrev two_slashes : List ℕ → Option ℕ
two_slashes (a ∷ b ∷ text) = if a == b'/' && b == b'/' then some 3 else none
two_slashes _ = none

-- `ParseUriProtocol`: the offset behind the protocol.
unfoldable pub parse_uri_protocol : List ℕ → Option ℕ
unfolding is_protocol_char
parse_uri_protocol [] = none
parse_uri_protocol (c ∷ text) =
    let rest = plus_one (parse_uri_protocol text) in
    if c == b':' then two_slashes text else if is_protocol_char c then rest else none

-- The first loop of `ResolveURL`: the offset of the first `/` or `?`, or of the end.
unfoldable pub host_end : List ℕ → ℕ
host_end [] = 0
host_end (c ∷ text) = let rest = host_end text + 1 in if c == b'/' || c == b'?' then 0 else rest

-- The second loop, from an offset on: the last `/` (or the one that is given), and the first `?` or the
-- end.
unfoldable pub path_end : List ℕ → ℕ → ℕ → ℕ × ℕ
path_end [] at last = (last, at)
path_end (c ∷ text) at last =
    let behind = path_end text (at + 1) at in
    let rest = path_end text (at + 1) last in
    if c == b'/' then behind else if c == b'?' then (last, at) else rest

-- `strchr (text, '?')`: the text from there on.
unfoldable pub find_query : List ℕ → Option (List ℕ)
find_query [] = none
find_query (c ∷ text) = let rest = find_query text in if c == b'?' then some (c ∷ text) else rest

abbrev pub starts_slash : List ℕ → Bool
starts_slash [] = false
starts_slash (c ∷ text) = c == b'/'

abbrev pub is_relative : List ℕ → Bool
is_relative [] = false
is_relative (c ∷ text) = not (c == b'/')

abbrev pub query_of : Option (List ℕ) → List ℕ
query_of none = []
query_of (some query) = query

-- The parameters of the base, from the pointer on, where the address has none of its own.
unfoldable pub inherited : Bool → List ℕ → List ℕ → List ℕ
unfolding find_query
inherited propagate text uri =
    if propagate
    then elim (find_query uri) [ some q ↦ [] | none ↦ query_of (find_query text) ]
    else []

-- `fault` is a read through the null pointer.
pub data Resolved : Type 0 where
  address : List ℕ → Resolved
  fault : Resolved

-- `ResolveURL` behind the protocol of the base: the end of the kept part, and the pointer.
unfoldable pub ends : List ℕ → ℕ → List ℕ → ℕ × ℕ
unfolding host_end path_end
ends base start uri =
    let host = start + host_end (drop start base) in
    if is_relative uri then path_end (drop host base) host host else (host, host)

-- `ResolveURL`, with what the destination held before.
unfoldable pub resolve_url : List ℕ → List ℕ → List ℕ → Bool → Resolved
unfolding ends inherited
resolve_url dst base uri propagate = elim (parse_uri_protocol uri) [
  | some behind ↦ address uri
  | none ↦ elim base [
    | [] ↦ address dst
    | c ∷ text ↦ elim (parse_uri_protocol (c ∷ text)) [
      | none ↦ fault
      | some start ↦
          let (base_end, base_ptr) = ends (c ∷ text) start uri in
          address (
            take base_end (c ∷ text)
            ++ ((if starts_slash uri then [] else b'/' ∷ [])
                ++ (uri ++ inherited propagate (drop base_ptr (c ∷ text)) uri)))
    ]
  ]
]

-- The characters " \n\r\t\f\v"
unfoldable pub is_blank : ℕ → Bool
is_blank c = c == 32 || (c == 10 || (c == 13 || (c == 9 || (c == 12 || c == 11))))

-- `find_first_not_of` and `find_last_not_of`
unfoldable pub first_not_blank : List ℕ → Option ℕ
unfolding is_blank
first_not_blank [] = none
first_not_blank (c ∷ text) =
    let rest = plus_one (first_not_blank text) in if is_blank c then rest else some 0

unfoldable pub last_not_blank : List ℕ → Option ℕ
unfolding is_blank
last_not_blank [] = none
last_not_blank (c ∷ text) = elim (last_not_blank text) [
  | some n ↦ some (n + 1)
  | none ↦ if is_blank c then none else some 0
]

-- `trim`
unfoldable pub trim : List ℕ → List ℕ
unfolding first_not_blank last_not_blank
trim text = elim (first_not_blank text) [
  | none ↦ text
  | some first ↦ elim (last_not_blank text) [
    | none ↦ text
    | some last ↦ take (last - first + 1) (drop first text)
  ]
]
