-- ===== src/Url/Texts.antt =====
-- The scans of the texts of an address, part by part.
use middleware_player_interf.Common.{
  ℕ, suc, ◌+◌, ◌≡◌, ◌≢◌, ◌↔◌, refl, true, List, [], ◌∷◌, ◌++◌, some, All, arith, length, drop, ◌⊎◌,
}
use middleware_player_interf.Url.{
  starts_with, is_protocol_char, parse_uri_protocol, host_end, path_end, find_query,
}

-- A text starts with a prefix exactly where it is the prefix and more.
pub starts_with_iff :
    (text prefix : List ℕ)
    → (starts_with text prefix ≡ true) ↔ ((rest : List ℕ) × (text ≡ prefix ++ rest))
unfolding starts_with
starts_with_iff text [] = (λ e. (text, refl), λ e. refl)
starts_with_iff [] (p ∷ prefix) = (λ e. absurd (cc), λ e. absurd (cc (e.1)))
starts_with_iff (c ∷ text) (p ∷ prefix) =
    let ih = starts_with_iff text prefix in
    (
      (λ e.
          let same : c ≡ p = ground arith in
          let below : starts_with text prefix ≡ true = ground arith in
          let (rest, q) = ih.0 below in (rest, cc)),
      (λ (rest, q).
          let same : c ≡ p = cc in
          let more : text ≡ prefix ++ rest = cc in
          let below : starts_with text prefix ≡ true = ih.1 (rest, more) in ground arith),
    )

-- The start of a query, or the end.
abbrev pub IsQuery : List ℕ → Type 0
IsQuery [] = Unit
IsQuery (c ∷ text) = c ≡ b'?'

abbrev pub IsStop : List ℕ → Type 0
IsStop [] = Unit
IsStop (c ∷ text) = (c ≡ b'/') ⊎ (c ≡ b'?')

abbrev pub InProtocol : ℕ → Type 0
InProtocol c = (is_protocol_char c ≡ true) × (c ≢ b':')

abbrev pub InHost : ℕ → Type 0
InHost c = (c ≢ b'/') × (c ≢ b'?')

pub parse_uri_protocol-append :
    (scheme rest : List ℕ)
    → All InProtocol scheme
    → parse_uri_protocol (scheme ++ (b':' ∷ b'/' ∷ b'/' ∷ rest)) ≡ some (length scheme + 3)
unfolding parse_uri_protocol
parse_uri_protocol-append [] rest h = refl
parse_uri_protocol-append (c ∷ scheme) rest h =
    ground (arith, parse_uri_protocol-append scheme rest h.1)

pub host_end-append :
    (host rest : List ℕ) → All InHost host → IsStop rest → host_end (host ++ rest) ≡ length host
unfolding host_end
host_end-append [] [] h s = refl
host_end-append [] (c ∷ rest) h s = ground arith
host_end-append (c ∷ host) rest h s = ground (arith, host_end-append host rest h.1 s)

pub path_end-file :
    (file query : List ℕ) (at last : ℕ)
    → All InHost file
    → IsQuery query
    → path_end (file ++ query) at last ≡ (last, at + length file)
unfolding path_end
path_end-file [] [] at last h q = ground arith
path_end-file [] (c ∷ query) at last h q = ground arith
path_end-file (c ∷ file) query at last h q =
    ground (arith, path_end-file file query (at + 1) last h.1 q)

pub path_end-directory :
    (directory rest : List ℕ) (at last : ℕ)
    → All (λ c. c ≢ b'?') directory
    → path_end (directory ++ (b'/' ∷ rest)) at last
      ≡ path_end rest (at + length directory + 1) (at + length directory)
unfolding path_end
path_end-directory [] rest at last h = let e : at + 0 ≡ at = omega arith in rw e
path_end-directory (c ∷ directory) rest at last h =
    let e : at + suc (length directory) ≡ at + 1 + length directory = omega arith in
    rw e (
      ground (
        arith,
        path_end-directory directory rest (at + 1) at h.1,
        path_end-directory directory rest (at + 1) last h.1,
      ))

pub find_query-append :
    (text query : List ℕ)
    → All (λ c. c ≢ b'?') text
    → IsQuery query
    → find_query (text ++ query) ≡ find_query query
unfolding find_query
find_query-append [] query h q = refl
find_query-append (c ∷ text) query h q = ground (arith, find_query-append text query h.1 q)

pub drop-append : (xs ys : List ℕ) → drop (length xs) (xs ++ ys) ≡ ys
drop-append [] ys = refl
drop-append (x ∷ xs) ys = drop-append xs ys
