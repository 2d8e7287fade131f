-- ===== src/Url/Resolving.antt =====
-- `ResolveURL` on addresses in parts.
use middleware_player_interf.Common.{
  ℕ, ◌+◌, ◌≡◌, ◌≢◌, refl, ap, sym, ◌∙◌, Bool, true, false, List, [], ◌∷◌, ◌++◌, none, some, All,
  All-append, All-map, arith, length, length-append, take, drop, take-append, if◌then◌else◌,
}
use mathlib.Core.List.{append_assoc}
use middleware_player_interf.Url.{
  parse_uri_protocol, find_query, starts_slash, is_relative, inherited, address, ends, resolve_url,
  query_of,
}
use middleware_player_interf.Url.Texts.{IsQuery, InHost, find_query-append}
use middleware_player_interf.Url.Parts.{
  Base, origin, base_text, IsBase, cut_host, cut_file, drop_at, base_text-parse, behind,
  base_text-behind, ends-root, ends-relative,
}

empty-parse : none ≡ parse_uri_protocol []
unfolding parse_uri_protocol
empty-parse = refl

none≢some : {n : ℕ} → none ≢ some n
none≢some e = absurd (cc)

-- `ResolveURL` where both parses are known.
resolve_url-parsed :
    (dst base uri : List ℕ) (propagate : Bool) (start : ℕ)
    → parse_uri_protocol uri ≡ none
    → parse_uri_protocol base ≡ some start
    → resolve_url dst base uri propagate
      ≡ address (
          take (ends base start uri).0 base
          ++ ((if starts_slash uri then [] else b'/' ∷ [])
              ++ (uri ++ inherited propagate (drop (ends base start uri).1 base) uri)))
unfolding resolve_url
resolve_url-parsed dst [] uri propagate start e f = absurd (none≢some (empty-parse ∙ f))
resolve_url-parsed dst (c ∷ text) uri propagate start e f = rw (e, resolve_url) (rw f refl)

-- What is left of the base's parameters: all of them, unless the address has its own.
abbrev pub carried : Bool → List ℕ → List ℕ → List ℕ
carried propagate query uri =
    if propagate then elim (find_query uri) [ some q ↦ [] | none ↦ query ] else []

query-inherited :
    (propagate : Bool) (query uri : List ℕ)
    → IsQuery query
    → inherited propagate query uri ≡ carried propagate query uri
unfolding inherited find_query
query-inherited propagate [] uri q = refl
query-inherited propagate (c ∷ query) uri q = ground arith

inherited-append :
    (propagate : Bool) (text query uri : List ℕ)
    → All (λ c. c ≢ b'?') text
    → IsQuery query
    → inherited propagate (text ++ query) uri ≡ carried propagate query uri
unfolding inherited
inherited-append propagate text query uri h q =
    ap
      (λ found.
        if propagate then elim (find_query uri) [ some q ↦ [] | none ↦ query_of found ] else [])
      (find_query-append text query h q)
    ∙ query-inherited propagate query uri q

file-length :
    (b : Base)
    → length ((origin b ++ b.directory) ++ (b'/' ∷ b.file))
      ≡ length (origin b) + length b.directory + 1 + length b.file
file-length b =
    let outer = length-append (origin b ++ b.directory) (b'/' ∷ b.file) in
    let inner = length-append (origin b) b.directory in rw (outer, inner) (omega arith)

relative-starts : (uri : List ℕ) → is_relative uri ≡ true → starts_slash uri ≡ false
relative-starts [] r = refl
relative-starts (c ∷ uri) r = ground arith

cut-take : (n : ℕ) (text xs ys : List ℕ) → text ≡ xs ++ ys → n ≡ length xs → take n text ≡ xs
cut-take n text xs ys e f = rw (e, f) (take-append xs ys)

-- A relative address that names no protocol: it takes the place of the file of a well-formed base, whose
-- protocol, host and directory are kept. The parameters of the base follow it where propagation is asked
-- for and the address has none of its own; otherwise they are dropped.
pub resolve_url-relative :
    (dst : List ℕ) (b : Base) (uri : List ℕ) (propagate : Bool)
    → IsBase b
    → parse_uri_protocol uri ≡ none
    → is_relative uri ≡ true
    → resolve_url dst (base_text b) uri propagate
      ≡ address ((origin b ++ b.directory) ++ (b'/' ∷ (uri ++ carried propagate b.query uri)))
resolve_url-relative dst b uri propagate v e r =
    let parsed = resolve_url-parsed dst (base_text b) uri propagate _ e (base_text-parse b v) in
    let found = ends-relative b uri v r in
    let kept =
      cut-take (length (origin b) + length b.directory) (base_text b) (origin b ++ b.directory) _
        refl (sym (length-append (origin b) b.directory)) in
    let left =
      drop_at (length (origin b) + length b.directory + 1 + length b.file) (base_text b) _ b.query
        (cut_file b) (sym (file-length b)) in
    parsed
    ∙ rw
        (
          found,
          kept,
          left,
          relative-starts uri r,
          query-inherited propagate b.query uri v.query_start,
        )
        refl

path-NoQuery : (b : Base) → IsBase b → All (λ c. c ≢ b'?') (b.directory ++ (b'/' ∷ b.file))
path-NoQuery b v =
    All-append (λ c. c ≢ b'?') b.directory (b'/' ∷ b.file) v.directory_legal
      ((omega arith), All-map InHost (λ c. c ≢ b'?') (λ c h. h.1) b.file v.file_legal)

root-starts : (uri : List ℕ) → starts_slash uri ≡ true → is_relative uri ≡ false
root-starts [] r = refl
root-starts (c ∷ uri) r = ground arith

-- An address that starts with a slash and names no protocol: it takes the place of all that is behind the
-- host of a well-formed base. The parameters of the base follow it where propagation is asked for and
-- the address has none of its own; otherwise they are dropped.
pub resolve_url-root :
    (dst : List ℕ) (b : Base) (uri : List ℕ) (propagate : Bool)
    → IsBase b
    → parse_uri_protocol uri ≡ none
    → starts_slash uri ≡ true
    → resolve_url dst (base_text b) uri propagate
      ≡ address (origin b ++ (uri ++ carried propagate b.query uri))
resolve_url-root dst b uri propagate v e r =
    let parsed = resolve_url-parsed dst (base_text b) uri propagate _ e (base_text-parse b v) in
    let found = ends-root b uri v (root-starts uri r) in
    let kept = cut-take (length (origin b)) (base_text b) (origin b) (behind b) (cut_host b) refl in
    let left = base_text-behind b in
    let same : behind b ≡ (b.directory ++ (b'/' ∷ b.file)) ++ b.query = simp append_assoc in
    let query = inherited-append propagate _ b.query uri (path-NoQuery b v) v.query_start in
    parsed ∙ rw (found, kept, left, r, same, query) refl
