-- ===== src/Url/Parts.antt =====
-- An address in parts, and what the scans of `ResolveURL` find in its text.
use middleware_player_interf.Common.{
  ℕ, ◌+◌, ◌≡◌, ◌≢◌, refl, ap, sym, ◌∙◌, true, false, List, [], ◌∷◌, ◌++◌, some, All, length,
  length-append, drop, inl,
}
use mathlib.Core.List.{append_assoc}
use middleware_player_interf.Url.{parse_uri_protocol, host_end, is_relative, ends}
use middleware_player_interf.Url.Texts.{
  IsQuery, IsStop, InProtocol, InHost, parse_uri_protocol-append, host_end-append, path_end-file,
  path_end-directory, drop-append,
}

-- scheme://host directory/file query
pub record Base : Type 0 where
  pub scheme : List ℕ
  pub host : List ℕ
  pub directory : List ℕ
  pub file : List ℕ
  pub query : List ℕ

abbrev pub origin : Base → List ℕ
origin b = (b.scheme ++ (b':' ∷ b'/' ∷ b'/' ∷ [])) ++ b.host

abbrev pub base_text : Base → List ℕ
base_text b = (origin b ++ b.directory) ++ (b'/' ∷ (b.file ++ b.query))

-- The directory is empty or starts with a slash.
abbrev pub IsDirectory : List ℕ → Type 0
IsDirectory [] = Unit
IsDirectory (c ∷ text) = c ≡ b'/'

pub record IsBase (b : Base) : Type 0 where
  pub scheme_legal : All InProtocol b.scheme
  pub host_legal : All InHost b.host
  pub directory_legal : All (λ c. c ≢ b'?') b.directory
  pub directory_start : IsDirectory b.directory
  pub file_legal : All InHost b.file
  pub query_start : IsQuery b.query

-- The text of the base, cut at the places that the scans find.
pub cut_scheme :
    (b : Base)
    → base_text b
      ≡ (b.scheme ++ (b':' ∷ b'/' ∷ b'/' ∷ []))
        ++ (b.host ++ (b.directory ++ (b'/' ∷ (b.file ++ b.query))))
cut_scheme b = simp append_assoc

pub cut_host : (b : Base) → base_text b ≡ origin b ++ (b.directory ++ (b'/' ∷ (b.file ++ b.query)))
cut_host b = simp append_assoc

pub cut_file : (b : Base) → base_text b ≡ ((origin b ++ b.directory) ++ (b'/' ∷ b.file)) ++ b.query
cut_file b = simp append_assoc

pub drop_at : (n : ℕ) (text xs ys : List ℕ) → text ≡ xs ++ ys → n ≡ length xs → drop n text ≡ ys
drop_at n text xs ys e f = rw (e, f) (drop-append xs ys)

pub base_text-parse :
    (b : Base) → IsBase b → parse_uri_protocol (base_text b) ≡ some (length b.scheme + 3)
base_text-parse b v =
    let e : base_text b
        ≡ b.scheme
          ++ (b':' ∷ b'/' ∷ b'/' ∷ (b.host ++ (b.directory ++ (b'/' ∷ (b.file ++ b.query))))) =
      simp append_assoc in
    ap parse_uri_protocol e ∙ parse_uri_protocol-append b.scheme _ v.scheme_legal

-- The base behind its host.
abbrev pub behind : Base → List ℕ
behind b = b.directory ++ (b'/' ∷ (b.file ++ b.query))

pub behind-IsStop :
    (directory rest : List ℕ) → IsDirectory directory → IsStop (directory ++ (b'/' ∷ rest))
behind-IsStop [] rest d = inl refl
behind-IsStop (c ∷ directory) rest d = inl d

pub base_text-host :
    (b : Base)
    → IsBase b
    → length b.scheme + 3 + host_end (drop (length b.scheme + 3) (base_text b)) ≡ length (origin b)
base_text-host b v =
    let start : length b.scheme + 3 ≡ length (b.scheme ++ (b':' ∷ b'/' ∷ b'/' ∷ [])) =
      sym (length-append b.scheme _) in
    let tail = drop_at (length b.scheme + 3) (base_text b) _ _ (cut_scheme b) start in
    let host =
      host_end-append b.host (behind b) v.host_legal
        (behind-IsStop b.directory _ v.directory_start) in
    let sum = length-append (b.scheme ++ (b':' ∷ b'/' ∷ b'/' ∷ [])) b.host in
    rw (tail, host, sum, start) refl

pub base_text-behind : (b : Base) → drop (length (origin b)) (base_text b) ≡ behind b
base_text-behind b =
    drop_at (length (origin b)) (base_text b) (origin b) (behind b) (cut_host b) refl

pub ends-root :
    (b : Base) (uri : List ℕ)
    → IsBase b
    → is_relative uri ≡ false
    → ends (base_text b) (length b.scheme + 3) uri ≡ (length (origin b), length (origin b))
unfolding ends
ends-root b uri v r = rw (r, base_text-host b v) refl

pub ends-relative :
    (b : Base) (uri : List ℕ)
    → IsBase b
    → is_relative uri ≡ true
    → ends (base_text b) (length b.scheme + 3) uri ≡ (
      length (origin b) + length b.directory,
      length (origin b) + length b.directory + 1 + length b.file,
    )
unfolding ends
ends-relative b uri v r =
    rw (r, base_text-host b v, base_text-behind b)
      (path_end-directory b.directory (b.file ++ b.query) _ _ v.directory_legal
        ∙ path_end-file b.file b.query _ _ v.file_legal v.query_start)
