-- ===== src/Url/Tests.antt =====
-- The theorems on addresses at concrete inputs.
use middleware_player_interf.Common.{true, false, none, ◌≡◌, refl, [], ◌∷◌, All, arith}
use middleware_player_interf.Common.Bytes.{codes}
use middleware_player_interf.Url.{
  find_query, is_protocol_char, parse_uri_protocol, address, fault, resolve_url, is_blank,
}
use middleware_player_interf.Url.Parts.{Base, base_text, IsBase}
use middleware_player_interf.Url.Resolving.{resolve_url-relative, resolve_url-root}
use middleware_player_interf.Url.Trimmed.{IsBlank}

-- http://a.b/x/y.m?k=1
abbrev base : Base
base = record {
  scheme = codes "http";
  host = codes "a.b";
  directory = codes "/x";
  file = codes "y.m";
  query = codes "?k=1";
}

base-IsBase : IsBase base
unfolding is_protocol_char
base-IsBase = record {
  scheme_legal = (
    (refl, omega arith),
    ((refl, omega arith), ((refl, omega arith), ((refl, omega arith), tt))),
  );
  host_legal =
      ((omega arith, omega arith), ((omega arith, omega arith), ((omega arith, omega arith), tt)));
  directory_legal = (omega arith, (omega arith, tt));
  directory_start = refl;
  file_legal =
      ((omega arith, omega arith), ((omega arith, omega arith), ((omega arith, omega arith), tt)));
  query_start = refl;
}

no_protocol : parse_uri_protocol (codes "z.m") ≡ none
unfolding parse_uri_protocol is_protocol_char
no_protocol = refl

root_no_protocol : parse_uri_protocol (codes "/q") ≡ none
unfolding parse_uri_protocol is_protocol_char
root_no_protocol = refl

resolve_url-relative_example :
    resolve_url [] (base_text base) (codes "z.m") true ≡ address (codes "http://a.b/x/z.m?k=1")
unfolding find_query
resolve_url-relative_example =
    resolve_url-relative [] base (codes "z.m") true base-IsBase no_protocol refl

resolve_url-root_example :
    resolve_url [] (base_text base) (codes "/q") false ≡ address (codes "http://a.b/q")
resolve_url-root_example =
    resolve_url-root [] base (codes "/q") false base-IsBase root_no_protocol refl

-- A base that names no protocol is read through a null pointer.
bare_base_faults : resolve_url [] (codes "/q") (codes "z.m") false ≡ fault
unfolding resolve_url parse_uri_protocol is_protocol_char
bare_base_faults = refl

blanks : All IsBlank (32 ∷ 9 ∷ [])
unfolding is_blank
blanks = (refl, (refl, tt))

newline : All IsBlank (10 ∷ [])
unfolding is_blank
newline = (refl, tt)

ink : is_blank b'a' ≡ false
unfolding is_blank
ink = refl
