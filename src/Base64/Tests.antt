-- ===== src/Base64/Tests.antt =====
-- Runs of the base64 functions, and the theorems at concrete inputs.
use middleware_player_interf.Common.{
  ℕ, Bool, true, ◌≡◌, refl, List, All, arith, ◌++◌, map, ◌≤◌, ◌*◌, ◌/◌, ◌%◌, ◌^◌, ◌⊎◌, length,
}
use middleware_player_interf.Common.Bytes.{codes, IsByte}
use middleware_player_interf.Base64.{
  bytes, null, string, base64_encode, base64_decode, encode_loop, emit_group, encode_digit,
  decode_loop, read_group, write_group, decode_digit, base64_url_encode, base64_url_decode, map_url,
  to_url, c_string,
}
use middleware_player_interf.Base64.Groups.{sextets, padding, base64_encode-sextets}
use middleware_player_interf.Base64.RoundTrip.{base64_decode-encode}
use middleware_player_interf.Base64.Bounds.{base64_decode_fits}
use middleware_player_interf.Base64.Url.{base64_url_decode-encode}

abbrev always : ℕ → Bool
always n = true

encode_1234 : base64_encode always (codes "1234") ≡ string (codes "MTIzNA==")
unfolding base64_encode encode_loop emit_group encode_digit
encode_1234 = refl

decode_1234 : base64_decode always (codes "MTIzNA==") ≡ bytes (codes "1234")
unfolding base64_decode decode_loop read_group write_group decode_digit
decode_1234 = refl

url_encode_1234 : base64_url_encode always (codes "1234") ≡ string (codes "MTIzNA")
unfolding base64_url_encode base64_encode encode_loop emit_group encode_digit map_url to_url
    c_string
url_encode_1234 = refl

is_bytes : All IsByte (codes "1234")
is_bytes = (omega arith, (omega arith, (omega arith, (omega arith, tt))))

base64_encode-sextets_example :
    base64_encode always (codes "1234")
    ≡ string (map encode_digit (sextets (codes "1234")) ++ padding (codes "1234"))
base64_encode-sextets_example =
    base64_encode-sextets always (codes "1234") is_bytes refl (omega arith)

base64_decode-encode_example : base64_decode always (codes "MTIzNA==") ≡ bytes (codes "1234")
base64_decode-encode_example =
    base64_decode-encode always (codes "1234") (codes "MTIzNA==") is_bytes encode_1234 refl

base64_decode_fits_example :
    (base64_decode always (codes "MTIzNA==") ≡ null)
    ⊎ ((out : List ℕ) × (base64_decode always (codes "MTIzNA==") ≡ bytes out)
        × (length out ≤ 8 * 3 % 2 ^ 64 / 4))
base64_decode_fits_example = base64_decode_fits always (codes "MTIzNA==") (omega arith)

base64_url_decode-encode_example : base64_url_decode always (codes "MTIzNA") ≡ bytes (codes "1234")
base64_url_decode-encode_example =
    base64_url_decode-encode always (codes "1234") (codes "MTIzNA") is_bytes (λ n. refl)
      url_encode_1234 (omega arith)
