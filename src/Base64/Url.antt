-- ===== src/Base64/Url.antt =====
-- Decoding what the base64-URL encoder wrote.
use middleware_player_interf.Common.{
  ℕ, ◌<◌, ◌≡◌, refl, ap, ◌∙◌, List, [], ◌∷◌, ◌&&◌, ◌++◌, map, arith, All, length, Bool, true, ◌==◌,
  ltb, ◌^◌, lt→ltb, inl, inr, ◌⊎◌,
}
use middleware_player_interf.Common.Bytes.{IsByte, holds_below, holds_below→holds}
use mathlib.Core.List.{append-nil}
use middleware_player_interf.Base64.{
  encode_digit, bytes, base64_encode, base64_url_encode, base64_url_decode, to_url, from_url,
  map_url, map_from_url, c_string, string, no_string, index_overflow, Encoded,
}
use middleware_player_interf.Base64.Groups.{sextets, padding, sextets-lt, base64_encode-string}
use middleware_player_interf.Base64.RoundTrip.{base64_decode-digits}

abbrev url_test : ℕ → Bool
url_test v =
    from_url (to_url (encode_digit v)) == encode_digit v
    && (ltb 0 (encode_digit v)
        && (ltb 0 (to_url (encode_digit v)) && ltb 0 (from_url (to_url (encode_digit v)))))

url_table : holds_below 64 url_test ≡ true
unfolding holds_below encode_digit to_url from_url
url_table = refl

abbrev pub url_digits : List ℕ → List ℕ
url_digits vs = map (λ v. to_url (encode_digit v)) vs

record IsUrlDigitOf (v : ℕ) : Type 0 where
  back : from_url (to_url (encode_digit v)) ≡ encode_digit v
  nonzero : 0 < encode_digit v
  nonzero_url : 0 < to_url (encode_digit v)

to_url-IsUrlDigitOf : (v : ℕ) → v < 64 → IsUrlDigitOf v
to_url-IsUrlDigitOf v h =
    let e : url_test v ≡ true = holds_below→holds 64 url_test v h url_table in
    record { back = ground arith; nonzero = ground arith; nonzero_url = ground arith }

-- The copy that `base64_URL_Decode` makes.
map_from_url_digits :
    (vs rest : List ℕ)
    → All (λ v. v < 64) vs
    → map_from_url (url_digits vs) ++ rest ≡ map encode_digit vs ++ rest
unfolding map_from_url
map_from_url_digits [] rest h = refl
map_from_url_digits (v ∷ vs) rest h =
    cc ((to_url-IsUrlDigitOf v h.0).back, map_from_url_digits vs rest h.1)

-- The string that is read from it ends at the zero behind the padding.
c_string_digits :
    (vs rest : List ℕ)
    → All (λ v. v < 64) vs
    → c_string (map encode_digit vs ++ rest) ≡ map encode_digit vs ++ c_string rest
unfolding c_string
c_string_digits [] rest h = refl
c_string_digits (v ∷ vs) rest h =
    ground (arith, (to_url-IsUrlDigitOf v h.0).nonzero, c_string_digits vs rest h.1)

c_string_url :
    (vs rest : List ℕ)
    → All (λ v. v < 64) vs
    → c_string (map_url (map encode_digit vs ++ rest)) ≡ url_digits vs ++ c_string (map_url rest)
unfolding c_string map_url
c_string_url [] rest h = refl
c_string_url (v ∷ vs) rest h =
    let x = to_url-IsUrlDigitOf v h.0 in
    ground (arith, x.nonzero, x.nonzero_url, c_string_url vs rest h.1)

c_string-padding : (src : List ℕ) → c_string (map_url (padding src)) ≡ []
unfolding c_string map_url to_url
c_string-padding [] = refl
c_string-padding (a ∷ []) = refl
c_string-padding (a ∷ b ∷ []) = refl
c_string-padding (a ∷ b ∷ c ∷ rest) = c_string-padding rest

-- `base64_URL_Encode` writes the digits of the six-bit groups in the URL alphabet, and no padding.
Encoded-cases :
    (x : Encoded) → ((cs : List ℕ) × (x ≡ string cs)) ⊎ ((x ≡ no_string) ⊎ (x ≡ index_overflow))
Encoded-cases (string cs) = inl (cs, refl)
Encoded-cases no_string = inr (inl refl)
Encoded-cases index_overflow = inr (inr refl)

base64_url_encode-string :
    (malloc : ℕ → Bool) (src text : List ℕ)
    → All IsByte src
    → base64_url_encode malloc src ≡ string text
    → text ≡ url_digits (sextets src)
unfolding base64_url_encode
base64_url_encode-string malloc src text h e = elim (Encoded-cases (base64_encode malloc src)) [
  | inl (cs, f) ↦
      let kept : string (c_string (map_url cs)) ≡ string text = rw (f, base64_url_encode) at e in
      let shape : cs ≡ map encode_digit (sextets src) ++ padding src =
        base64_encode-string malloc src cs h f in
      cc kept
      ∙ ap (λ xs. c_string (map_url xs)) shape
      ∙ c_string_url (sextets src) (padding src) (sextets-lt src h)
      ∙ ap (◌++◌ (url_digits (sextets src))) (c_string-padding src)
      ∙ append-nil (url_digits (sextets src))
  | inr (inl f) ↦ absurd (cc (f, e))
  | inr (inr f) ↦ absurd (cc (f, e))
]

-- Wherever every allocation succeeds, `base64_URL_Encode` gives a string for some bytes (so that its `int`
-- index stays in range) and that string is shorter than 2 ^ 31 (so that the index of the decoder does):
-- `base64_URL_Decode` gives these bytes back.
pub base64_url_decode-encode :
    (malloc : ℕ → Bool) (src text : List ℕ)
    → All IsByte src
    → ((n : ℕ) → malloc n ≡ true)
    → base64_url_encode malloc src ≡ string text
    → length text < 2 ^ 31
    → base64_url_decode malloc text ≡ bytes src
base64_url_decode-encode malloc src text h room e short = rw written (
    unfold base64_url_decode in
    rw (room _, lt→ltb (length (url_digits (sextets src))) (2 ^ 31) (rw written at short))
      (rw copied
        (base64_decode-digits malloc src (b'=' ∷ b'=' ∷ []) h (refl, (refl, tt)) (room _))))
  where
    digits : List ℕ
    digits = map encode_digit (sextets src)

    written : text ≡ url_digits (sextets src)
    written = base64_url_encode-string malloc src text h e

    copied :
        c_string (map_from_url (url_digits (sextets src)) ++ (b'=' ∷ b'=' ∷ 0 ∷ []))
        ≡ digits ++ (b'=' ∷ b'=' ∷ [])
    copied = rw (map_from_url_digits (sextets src) (b'=' ∷ b'=' ∷ 0 ∷ []) (sextets-lt src h)) (
        c_string_digits (sextets src) (b'=' ∷ b'=' ∷ 0 ∷ []) (sextets-lt src h)
        ∙ unfold c_string in refl)
