-- ===== src/Mp4/Restamp/Adjusted.antt =====
-- `mp4_AdjustMediaDecodeTime` on a decode time box.
use middleware_player_interf.Common.{
  ℕ, zero, suc, ◌+◌, ◌/◌, ◌%◌, ◌^◌, ◌<◌, ◌≤◌, ◌≡◌, ap, sym, ◌∙◌, List, [], ◌∷◌, ◌++◌, true, some,
  get_elem?, arith, length, ltb, ◌⊎◌,
}
use mathlib.Core.Path.{subst}
use middleware_player_interf.Mp4.Reader.{ok, read_bytes, read_header}
use middleware_player_interf.Mp4.Reader.Values.{
  Holds, big_endian, bind-ok, length-big_endian, read_u32-Holds, read_bytes-Holds,
  read_header-Holds,
}
use middleware_player_interf.Mp4.Boxes.{time_size}
use middleware_player_interf.Mp4.Codec.{four_cc}
use middleware_player_interf.Mp4.Layout.{box_bytes, time_bytes}
use middleware_player_interf.Mp4.Layout.Places.{Holds-append, Holds-at}
use middleware_player_interf.Mp4.Restamp.{
  write_bytes, value_of, adjust_time, adjust_media_decode_time,
}
use middleware_player_interf.Mp4.Restamp.Written.{
  Holds-join, write_bytes-other, write_bytes-Holds, write_bytes-Holds_before,
}

time_size-le : (version : ℕ) → time_size version ≤ 8
time_size-le version = ground arith

get_elem?-lt : (xs : List ℕ) (i b : ℕ) → get_elem? xs i ≡ some b → i < length xs
get_elem?-lt [] i b e = absurd (cc)
get_elem?-lt (x ∷ xs) zero b e = omega arith
get_elem?-lt (x ∷ xs) (suc i) b e = omega (arith, get_elem?-lt xs i b e)

Holds-fits :
    (mem : List ℕ) (p : ℕ) (xs : List ℕ)
    → p ≤ length mem
    → Holds mem p xs
    → p + length xs ≤ length mem
Holds-fits mem p [] k h = omega arith
Holds-fits mem p (x ∷ xs) k h =
    omega (arith, Holds-fits mem (p + 1) xs (omega (arith, get_elem?-lt mem p x h.0)) h.1)

tfdt_fits : four_cc "tfdt" < 2 ^ 32
unfolding four_cc
tfdt_fits = omega arith

-- What stands before the time in its box.
abbrev prefix : ℕ → ℕ → ℕ → List ℕ
prefix size version flags =
    big_endian 4 size ++ (big_endian 4 (four_cc "tfdt") ++ (version ∷ big_endian 3 flags))

-- The branch of the box reads the time behind the header, and writes the new one over it.
adjust_time-Holds :
    (delta version flags time p : ℕ) (mem : List ℕ)
    → flags < 2 ^ 24
    → time < 256 ^ time_size version
    → Holds mem p (version ∷ big_endian 3 flags)
    → Holds mem (p + 4) (big_endian (time_size version) time)
    → adjust_time delta mem p
      ≡ ok (
        (
          write_bytes (time_size version) ((time + delta) % 2 ^ 64) (p + 4) mem,
          (time + delta) % 2 ^ 64,
        ),
        p + 4 + time_size version,
      )
unfolding adjust_time
adjust_time-Holds delta version flags time p mem f t h k =
    bind-ok (read_header mem) _ (read_header-Holds mem version flags p h f)
    ∙ bind-ok (read_bytes mem (time_size version)) _
        (read_bytes-Holds mem (time_size version) time (p + 4) k (time_size-le version) t)

-- Where the pointer stands before a decode time box, the function adds the delta to its time: it
-- returns the sum, the memory holds the same box with the sum as its time (cut to the four bytes of a
-- time of version 0), and no byte outside the time has changed.
pub adjust_media_decode_time-tfdt :
    (fuel delta version flags time fin p : ℕ) (mem : List ℕ)
    → flags < 2 ^ 24
    → time < 256 ^ time_size version
    → p < fin
    → Holds mem p (box_bytes (four_cc "tfdt") (time_bytes version flags time))
    → (after : List ℕ) × (adjust_media_decode_time (suc fuel) delta mem fin p
        ≡ ok (after, (time + delta) % 2 ^ 64))
      × Holds after p
          (box_bytes (four_cc "tfdt") (time_bytes version flags ((time + delta) % 2 ^ 64)))
      × ((j : ℕ)
          → (j < p + 12) ⊎ (p + 12 + time_size version ≤ j)
          → get_elem? after j ≡ get_elem? mem j)
unfolding adjust_media_decode_time box_bytes time_bytes
adjust_media_decode_time-tfdt fuel delta version flags time fin p mem f t within h =
    let n = time_size version in
    let new = (time + delta) % 2 ^ 64 in
    let header : List ℕ = version ∷ big_endian 3 flags in
    let size = 8 + length (header ++ big_endian n time) in
    let pre = prefix size version flags in
    let (hp, ht) = Holds-append mem p pre (big_endian n time) h in
    let (h0, h1) =
      Holds-append mem p (big_endian 4 size) (big_endian 4 (four_cc "tfdt") ++ header) hp in
    let (h2, h3) = Holds-append mem (p + 4) (big_endian 4 (four_cc "tfdt")) header h1 in
    let small : size < 2 ^ 32 = omega (arith, length-big_endian n time, time_size-le version) in
    let r1 = read_u32-Holds mem size p h0 small in
    let r2 = read_u32-Holds mem (four_cc "tfdt") (p + 4) h2 tfdt_fits in
    let e : p + 12 ≡ p + 4 + 4 + 4 = omega arith in
    let r3 =
      adjust_time-Holds delta version flags time (p + 4 + 4) mem f t h3
        (Holds-at mem _ (p + 4 + 4 + 4) (big_endian n time) e ht) in
    let after : List ℕ = write_bytes n new (p + 4 + 4 + 4) mem in
    let inside : ltb p fin ≡ true = ground arith in
    let fits : p + 12 + n ≤ length mem = omega (
      arith,
      Holds-fits mem p (pre ++ big_endian n time)
          (omega (arith, get_elem?-lt mem p (size / 256 ^ 3 % 256) h0.0)) h,
      length-big_endian n time,
    ) in
    let same_size : size ≡ 8 + length (header ++ big_endian n new) =
      omega (arith, length-big_endian n time, length-big_endian n new) in
    (
      after,
      rw (inside, adjust_media_decode_time) (rw r1 (rw r2 (ap value_of r3))),
      subst (λ (z : ℕ). Holds after p (prefix z version flags ++ big_endian n new)) same_size
          (Holds-join after p pre (big_endian n new)
            (write_bytes-Holds_before n new (p + 4 + 4 + 4) p pre mem (omega arith) hp)
            (Holds-at after _ (p + 12) (big_endian n new) (sym e)
              (write_bytes-Holds n new (p + 4 + 4 + 4) mem (omega arith)))),
      λ j k. write_bytes-other n new (p + 4 + 4 + 4) j mem (omega arith),
    )
