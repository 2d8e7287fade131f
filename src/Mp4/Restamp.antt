-- ===== src/Mp4/Restamp.antt =====
-- mp4demux/mp4demux.cpp: `mp4_AdjustMediaDecodeTime`, which moves the decode time of a fragment in
-- place.
pub mod Written
pub mod Adjusted
use middleware_player_interf.Common.{
  ℕ, zero, suc, ◌+◌, ◌*◌, ◌%◌, ◌^◌, bit_and, Bool, true, false, List, [], ◌∷◌, ltb, ◌==◌, set,
  if◌then◌else◌, ◌||◌,
}
use middleware_player_interf.Common.Bits.{◌>>>◌}
use middleware_player_interf.Mp4.Reader.{
  Result, ok, err, stuck, M, ◌>>=◌, read_byte, read_bytes, read_u32, read_header,
}
use middleware_player_interf.Mp4.Boxes.{time_size}
use middleware_player_interf.Mp4.Codec.{four_cc}

-- `WriteBytes`, from the last byte to the first. A write outside the memory, which does not happen
-- behind the reads of the same bytes, is dropped.
unfoldable pub write_bytes : ℕ → ℕ → ℕ → List ℕ → List ℕ
write_bytes zero value p mem = mem
write_bytes (suc n) value p mem =
    write_bytes n (value >>> 8) p (set mem (p + n) (bit_and value 0xff))

-- The types that the function looks into.
unfoldable pub has_children : ℕ → Bool
unfolding four_cc
has_children type =
    type == four_cc "traf"
    || (type == four_cc "moov"
        || (type == four_cc "trak"
            || (type == four_cc "minf"
                || (type == four_cc "dinf"
                    || (type == four_cc "stbl"
                        || (type == four_cc "mvex"
                            || (type == four_cc "moof" || type == four_cc "mdia")))))))

-- The branch of the decode time box: the memory and the new time.
unfoldable pub adjust_time : ℕ → List ℕ → M (List ℕ × ℕ)
unfolding write_bytes
adjust_time delta mem = do
  (version, flags) ← read_header mem
  p ← (λ q. ok (q, q))
  time ← read_bytes mem (time_size version)
  let time' = (time + delta) % 2 ^ 64
  (λ q. ok ((write_bytes (time_size version) time' p mem, time'), q))

-- The value, without the pointer.
abbrev pub value_of : {A : Type 0} → Result (A × ℕ) → Result A
value_of (err e) = err e
value_of (ok (a, p)) = ok a

-- The walk from a pointer to an end, on fuel: the memory and the time, which is 0 until a box is found.
unfoldable pub adjust_media_decode_time : ℕ → ℕ → List ℕ → ℕ → ℕ → Result (List ℕ × ℕ)
unfolding adjust_time has_children four_cc
adjust_media_decode_time zero delta mem fin p = elim (ltb p fin) [
  | false ↦ ok (mem, 0)
  | true ↦ err stuck
]
adjust_media_decode_time (suc fuel) delta mem fin p = elim (ltb p fin) [
  | false ↦ ok (mem, 0)
  | true ↦ elim (read_u32 mem p) [
    | err e ↦ err e
    | ok (size, p1) ↦ elim (read_u32 mem p1) [
      | err e ↦ err e
      | ok (type, p2) ↦ elim (type == four_cc "tfdt") [
        | true ↦ value_of (adjust_time delta mem p2)
        | false ↦ elim (has_children type) [
          | false ↦ adjust_media_decode_time fuel delta mem fin (p + size)
          | true ↦ elim (adjust_media_decode_time fuel delta mem (p + size) p2) [
            | err e ↦ err e
            | ok (mem', time) ↦ elim (time == 0) [
              | false ↦ ok (mem', time)
              | true ↦ adjust_media_decode_time fuel delta mem' fin (p + size)
            ]
          ]
        ]
      ]
    ]
  ]
]
