-- ===== src/Mp4/Demux/Walk.antt =====
-- The walk of `DemuxHelper` over one box, where the memory holds the box.
use middleware_player_interf.Common.{
  ℕ, suc, zero, ◌+◌, ◌^◌, ◌<◌, ◌≤◌, ◌≡◌, ◌∙◌, List, ◌++◌, Bool, true, false, arith, length, ltb,
}
use middleware_player_interf.Mp4.Reader.{ok, M, read_u32}
use middleware_player_interf.Mp4.Reader.Values.{Holds, big_endian, bind-ok, read_u32-Holds}
use middleware_player_interf.Mp4.State.{Mp4Demux}
use middleware_player_interf.Mp4.Demux.Kinds.{kind_of}
use middleware_player_interf.Mp4.Demux.{parse_box, demux_box, demux_helper}
use middleware_player_interf.Mp4.Layout.{box_bytes}
use middleware_player_interf.Mp4.Layout.Places.{Holds-append}

pub length-box_bytes :
    (type : ℕ) (payload : List ℕ) → length (box_bytes type payload) ≡ 8 + length payload
unfolding box_bytes
length-box_bytes type payload = omega arith

-- The payload of a box lies behind its header.
pub box_payload :
    (mem : List ℕ) (p type : ℕ) (payload : List ℕ)
    → Holds mem p (box_bytes type payload)
    → Holds mem (p + 4 + 4) payload
unfolding box_bytes
box_payload mem p type payload h =
    let (hs, h1) =
      Holds-append mem p (big_endian 4 (8 + length payload)) (big_endian 4 type ++ payload) h in
    (Holds-append mem (p + 4) (big_endian 4 type) payload h1).1

module _ (mem : List ℕ) (malloc : ℕ → Bool) where
  -- At the end the walk stops.
  pub demux_helper-end :
      (fuel : ℕ) (s : Mp4Demux) (fin p : ℕ)
      → fin ≤ p
      → demux_helper mem malloc fuel s fin p ≡ ok (s, p)
  unfolding demux_helper
  demux_helper-end zero s fin p h = ground arith
  demux_helper-end (suc fuel) s fin p h =
      let e : ltb p fin ≡ false = ground arith in rw (e, demux_helper)

  -- Wherever its parser leaves the pointer, a round ends behind the box.
  demux_box-Holds :
      (children : Mp4Demux → ℕ → M Mp4Demux) (s t : Mp4Demux) (p q type : ℕ) (payload : List ℕ)
      → Holds mem p (box_bytes type payload)
      → 8 + length payload < 2 ^ 32
      → type < 2 ^ 32
      → parse_box mem malloc children (kind_of type) type (p + (8 + length payload)) s (p + 4 + 4)
        ≡ ok (t, q)
      → demux_box mem malloc children s p ≡ ok (t, p + (8 + length payload))
  unfolding demux_box box_bytes
  demux_box-Holds children s t p q type payload h fits known e =
      let size = 8 + length payload in
      let (hs, h1) = Holds-append mem p (big_endian 4 size) (big_endian 4 type ++ payload) h in
      let (ht, _) = Holds-append mem (p + 4) (big_endian 4 type) payload h1 in
      bind-ok (read_u32 mem) _ (read_u32-Holds mem size p hs fits)
      ∙ bind-ok (read_u32 mem) _ (read_u32-Holds mem type (p + 4) ht known)
      ∙ bind-ok (parse_box mem malloc children (kind_of type) type (p + size) s) _ e

  -- The loop goes on behind the box.
  pub demux_helper-box :
      (fuel : ℕ) (s t : Mp4Demux) (fin p q type : ℕ) (payload : List ℕ)
      → Holds mem p (box_bytes type payload)
      → 8 + length payload < 2 ^ 32
      → type < 2 ^ 32
      → p < fin
      → parse_box mem malloc
          (demux_helper mem malloc fuel)
          (kind_of type)
          type
          (p + (8 + length payload))
          s
          (p + 4 + 4)
        ≡ ok (t, q)
      → demux_helper mem malloc (suc fuel) s fin p
        ≡ demux_helper mem malloc fuel t fin (p + (8 + length payload))
  unfolding demux_helper
  demux_helper-box fuel s t fin p q type payload h fits known inside e =
      let within : ltb p fin ≡ true = ground arith in
      let children = demux_helper mem malloc fuel in
      rw (within, demux_helper)
        (bind-ok (demux_box mem malloc children s) _
          (demux_box-Holds children s t p q type payload h fits known e))
