-- ===== src/Mp4/Demux/Termination.antt =====
-- The loop of `DemuxHelper` on a box whose size is written as 0.
use middleware_player_interf.Common.{
  ℕ, zero, suc, ◌+◌, ◌^◌, ◌<◌, ◌≡◌, ◌∙◌, List, ◌++◌, Bool, true, arith, ltb,
}
use middleware_player_interf.Mp4.Reader.{ok, err, stuck, M, read_u32}
use middleware_player_interf.Mp4.Reader.Values.{Holds, big_endian, bind-ok, ok_at, read_u32-Holds}
use middleware_player_interf.Mp4.State.{Mp4Demux}
use middleware_player_interf.Mp4.Demux.{parse_box, demux_box, demux_helper}
use middleware_player_interf.Mp4.Demux.Kinds.{kind_of, ignored}
use middleware_player_interf.Mp4.Layout.Places.{Holds-append}

module _ (mem : List ℕ) (malloc : ℕ → Bool) where
  -- A round over such a box leads back to its start.
  demux_box-zero :
      (children : Mp4Demux → ℕ → M Mp4Demux) (s : Mp4Demux) (p type : ℕ)
      → Holds mem p (big_endian 4 0 ++ big_endian 4 type)
      → type < 2 ^ 32
      → kind_of type ≡ ignored
      → demux_box mem malloc children s p ≡ ok (s, p)
  unfolding demux_box parse_box
  demux_box-zero children s p type h known k =
      let (hs, ht) = Holds-append mem p (big_endian 4 0) (big_endian 4 type) h in
      let e : parse_box mem malloc children (kind_of type) type (p + 0) s (p + 4 + 4)
          ≡ ok (s, p + 4 + 4) =
        rw k in
      bind-ok (read_u32 mem) _ (read_u32-Holds mem 0 p hs (omega arith))
      ∙ bind-ok (read_u32 mem) _ (read_u32-Holds mem type (p + 4) ht known)
      ∙ bind-ok (parse_box mem malloc children (kind_of type) type (p + 0) s) _ e
      ∙ ok_at s (p + 0) p (omega arith)

  -- Before a box of size 0 and a type that the switch passes over, such as `mdat` or `udta`, the loop
  -- uses up any fuel: it does not return.
  pub demux_helper-zero_size :
      (fuel : ℕ) (s : Mp4Demux) (fin p type : ℕ)
      → Holds mem p (big_endian 4 0 ++ big_endian 4 type)
      → type < 2 ^ 32
      → kind_of type ≡ ignored
      → p < fin
      → demux_helper mem malloc fuel s fin p ≡ err stuck
  unfolding demux_helper
  demux_helper-zero_size zero s fin p type h known k within = ground arith
  demux_helper-zero_size (suc fuel) s fin p type h known k within =
      let e : ltb p fin ≡ true = ground arith in
      rw (e, demux_helper)
        (bind-ok (demux_box mem malloc (demux_helper mem malloc fuel) s) _
            (demux_box-zero (demux_helper mem malloc fuel) s p type h known k)
          ∙ demux_helper-zero_size fuel s fin p type h known k within)
