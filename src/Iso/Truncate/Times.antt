-- ===== src/Iso/Truncate/Times.antt =====
-- The decode time of a fragment, set in the buffer and constructed again.
use middleware_player_interf.Common.{
  ℕ, ◌+◌, ◌%◌, ◌/◌, ◌^◌, ◌≤◌, ◌<◌, ◌≡◌, refl, ◌∙◌, bit_or, true, false, List, [], ◌∷◌, none, length,
  arith, ◌==◌, if◌then◌else◌, inl, inr, Bool-cases,
}
use middleware_player_interf.Common.Bits.{◌<<<◌}
use middleware_player_interf.Mp4.Reader.{ok, read_byte}
use middleware_player_interf.Mp4.Reader.Values.{Holds, bind-ok, ok_at, ok_eq, read_byte-Holds}
use middleware_player_interf.Iso.Fields.{u32_bytes, put, read_u32, read_u64, read_flags}
use middleware_player_interf.Iso.Fields.Values.{Holds-put, put_u64, write_u32-read, write_u64-read}
use middleware_player_interf.Iso.Leaves.{Full, Tfdt, read_full, construct_tfdt_box}
use middleware_player_interf.Iso.Buffer.Walk.{bind-done}
use middleware_player_interf.Iso.Truncate.{set_base_mdt}

-- The version and the flags of four bytes.
abbrev pub full_of : ℕ → ℕ → ℕ → ℕ → Full
full_of version a b c = record {
  version = version;
  flags = bit_or (bit_or (a <<< 16) (b <<< 8)) c;
  base = none;
}

abbrev pub tfdt_of : Full → ℕ → ℕ → Tfdt
tfdt_of full mdt loc = record { full = full; base_mdt = mdt; base_mdt_loc = loc }

module _ (mem : List ℕ) (p version a b c : ℕ) (h : Holds mem p (version ∷ a ∷ b ∷ c ∷ [])) where
  read_flags-Holds : read_flags mem (p + 1) ≡ ok (bit_or (bit_or (a <<< 16) (b <<< 8)) c, p + 4)
  unfolding read_flags
  read_flags-Holds =
      bind-ok (read_byte mem) _ (read_byte-Holds mem (p + 1) a h.1.0)
      ∙ (bind-ok (read_byte mem) _ (read_byte-Holds mem (p + 1 + 1) b h.1.1.0)
          ∙ (bind-ok (read_byte mem) _ (read_byte-Holds mem (p + 1 + 1 + 1) c h.1.1.1.0)
              ∙ ok_at _ (p + 1 + 1 + 1 + 1) (p + 4) (omega arith)))

  pub read_full-Holds : read_full mem p ≡ ok (full_of version a b c, p + 4)
  read_full-Holds =
      bind-ok (read_byte mem) _ (read_byte-Holds mem p version h.0)
      ∙ bind-ok (read_flags mem) _ read_flags-Holds

  construct_tfdt_box-wide :
      (mdt : ℕ)
      → (version == 1) ≡ true
      → read_u64 mem (p + 4) ≡ ok (mdt, p + 4 + 8)
      → construct_tfdt_box mem p ≡ ok (tfdt_of (full_of version a b c) mdt (p + 4), p + 12)
  unfolding construct_tfdt_box
  construct_tfdt_box-wide mdt one read =
      bind-ok (read_full mem) _ read_full-Holds
      ∙ rw one (bind-ok (read_u64 mem) _ read ∙ ok_at _ (p + 4 + 8) (p + 12) (omega arith))

  construct_tfdt_box-narrow :
      (mdt : ℕ)
      → (version == 1) ≡ false
      → read_u32 mem (p + 4) ≡ ok (mdt, p + 4 + 4)
      → construct_tfdt_box mem p ≡ ok (tfdt_of (full_of version a b c) mdt (p + 4), p + 8)
  unfolding construct_tfdt_box
  construct_tfdt_box-narrow mdt other read =
      bind-ok (read_full mem) _ read_full-Holds
      ∙ rw other (bind-ok (read_u32 mem) _ read ∙ ok_at _ (p + 4 + 4) (p + 8) (omega arith))

-- A decode time box that lies in the buffer: what `setBaseMDT` writes is what `constructTfdtBox` then
-- reads, the whole time for version 1 and its low 32 bits for any other, with the version and the flags
-- of before.
pub set_base_mdt-construct :
    (mem : List ℕ) (p version a b c old mdt : ℕ)
    → Holds mem p (version ∷ a ∷ b ∷ c ∷ [])
    → p + 12 ≤ length mem
    → mdt < 2 ^ 64
    → (mem' : List ℕ) × (set_base_mdt mdt mem (tfdt_of (full_of version a b c) old (p + 4))
        ≡ ok (tfdt_of (full_of version a b c) mdt (p + 4), mem'))
      × (construct_tfdt_box mem' p
          ≡ ok (
            tfdt_of (full_of version a b c) (if version == 1 then mdt else mdt % 2 ^ 32) (p + 4),
            p + (if version == 1 then 12 else 8),
          ))
unfolding set_base_mdt
set_base_mdt-construct mem p version a b c old mdt h inside small =
    elim (Bool-cases (version == 1)) [
      | inl one ↦
          let high = u32_bytes (mdt / 2 ^ 32 % 2 ^ 32) in
          let (written, read) = write_u64-read mem (p + 4) mdt (omega arith) small in
          let kept =
            Holds-put (put mem (p + 4) high) (p + 4 + 4) (u32_bytes mdt) p
              (version ∷ a ∷ b ∷ c ∷ [])
              (Holds-put mem (p + 4) high p (version ∷ a ∷ b ∷ c ∷ []) h (inl (omega arith)))
              (inl (omega arith)) in
          let built =
            construct_tfdt_box-wide (put_u64 mem (p + 4) mdt) p version a b c kept mdt one read in
          (
            put_u64 mem (p + 4) mdt,
            rw (one, set_base_mdt) (bind-done (put_u64 mem (p + 4) mdt) _ written),
            rw one built,
          )
      | inr other ↦
          let (written, read) = write_u32-read mem (p + 4) (mdt % 2 ^ 32) (omega arith) in
          let mem' = put mem (p + 4) (u32_bytes (mdt % 2 ^ 32)) in
          let kept =
            Holds-put mem (p + 4) (u32_bytes (mdt % 2 ^ 32)) p (version ∷ a ∷ b ∷ c ∷ []) h
              (inl (omega arith)) in
          let low : mdt % 2 ^ 32 % 2 ^ 32 ≡ mdt % 2 ^ 32 = omega arith in
          let built =
            construct_tfdt_box-narrow mem' p version a b c kept (mdt % 2 ^ 32) other
              (read ∙ ok_eq _ (mdt % 2 ^ 32) (p + 4 + 4) (p + 4 + 4) low refl) in
          (mem', rw (other, set_base_mdt) (bind-done mem' _ written), rw other built)
    ]
