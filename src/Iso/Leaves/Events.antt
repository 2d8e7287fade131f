-- ===== src/Iso/Leaves/Events.antt =====
-- playerisobmff/playerisobmffbox.cpp: the event message box.
use middleware_player_interf.Common.{
  ℕ, ◌+◌, ◌-◌, ◌%◌, ◌^◌, List, Option, none, some, ◌==◌, if◌then◌else◌,
}
use middleware_player_interf.Mp4.Reader.{ok, err, M, ◌>>=◌, pure}
use middleware_player_interf.Iso.Fields.{read_flags, read_u32, read_u64, read_list, c_string_len}
use middleware_player_interf.Iso.Leaves.{Full, read_full}

-- EmsgIsoBmffBox: the texts with their zeros.
pub record Emsg : Type 0 where
  pub full : Full
  pub time_scale : ℕ
  pub event_duration : ℕ
  pub id : ℕ
  pub presentation_time_delta : ℕ
  pub presentation_time : ℕ
  pub scheme_id_uri : Option (List ℕ)
  pub value : Option (List ℕ)
  pub message : Option (List ℕ)

module _ (mem : List ℕ) where
  -- A text of an event and what is left of the box.
  abbrev read_text : ℕ → M (Option (List ℕ) × ℕ)
  read_text remaining p = elim (c_string_len mem remaining p 0) [
    | err e ↦ err e
    | ok none ↦ ok ((none, remaining), p)
    | ok (some n) ↦ (do text ← read_list mem n; pure (some text, remaining - n)) p
  ]

  -- The value is read only behind a scheme.
  abbrev read_texts : ℕ → M (Option (List ℕ) × (Option (List ℕ) × ℕ))
  read_texts remaining = read_text remaining >>= λ (scheme, left). elim scheme [
    | none ↦ pure (none, (none, left))
    | some text ↦ read_text left >>= λ (value, rest). pure (some text, (value, rest))
  ]

  -- uint32_t subtraction
  abbrev sub_u32 : ℕ → ℕ → ℕ
  sub_u32 a b = (a + (2 ^ 32 - b)) % 2 ^ 32

  -- The message behind the fields.
  abbrev read_message : Emsg → ℕ → M Emsg
  read_message e remaining =
      if remaining == 0
      then pure e
      else (read_list mem remaining >>= λ text. pure (record e { message = some text }))

  -- The two versions that are read, behind the flags.
  abbrev emsg_one : Full → ℕ → M Emsg
  emsg_one full sz = do
    scale ← read_u32 mem
    time ← read_u64 mem
    duration ← read_u32 mem
    id ← read_u32 mem
    (scheme, (value, left)) ← read_texts (sub_u32 (sub_u32 sz 12) 20)
    read_message
        (record {
          full = full;
          time_scale = scale;
          event_duration = duration;
          id = id;
          presentation_time_delta = 0;
          presentation_time = time;
          scheme_id_uri = scheme;
          value = value;
          message = none;
        })
        left

  abbrev emsg_zero : Full → ℕ → M Emsg
  emsg_zero full sz = do
    (scheme, (value, left)) ← read_texts (sub_u32 sz 12)
    scale ← read_u32 mem
    delta ← read_u32 mem
    duration ← read_u32 mem
    id ← read_u32 mem
    read_message
        (record {
          full = full;
          time_scale = scale;
          event_duration = duration;
          id = id;
          presentation_time_delta = delta;
          presentation_time = 0;
          scheme_id_uri = scheme;
          value = value;
          message = none;
        })
        (sub_u32 left 16)

  unfoldable pub construct_emsg_box : ℕ → M Emsg
  unfolding read_flags read_u32 read_u64 read_list c_string_len
  construct_emsg_box sz = read_full mem >>= λ full.
      if full.version == 1
      then emsg_one full sz
      else if full.version == 0
      then emsg_zero full sz
      else pure (record {
        full = full;
        time_scale = 0;
        event_duration = 0;
        id = 0;
        presentation_time_delta = 0;
        presentation_time = 0;
        scheme_id_uri = none;
        value = none;
        message = none;
      })
