-- ===== src/Subtec/Frame/Types.antt =====
-- What `getType` reads back.
use middleware_player_interf.Common.{
  ℕ, suc, ◌*◌, ◌/◌, ◌%◌, ◌^◌, ◌≡◌, List, true, arith, leb, length,
}
use middleware_player_interf.Common.Bits.{bit_and-mask}
use middleware_player_interf.Subtec.Packet.{get_type, type_loop}
use middleware_player_interf.Subtec.Frame.{word}

-- `getType` masks each shifted byte to 8 bits, so that of the first word of a packet it returns the
-- lowest byte alone.
pub get_type-word :
    (type counter : ℕ) (rest : List ℕ)
    → get_type (record { buffer = word type rest; counter = counter }) ≡ type % 2 ^ 8
unfolding get_type type_loop
get_type-word type counter rest =
    let n = length rest in
    let long : leb 4 (suc (suc (suc (suc n)))) ≡ true = ground arith in
    rw (long, get_type)
      (omega (
        arith,
        bit_and-mask 8 (type / 2 ^ 0 % 2 ^ 8 * 1 % 2 ^ 32),
        bit_and-mask 8 (type / 2 ^ 8 % 2 ^ 8 * 2 ^ 8 % 2 ^ 32),
        bit_and-mask 8 (type / 2 ^ 16 % 2 ^ 8 * 2 ^ 16 % 2 ^ 32),
        bit_and-mask 8 (type / 2 ^ 24 % 2 ^ 8 * 2 ^ 24 % 2 ^ 32),
      ))
