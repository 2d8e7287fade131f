-- ===== src/Common/Bytes.antt =====
-- Texts as their character codes, and checks of every value in a small range by evaluation.
use Prim.Native.Nat.{ℕ, zero, suc, ◌<◌, ◌^◌}
use Prim.Native.Char.{code}
use Prim.Native.String.{String}
use mathlib.Core.Path.{◌≡◌}
use mathlib.Core.Bool.{Bool, true, false, ◌&&◌}
use mathlib.Core.List.{List, [], ◌∷◌}
use native.Mathlib.Omega.{arith}
use middleware_player_interf.Common.Tests.{◌==◌}

abbrev pub codes : String → List ℕ
codes String.[] = []
codes (String.◌∷◌ c s) = code c ∷ codes s

-- Equality of texts.
abbrev pub same_text : List ℕ → List ℕ → Bool
same_text [] [] = true
same_text (x ∷ xs) (y ∷ ys) = x == y && same_text xs ys
same_text _ _ = false

abbrev pub IsByte : ℕ → Type 0
IsByte b = b < 2 ^ 8

unfoldable pub holds_below : ℕ → (ℕ → Bool) → Bool
holds_below zero test = true
holds_below (suc n) test = test n && holds_below n test

pub holds_below→holds :
    (n : ℕ) (test : ℕ → Bool) (x : ℕ) → x < n → holds_below n test ≡ true → test x ≡ true
unfolding holds_below
holds_below→holds zero test x h e = elim h [ ]
holds_below→holds (suc n) test x h e = ground (arith, holds_below→holds n test x)
