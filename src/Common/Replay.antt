-- ===== src/Common/Replay.antt =====
-- What a sequence of events makes of a state, one after the other.
use mathlib.Core.Path.{◌≡◌, refl}
use mathlib.Core.List.{List, [], ◌∷◌, ◌++◌}

module _ {ℓ κ} {E : Type ℓ} {S : Type κ} where
  unfoldable pub replay : (E → S → S) → List E → S → S
  replay step [] s = s
  replay step (e ∷ es) s = replay step es (step e s)

  pub replay-append :
      (step : E → S → S) (es : List E) (e : E) (s : S)
      → replay step (es ++ (e ∷ [])) s ≡ step e (replay step es s)
  unfolding replay
  replay-append step [] e s = refl
  replay-append step (x ∷ es) e s = replay-append step es e (step x s)
