-- ===== src/Prelude/Texts.antt =====
-- Equality of texts as a decision, which the tactics read; and Go's zero value of a missing text.
use Prim.Native.String.{String}
use mathlib.Core.Path.{◌≡◌}
use mathlib.Core.Bool.{Bool, true, false}
use mathlib.Core.Option.{Option, none, some}
use mathlib.Core.Logic.{◌↔◌, ◌≢◌}
use text.Mathlib.Text.{◌==◌}
use text.Mathlib.TextEquality.{eq_iff}

decide_by : {s t : String} (b : Bool) → (b ≡ true) ↔ (s ≡ t) → Dec (s ≡ t)
decide_by true h = yes (h.0 (λ i. true))
decide_by false h = no (λ p. cc (h.1 p))

unfoldable pub text_dec : Discrete String
unfolding decide_by
text_dec s t = decide_by (s == t) (eq_iff s t)

-- Go reads a key that is not in a map as the zero value.
unfoldable pub with_default : Option String → String
with_default none = ""
with_default (some s) = s

-- Two texts that the test tells apart are not equal.
pub ne_of_test : (s t : String) → (s == t) ≡ false → s ≢ t
ne_of_test s t h p = cc ((eq_iff s t).1 p)
