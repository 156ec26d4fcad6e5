-- ===== src/Prelude/Pairs.antt =====
-- A table whose primary key is a pair of identifiers: `ON CONFLICT … DO NOTHING`, `DELETE` and
-- `EXISTS` on it.
use Prim.Native.String.{String}
use mathlib.Core.Path.{◌≡◌, refl}
use mathlib.Core.Logic.{ite}
use mathlib.Core.Bool.{Bool, true, false}
use mathlib.Core.List.{List, [], ◌∷◌, ◌++◌}
use native.Mathlib.Omega.{arith}
use feeds.Prelude.Tests.{if◌then◌else◌}
use feeds.Prelude.Texts.{text_dec}

abbrev pub Pairs : Type 0
Pairs = List (String × String)

unfoldable pub has_pair : String → String → Pairs → Bool
has_pair a b [] = false
has_pair a b (p ∷ ps) =
    let rest = has_pair a b ps in ite (text_dec p.0 a) (ite (text_dec p.1 b) true rest) rest

unfoldable pub add_pair : String → String → Pairs → Pairs
unfolding has_pair
add_pair a b ps = if has_pair a b ps then ps else ps ++ ((a, b) ∷ [])

unfoldable pub remove_pair : String → String → Pairs → Pairs
remove_pair a b [] = []
remove_pair a b (p ∷ ps) =
    let rest = remove_pair a b ps in
    ite (text_dec p.0 a) (ite (text_dec p.1 b) rest (p ∷ rest)) (p ∷ rest)

pub has_pair-append :
    (a b u v : String) (ps : Pairs)
    → has_pair u v (ps ++ ((a, b) ∷ []))
      ≡ ite (text_dec a u) (ite (text_dec b v) true (has_pair u v ps)) (has_pair u v ps)
unfolding has_pair
has_pair-append a b u v [] = refl
has_pair-append a b u v (p ∷ ps) = ground (arith, has_pair-append a b u v ps)

pub has_pair-add :
    (a b u v : String) (ps : Pairs)
    → has_pair u v (add_pair a b ps)
      ≡ ite (text_dec a u) (ite (text_dec b v) true (has_pair u v ps)) (has_pair u v ps)
unfolding add_pair
has_pair-add a b u v ps = ground (arith, has_pair-append a b u v ps)

pub has_pair-remove :
    (a b u v : String) (ps : Pairs)
    → has_pair u v (remove_pair a b ps)
      ≡ ite (text_dec a u) (ite (text_dec b v) false (has_pair u v ps)) (has_pair u v ps)
unfolding has_pair remove_pair
has_pair-remove a b u v [] = ground arith
has_pair-remove a b u v (p ∷ ps) = ground (arith, has_pair-remove a b u v ps)
