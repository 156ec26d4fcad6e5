-- ===== src/Interaction/Uuid.antt =====
-- services/interaction/repo.go `uuidRE`: the shape of a UUID in lower case.
use Prim.Native.Char.{code}
use feeds.Prelude.{ℕ, String, Bool, true, false, ◌&&◌, ◌||◌, List, [], ◌∷◌, ◌++◌, leb, ◌==◌}

abbrev pub codes : String → List ℕ
codes String.[] = []
codes (String.◌∷◌ c s) = code c ∷ codes s

pub data Class : Type 0 where
  hex dash : Class

fits : Class → ℕ → Bool
fits hex c = leb b'0' c && leb c b'9' || leb b'a' c && leb c b'f'
fits dash c = c == b'-'

-- The whole text, from the first class to the last.
matches : List Class → List ℕ → Bool
unfolding fits
matches [] [] = true
matches [] (c ∷ cs) = false
matches (p ∷ ps) [] = false
matches (p ∷ ps) (c ∷ cs) = fits p c && matches ps cs

abbrev hex_four : List Class
hex_four = hex ∷ hex ∷ hex ∷ hex ∷ []

abbrev uuid_pattern : List Class
uuid_pattern =
    hex_four
    ++ (hex_four
        ++ (dash
            ∷ (hex_four
                ++ (dash
                    ∷ (hex_four
                        ++ (dash ∷ (hex_four ++ (dash ∷ (hex_four ++ (hex_four ++ hex_four))))))))))

unfoldable pub is_valid_uuid : String → Bool
unfolding matches
is_valid_uuid s = matches uuid_pattern (codes s)
