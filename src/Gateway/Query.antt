-- ===== src/Gateway/Query.antt =====
-- services/gateway/srv/feed_service.go `parseInt`, which reads the numbers of a query, and the
-- conversion to the int32 fields of a request. A Go int has 64 bits.
pub mod Reading
use feeds.Prelude.{
  ℕ, ◌+◌, ◌-◌, ◌*◌, ◌%◌, ◌^◌, String, Option, none, some, List, [], ◌∷◌, ltb, ◌==◌, ◌||◌,
  if◌then◌else◌,
}
use feeds.Prelude.Int.{ℤ, pos, negsuc, int32, int64}
use feeds.Interaction.Uuid.{codes}

-- The loop of `parseInt`, with the number so far as a 64-bit word; `none` for a character that is no
-- digit.
scan : ℕ → List ℕ → Option ℕ
scan n [] = some n
scan n (c ∷ s) =
    let rest = scan ((n * 10 + (c - b'0')) % 2 ^ 64) s in
    if ltb c b'0' || ltb b'9' c then none else rest

-- `if n == 0 { return def }`
or_default : Option ℕ → ℤ → ℤ
or_default none def = def
or_default (some n) def = if n == 0 then def else int64 n

unfoldable pub parse_int : String → ℤ → ℤ
unfolding scan or_default
parse_int s def = or_default (scan 0 (codes s)) def

-- `int32(n)`
unfoldable pub narrow : ℤ → ℤ
narrow (pos n) = int32 n
narrow (negsuc n) = int32 (2 ^ 32 - 1 - n % 2 ^ 32)
