-- ===== src/Gateway/Query/Reading.antt =====
-- What the gateway reads from a query, and what the services then page by.
use mathlib.Core.List.{foldl}
use feeds.Prelude.{
  ℕ, ◌+◌, ◌-◌, ◌*◌, ◌%◌, ◌^◌, ◌≤◌, ◌<◌, ◌≡◌, String, none, some, List, [], ◌∷◌, ◌==◌, Bool, true,
  if◌then◌else◌, arith, inl, inr, not, ◌&&◌, leb,
}
use feeds.Prelude.Int.{
  ℤ, pos, ℤ-cases, negsuc, int32, int64, page_number, page_size_of, page_size_bounds,
  page_number-pos, int64_small,
}
use feeds.Interaction.Uuid.{codes}
use feeds.Gateway.Query.{scan, parse_int, narrow}

-- The number that digits spell behind `n`, with no bound.
abbrev pub value : ℕ → List ℕ → ℕ
value = foldl (λ n c. n * 10 + (c - b'0'))

abbrev pub all_digits : List ℕ → Bool
all_digits [] = true
all_digits (c ∷ s) = leb b'0' c && leb c b'9' && all_digits s

value_mod :
    (m n : ℕ) (s : List ℕ) → m % 2 ^ 64 ≡ n % 2 ^ 64 → value m s % 2 ^ 64 ≡ value n s % 2 ^ 64
value_mod m n [] h = h
value_mod m n (c ∷ s) h = value_mod (m * 10 + (c - b'0')) (n * 10 + (c - b'0')) s (omega (arith, h))

int64_mod : (n : ℕ) → int64 (n % 2 ^ 64) ≡ int64 n
unfolding int64
int64_mod n = let e : n % 2 ^ 64 % 2 ^ 64 ≡ n % 2 ^ 64 = omega arith in rw e

scan-value :
    (n : ℕ) (s : List ℕ)
    → n < 2 ^ 64
    → scan n s ≡ (if all_digits s then some (value n s % 2 ^ 64) else none)
unfolding scan
scan-value n [] h = ground (arith, h)
scan-value n (c ∷ s) h =
    let m = n * 10 + (c - b'0') in
    ground (arith, scan-value (m % 2 ^ 64) s, value_mod (m % 2 ^ 64) m s)

-- `parseInt` answers the default for a text that holds anything but digits, and for one whose number
-- is 0 as a 64-bit word; for every other text it answers that word as an int. So a number below
-- 2 ^ 63 is read as it is, and a larger one wraps around.
pub parse_int_lem :
    (s : String) (def : ℤ)
    → (parse_int s def ≡ (
        if all_digits (codes s) && not (value 0 (codes s) % 2 ^ 64 == 0)
        then int64 (value 0 (codes s))
        else def))
      × (value 0 (codes s) < 2 ^ 63 → int64 (value 0 (codes s)) ≡ pos (value 0 (codes s)))
unfolding parse_int
parse_int_lem s def =
    (ground (arith, scan-value 0 (codes s), int64_mod (value 0 (codes s))), int64_small _)

narrow_bounds : (z : ℤ) (n : ℕ) → narrow z ≡ pos n → n < 2 ^ 31
unfolding narrow int32
narrow_bounds (pos m) n h = ground (arith, h)
narrow_bounds (negsuc m) n h = ground (arith, h)

mul-le_mul : (a b c d : ℕ) → a ≤ b → c ≤ d → a * c ≤ b * d
mul-le_mul a b c d h k = grind arith

page_number-narrow-lt : (z : ℤ) → page_number (narrow z) < 2 ^ 31
unfolding page_number
page_number-narrow-lt z = elim (ℤ-cases (narrow z)) [
  | inl (n, e) ↦ ground (arith, e, narrow_bounds z n)
  | inr (n, e) ↦ ground (arith, e)
]

-- Whatever the two numbers of a query are, where they go through int32 as those of ListFeeds and
-- ListComments do: the page that the service reads from them is at least 1, the page size is from 1 to
-- 50, and the offset of the page fits an int.
pub offset_fits :
    (page page_size : String) (p n : ℤ)
    → let page' = page_number (narrow (parse_int page p)) in
      let size = page_size_of (narrow (parse_int page_size n)) in
      (0 < page') × (0 < size) × (size ≤ 50) × ((page' - 1) * size < 2 ^ 63)
offset_fits page page_size p n =
    let page' = page_number (narrow (parse_int page p)) in
    let size = page_size_of (narrow (parse_int page_size n)) in
    let (some_posts, few) = page_size_bounds (narrow (parse_int page_size n)) in
    let below = page_number-narrow-lt (parse_int page p) in
    let offset : (page' - 1) * size ≤ (2 ^ 31) * 50 =
      mul-le_mul (page' - 1) (2 ^ 31) size 50 (omega (arith, below)) (omega (arith, few)) in
    (
      page_number-pos (narrow (parse_int page p)),
      some_posts,
      omega (arith, few),
      omega (arith, offset),
    )
