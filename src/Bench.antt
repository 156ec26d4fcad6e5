-- ===== src/Bench.antt =====
-- services/live/bench/main.go `latencyTracker`: the latencies of a run, as numbers of nanoseconds, and
-- their percentiles. The sum of the latencies is a 64-bit word.
pub mod Ranks
pub mod Ramp
pub mod Verdict
pub mod Load
use feeds.Prelude.{
  ℕ, zero, suc, ◌+◌, ◌-◌, ◌*◌, ◌/◌, ◌%◌, ◌^◌, Option, none, some, List, [], ◌∷◌, ◌++◌, length, ltb,
  leb, ◌>>=◌, if◌then◌else◌,
}
use feeds.Prelude.Int.{ℤ, pos, negsuc, int64}

unfoldable pub add : List ℕ → ℕ → List ℕ
add times d = times ++ (d ∷ [])

insert_sorted : ℕ → List ℕ → List ℕ
insert_sorted d [] = d ∷ []
insert_sorted d (e ∷ times) =
    let rest = insert_sorted d times in if leb d e then d ∷ e ∷ times else e ∷ rest

-- `slices.Sort`
unfoldable pub sort : List ℕ → List ℕ
unfolding insert_sorted
sort [] = []
sort (d ∷ times) = insert_sorted d (sort times)

-- `sorted[i]`, which panics out of range.
unfoldable pub get_elem? : List ℕ → ℕ → Option ℕ
get_elem? [] i = none
get_elem? (d ∷ times) zero = some d
get_elem? (d ∷ times) (suc i) = get_elem? times i

-- The loop over the sorted times: the sum as a word, and the largest.
total_of : ℕ → List ℕ → ℕ
total_of total [] = total
total_of total (d ∷ times) = total_of ((total + d) % 2 ^ 64) times

max_of : ℕ → List ℕ → ℕ
max_of max [] = max
max_of max (d ∷ times) = max_of (if ltb max d then d else max) times

-- A quotient of ints is cut towards 0.
quotient : ℤ → ℕ → ℤ
quotient (pos n) k = pos (n / k)
quotient (negsuc n) k = let q = (n + 1) / k in if ltb 0 q then negsuc (q - 1) else pos 0

pub record Percentiles : Type 0 where
  pub p50 : ℕ
  pub p95 : ℕ
  pub p99 : ℕ
  pub max : ℕ
  pub avg : ℤ

abbrev unmeasured : Percentiles
unmeasured = record { p50 = 0; p95 = 0; p99 = 0; max = 0; avg = pos 0 }

-- The element of the sorted times at a percentage of their number.
unfoldable pub at_percent : ℕ → List ℕ → Option ℕ
unfolding get_elem?
at_percent percent sorted = get_elem? sorted (length sorted * percent / 100)

measured : List ℕ → Option Percentiles
unfolding total_of max_of quotient at_percent
measured sorted = elim (at_percent 50 sorted) [
  | none ↦ none
  | some p50 ↦ elim (at_percent 95 sorted) [
    | none ↦ none
    | some p95 ↦ elim (at_percent 99 sorted) [
      | none ↦ none
      | some p99 ↦ some (record {
        p50 = p50;
        p95 = p95;
        p99 = p99;
        max = max_of 0 sorted;
        avg = quotient (int64 (total_of 0 sorted)) (length sorted);
      })
    ]
  ]
]

-- `percentiles`; `none` for a panic.
unfoldable pub percentiles : List ℕ → Option Percentiles
unfolding sort measured
percentiles [] = some unmeasured
percentiles (d ∷ times) = measured (sort (d ∷ times))
