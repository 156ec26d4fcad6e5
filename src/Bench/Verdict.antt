-- ===== src/Bench/Verdict.antt =====
-- services/live/bench/main.go, the report of the run: when it fails. The floats of the error rate are a
-- parameter.
use mathlib.Core.Path.{subst}
use feeds.Prelude.{
  ◌≢◌, ◌⊎◌, ◌∷◌, some, ℕ, ◌≤◌, ◌≡◌, Bool, false, List, [], ◌*◌, ltb, ◌&&◌, arith, if◌then◌else◌,
}
use feeds.Bench.{Percentiles, percentiles}
use feeds.Bench.Ranks.{count_le, Ranked, percentiles_lem}

pub data Verdict : Type 0 where
  passed : Verdict
  too_many_errors : Verdict
  p95_too_slow : Verdict
  p99_too_slow : Verdict

abbrev pub millisecond : ℕ
millisecond = 1000000

-- `over sent errors` is `float64(errors)/float64(max(sent, 1)) > 0.01`.
unfoldable pub verdict : (ℕ → ℕ → Bool) → ℕ → ℕ → Percentiles → Verdict
verdict over sent errors r =
    if ltb 0 errors && over sent errors
    then too_many_errors
    else if ltb (500 * millisecond) r.p95
    then p95_too_slow
    else if ltb (1000 * millisecond) r.p99
    then p99_too_slow
    else passed

count_le_mono : (p q : ℕ) (times : List ℕ) → p ≤ q → count_le p times ≤ count_le q times
count_le_mono p q [] h = omega arith
count_le_mono p q (d ∷ times) h = ground (arith, count_le_mono p q times)

Ranked-mono :
    (percent p q : ℕ) (times : List ℕ) → p ≤ q → Ranked percent p times → Ranked percent q times
unfolding Ranked
Ranked-mono percent p q times h r = omega (arith, r, count_le_mono p q times h)

passed-parts :
    (over : ℕ → ℕ → Bool) (sent errors : ℕ) (r : Percentiles)
    → verdict over sent errors r ≡ passed
    → ((errors ≡ 0) ⊎ (over sent errors ≡ false))
      × (r.p95 ≤ 500 * millisecond)
      × (r.p99 ≤ 1000 * millisecond)
unfolding verdict
passed-parts over sent errors r h = (ground (arith, h), ground (arith, h), ground (arith, h))

-- A run passes only if it had no error or its error rate is not above the limit, and if of its measured
-- writes more than 95 in 100, rounded down, took half a second at most, and more than 99 in 100 a second.
passed-Ranked :
    (over : ℕ → ℕ → Bool) (sent errors : ℕ) (times : List ℕ) (r : Percentiles)
    → times ≢ []
    → percentiles times ≡ some r
    → verdict over sent errors r ≡ passed
    → ((errors ≡ 0) ⊎ (over sent errors ≡ false))
      × Ranked 95 (500 * millisecond) times
      × Ranked 99 (1000 * millisecond) times
passed-Ranked over sent errors times r some_times e h =
    let (few, p95, p99) = passed-parts over sent errors r h in
    let (r', e', _, _, _, _, _, ranked95, ranked99) = percentiles_lem times some_times in
    let same : r' ≡ r = cc (e, e') in
    (
      few,
      Ranked-mono 95 r.p95 (500 * millisecond) times p95
          (subst (λ (x : Percentiles). Ranked 95 x.p95 times) same ranked95),
      Ranked-mono 99 r.p99 (1000 * millisecond) times p99
          (subst (λ (x : Percentiles). Ranked 99 x.p99 times) same ranked99),
    )
