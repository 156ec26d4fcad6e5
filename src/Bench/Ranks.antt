-- ===== src/Bench/Ranks.antt =====
-- The order of the percentiles, and how many latencies each of them bounds.
use feeds.Prelude.{
  ℕ, zero, suc, ◌+◌, ◌*◌, ◌/◌, ◌≤◌, ◌<◌, ◌≡◌, ◌≢◌, refl, some, List, [], ◌∷◌, length, ltb, leb,
  if◌then◌else◌, arith, ◌∙◌, sym, Bool-cases, inl, inr,
}
use feeds.Prelude.Int.{int64}
use feeds.Bench.{
  insert_sorted, sort, get_elem?, max_of, at_percent, Percentiles, measured, percentiles, quotient,
  total_of,
}

-- How many of the times are at most `p`.
abbrev pub count_le : ℕ → List ℕ → ℕ
count_le p [] = 0
count_le p (d ∷ times) = let rest = count_le p times in if leb d p then rest + 1 else rest

count_le-insert :
    (p d : ℕ) (times : List ℕ) → count_le p (insert_sorted d times) ≡ count_le p (d ∷ times)
unfolding insert_sorted
count_le-insert p d [] = refl
count_le-insert p d (e ∷ times) = ground (arith, count_le-insert p d times)

count_le-sort : (p : ℕ) (times : List ℕ) → count_le p (sort times) ≡ count_le p times
unfolding sort
count_le-sort p [] = refl
count_le-sort p (d ∷ times) =
    ground (arith, count_le-insert p d (sort times), count_le-sort p times)

length-insert : (d : ℕ) (times : List ℕ) → length (insert_sorted d times) ≡ length times + 1
unfolding insert_sorted
length-insert d [] = refl
length-insert d (e ∷ times) = ground (arith, length-insert d times)

length-sort : (times : List ℕ) → length (sort times) ≡ length times
unfolding sort
length-sort [] = refl
length-sort (d ∷ times) = ground (arith, length-insert d (sort times), length-sort times)

abbrev AllGe : ℕ → List ℕ → Type 0
AllGe d [] = Unit
AllGe d (e ∷ times) = (d ≤ e) × AllGe d times

abbrev IsSorted : List ℕ → Type 0
IsSorted [] = Unit
IsSorted (d ∷ times) = AllGe d times × IsSorted times

AllGe-insert : (c d : ℕ) (times : List ℕ) → c ≤ d → AllGe c times → AllGe c (insert_sorted d times)
unfolding insert_sorted
AllGe-insert c d [] h k = (h, tt)
AllGe-insert c d (e ∷ times) h k = ground (arith, h, k, AllGe-insert c d times h)

AllGe-below : (c d : ℕ) (times : List ℕ) → c ≤ d → AllGe d times → AllGe c times
AllGe-below c d [] h k = tt
AllGe-below c d (e ∷ times) h k = (omega (arith, h, k.0), AllGe-below c d times h k.1)

insert-IsSorted : (d : ℕ) (times : List ℕ) → IsSorted times → IsSorted (insert_sorted d times)
unfolding insert_sorted
insert-IsSorted d [] h = (tt, tt)
insert-IsSorted d (e ∷ times) h = elim (Bool-cases (leb d e)) [
  | inl less ↦
      let d_le : d ≤ e = ground (arith, less) in
      rw (less, insert_sorted) ((d_le, AllGe-below d e times d_le h.0), h)
  | inr more ↦
      let e_le : e ≤ d = ground (arith, more) in
      rw (more, insert_sorted) ((AllGe-insert e d times e_le h.0, insert-IsSorted d times h.1))
]

sort-IsSorted : (times : List ℕ) → IsSorted (sort times)
unfolding sort
sort-IsSorted [] = tt
sort-IsSorted (d ∷ times) = insert-IsSorted d (sort times) (sort-IsSorted times)

get_elem-some : (i : ℕ) (times : List ℕ) → i < length times → (p : ℕ) × (get_elem? times i ≡ some p)
unfolding get_elem?
get_elem-some i [] h = absurd (omega (arith, h))
get_elem-some zero (d ∷ times) h = (d, refl)
get_elem-some (suc i) (d ∷ times) h = get_elem-some i times (omega (arith, h))

get_elem-ge : (i d p : ℕ) (times : List ℕ) → AllGe d times → get_elem? times i ≡ some p → d ≤ p
unfolding get_elem?
get_elem-ge i d p [] h k = cc k
get_elem-ge zero d p (e ∷ times) h k = ground (arith, h, k)
get_elem-ge (suc i) d p (e ∷ times) h k = get_elem-ge i d p times h.1 k

get_elem-rank :
    (i p : ℕ) (times : List ℕ) → IsSorted times → get_elem? times i ≡ some p → i < count_le p times
unfolding get_elem?
get_elem-rank i p [] h k = cc k
get_elem-rank zero p (d ∷ times) h k = ground (arith, h, k)
get_elem-rank (suc i) p (d ∷ times) h k =
    let below = get_elem-ge i d p times h.0 k in
    ground (arith, below, get_elem-rank i p times h.1 k)

get_elem_mono :
    (i j p q : ℕ) (times : List ℕ)
    → IsSorted times
    → i ≤ j
    → get_elem? times i ≡ some p
    → get_elem? times j ≡ some q
    → p ≤ q
unfolding get_elem?
get_elem_mono i j p q [] h l a b = cc a
get_elem_mono zero zero p q (d ∷ times) h l a b = ground (arith, a, b)
get_elem_mono zero (suc j) p q (d ∷ times) h l a b =
    let below = get_elem-ge j d q times h.0 b in ground (arith, a, below)
get_elem_mono (suc i) zero p q (d ∷ times) h l a b = absurd (omega (arith, l))
get_elem_mono (suc i) (suc j) p q (d ∷ times) h l a b =
    get_elem_mono i j p q times h.1 (omega (arith, l)) a b

max_of-start : (m : ℕ) (times : List ℕ) → m ≤ max_of m times
unfolding max_of
max_of-start m [] = omega arith
max_of-start m (d ∷ times) = ground (arith, max_of-start m times, max_of-start d times)

get_elem-max : (m i p : ℕ) (times : List ℕ) → get_elem? times i ≡ some p → p ≤ max_of m times
unfolding get_elem? max_of
get_elem-max m i p [] h = cc h
get_elem-max m zero p (d ∷ times) h =
    ground (arith, h, max_of-start (if ltb m d then d else m) times)
get_elem-max m (suc i) p (d ∷ times) h = get_elem-max (if ltb m d then d else m) i p times h

-- An element at a percentage, of which more than so many times are at most that long.
unfoldable pub Ranked : ℕ → ℕ → List ℕ → Type 0
Ranked percent p times = length times * percent / 100 < count_le p times

at_percent-some :
    (percent : ℕ) (times : List ℕ)
    → length times * percent / 100 < length times
    → (p : ℕ) × (at_percent percent times ≡ some p)
unfolding at_percent
at_percent-some percent times h = get_elem-some (length times * percent / 100) times h

at_percent-rank :
    (percent p : ℕ) (times : List ℕ)
    → at_percent percent (sort times) ≡ some p
    → Ranked percent p times
unfolding at_percent Ranked
at_percent-rank percent p times h =
    let rank =
      get_elem-rank (length (sort times) * percent / 100) p (sort times) (sort-IsSorted times) h in
    rw (← count_le-sort p times, ← length-sort times) rank

count_le-max : (m p : ℕ) (times : List ℕ) → max_of m times ≤ p → count_le p times ≡ length times
unfolding max_of
count_le-max m p [] h = refl
count_le-max m p (d ∷ times) h =
    let m' = if ltb m d then d else m in
    ground (arith, h, max_of-start m' times, count_le-max m' p times h)

at_percent_mono :
    (a b p q : ℕ) (times : List ℕ)
    → IsSorted times
    → length times * a / 100 ≤ length times * b / 100
    → at_percent a times ≡ some p
    → at_percent b times ≡ some q
    → p ≤ q
unfolding at_percent
at_percent_mono a b p q times h l e e' = get_elem_mono _ _ p q times h l e e'

at_percent-max : (a p : ℕ) (times : List ℕ) → at_percent a times ≡ some p → p ≤ max_of 0 times
unfolding at_percent
at_percent-max a p times e = get_elem-max 0 _ p times e

-- Once a latency is measured, `percentiles` does not index out of range. Its percentiles are in order,
-- and none is above its maximum, which is at least every latency. Of n latencies, more than n * 50 / 100
-- are at most p50, more than n * 95 / 100 at most p95, and more than n * 99 / 100 at most p99, each
-- quotient rounded down.
pub percentiles_lem :
    (times : List ℕ)
    → times ≢ []
    → (r : Percentiles) × (percentiles times ≡ some r)
      × (r.p50 ≤ r.p95)
      × (r.p95 ≤ r.p99)
      × (r.p99 ≤ r.max)
      × (count_le r.max times ≡ length times)
      × Ranked 50 r.p50 times
      × Ranked 95 r.p95 times
      × Ranked 99 r.p99 times
unfolding percentiles measured
percentiles_lem [] some_times = absurd (some_times refl)
percentiles_lem (d ∷ rest) some_times =
    let times = d ∷ rest in
    let sorted = sort times in
    let long : length sorted ≡ suc (length rest) = length-sort times in
    let (p50, e50) = at_percent-some 50 sorted (omega (arith, long)) in
    let (p95, e95) = at_percent-some 95 sorted (omega (arith, long)) in
    let (p99, e99) = at_percent-some 99 sorted (omega (arith, long)) in
    (
      record {
        p50 = p50;
        p95 = p95;
        p99 = p99;
        max = max_of 0 sorted;
        avg = quotient (int64 (total_of 0 sorted)) (length sorted);
      },
      rw (e50, e95, e99, percentiles, measured) refl,
      at_percent_mono 50 95 p50 p95 sorted (sort-IsSorted times) (omega arith) e50 e95,
      at_percent_mono 95 99 p95 p99 sorted (sort-IsSorted times) (omega arith) e95 e99,
      at_percent-max 99 p99 sorted e99,
      sym (count_le-sort (max_of 0 sorted) times)
          ∙ count_le-max 0 (max_of 0 sorted) sorted (omega arith)
          ∙ length-sort times,
      at_percent-rank 50 p50 times e50,
      at_percent-rank 95 p95 times e95,
      at_percent-rank 99 p99 times e99,
    )
