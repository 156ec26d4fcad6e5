-- ===== src/Bench/Load/Counting.antt =====
-- What the second phase counts as sent is what it measures.
use feeds.Prelude.{
  ℕ, zero, suc, ◌≡◌, Bool, true, false, Option, none, some, List, [], ◌∷◌, length, length-append,
  arith, not, ◌&&◌, if◌then◌else◌,
}
use feeds.Bench.{add}
use feeds.Bench.Load.{
  Place, at_test, at_work, at_end, Loops, Load, Act, tests_send, ticks, tests_receive, reads, act,
  act_at, Event, acts, is_over, closes, step, run, move, read, receive, count_read, count_write,
}

abbrev IsMeasured : Load → Type 0
IsMeasured k = k.sent ≡ length k.times

count_write-IsMeasured :
    (k : Load) (b : Bool) (d : ℕ) → IsMeasured k → IsMeasured (count_write k b d)
unfolding count_write add
count_write-IsMeasured k true d h = ground (arith, h, length-append k.times (d ∷ []))
count_write-IsMeasured k false d h = h

read-IsMeasured :
    (k : Load) (c : Loops) (answer : Option (List ℕ))
    → IsMeasured k
    → IsMeasured (read k c answer).0
unfolding read receive count_read
read-IsMeasured k c none h = ground (arith, h)
read-IsMeasured k c (some []) h = h
read-IsMeasured k c (some (a ∷ [])) h = h
read-IsMeasured k c (some (a ∷ b ∷ raw)) h = ground (arith, h)

move-IsMeasured :
    (k : Load) (c : Loops) (a : Act) (p q : Place) → IsMeasured k → IsMeasured (move k c a p q).0
unfolding move
move-IsMeasured k c tests_send at_test q h = h
move-IsMeasured k c tests_send at_work q h = h
move-IsMeasured k c tests_send at_end q h = h
move-IsMeasured k c (ticks b d) at_test q h = h
move-IsMeasured k c (ticks b d) at_work q h = count_write-IsMeasured k (b && not k.is_closed) d h
move-IsMeasured k c (ticks b d) at_end q h = h
move-IsMeasured k c tests_receive p at_test h = h
move-IsMeasured k c tests_receive p at_work h = h
move-IsMeasured k c tests_receive p at_end h = h
move-IsMeasured k c (reads answer) p at_test h = h
move-IsMeasured k c (reads answer) p at_work h =
    read-IsMeasured k c (if k.is_closed then none else answer) h
move-IsMeasured k c (reads answer) p at_end h = h

act_at-IsMeasured :
    (k : Load) (i : ℕ) (a : Act) (cs : List Loops) → IsMeasured k → IsMeasured (act_at k i a cs).0
unfolding act_at act
act_at-IsMeasured k i a [] h = h
act_at-IsMeasured k zero a (c ∷ cs) h = move-IsMeasured k c a c.sending c.receiving h
act_at-IsMeasured k (suc i) a (c ∷ cs) h = act_at-IsMeasured k i a cs h

-- Over every interleaving, the messages that count as sent are those whose latency is measured.
pub run-IsMeasured :
    (es : List Event) (k : Load) (cs : List Loops) → IsMeasured k → IsMeasured (run (k, cs) es).0
unfolding run step
run-IsMeasured [] k cs h = h
run-IsMeasured (acts i a ∷ es) k cs h =
    let (k', cs') = act_at k i a cs in run-IsMeasured es k' cs' (act_at-IsMeasured k i a cs h)
run-IsMeasured (is_over ∷ es) k cs h = run-IsMeasured es (record k { is_done = true }) cs h
run-IsMeasured (closes ∷ es) k cs h = run-IsMeasured es (record k { is_closed = true }) cs h
