-- ===== src/Bench/Load/Ending.antt =====
-- How the second phase ends: what is counted between the end of the time and the end of the loops.
use feeds.Prelude.{
  ℕ, zero, suc, ◌+◌, ◌≡◌, refl, ◌∙◌, true, Option, none, some, List, [], ◌∷◌, map, arith,
}
use feeds.Bench.Load.{
  Place, at_test, at_work, at_end, Loops, Load, Act, tests_send, ticks, tests_receive, reads, act,
  act_at, Event, acts, is_over, closes, step, run, move, read, receive, count_read, count_write,
  after_test,
}

-- 1 for a send loop that waits for its tick.
abbrev at_tick : Place → ℕ
at_tick at_work = 1
at_tick _ = 0

-- The send loops that wait for their tick.
unfoldable pub waiting : List Loops → ℕ
waiting [] = 0
waiting (c ∷ cs) = let rest = waiting cs in at_tick c.sending + rest

-- Every goroutine has ended.
abbrev pub AllEnded : List Loops → Type 0
AllEnded [] = Unit
AllEnded (c ∷ cs) = (c.sending ≡ at_end) × (c.receiving ≡ at_end) × AllEnded cs

read-owes :
    (k : Load) (c : Loops) (answer : Option (List ℕ))
    → k.is_done ≡ true
    → let (k', c') = read k c answer in
      (k'.is_done ≡ k.is_done)
      × (k'.is_closed ≡ k.is_closed)
      × (k'.sent ≡ k.sent)
      × (k'.times ≡ k.times)
      × (k'.errors ≡ k.errors)
      × (c'.sending ≡ c.sending)
unfolding read receive count_read
read-owes k c none over = ground (arith, over)
read-owes k c (some []) over = ground (arith, over)
read-owes k c (some (a ∷ [])) over = ground (arith, over)
read-owes k c (some (a ∷ b ∷ raw)) over = ground (arith, over)

-- What a move leaves as it is after the end, and what it owes.
Owes : Load → Loops → Load × Loops → Type 0
Owes k c s =
    (s.0.is_done ≡ true)
    × (s.0.is_closed ≡ true)
    × (s.0.sent ≡ k.sent)
    × (s.0.times ≡ k.times)
    × (s.0.errors + at_tick s.1.sending ≡ k.errors + at_tick c.sending)

module _ (k : Load) (over : k.is_done ≡ true) (closed : k.is_closed ≡ true) where
  move-Owes : (c : Loops) (a : Act) (p q : Place) → c.sending ≡ p → Owes k c (move k c a p q)
  unfolding Owes move count_write after_test
  move-Owes c tests_send at_test q e = ground (arith, e, over, closed)
  move-Owes c tests_send at_work q e = ground (arith, e, over, closed)
  move-Owes c tests_send at_end q e = ground (arith, e, over, closed)
  move-Owes c (ticks b d) at_test q e = ground (arith, e, over, closed)
  move-Owes c (ticks b d) at_work q e = ground (arith, e, over, closed)
  move-Owes c (ticks b d) at_end q e = ground (arith, e, over, closed)
  move-Owes c tests_receive p at_test e = ground (arith, e, over, closed)
  move-Owes c tests_receive p at_work e = ground (arith, e, over, closed)
  move-Owes c tests_receive p at_end e = ground (arith, e, over, closed)
  move-Owes c (reads answer) p at_test e = ground (arith, e, over, closed)
  move-Owes c (reads answer) p at_work e = ground (arith, e, over, closed, read-owes k c none over)
  move-Owes c (reads answer) p at_end e = ground (arith, e, over, closed)

  act_at-Owes :
      (i : ℕ) (a : Act) (cs : List Loops)
      → let (k', cs') = act_at k i a cs in
        (k'.is_done ≡ true)
        × (k'.is_closed ≡ true)
        × (k'.sent ≡ k.sent)
        × (k'.times ≡ k.times)
        × (k'.errors + waiting cs' ≡ k.errors + waiting cs)
  unfolding act_at act Owes waiting
  act_at-Owes i a [] = (over, closed, refl, refl, refl)
  act_at-Owes zero a (c ∷ cs) =
      let (over', closed', sent, times, owed) = move-Owes c a c.sending c.receiving refl in
      (over', closed', sent, times, omega (arith, owed))
  act_at-Owes (suc i) a (c ∷ cs) =
      let (over', closed', sent, times, owed) = act_at-Owes i a cs in
      (over', closed', sent, times, omega (arith, owed))

step-Owes :
    (k : Load) (cs : List Loops) (e : Event)
    → k.is_done ≡ true
    → k.is_closed ≡ true
    → let (k', cs') = step (k, cs) e in
      (k'.is_done ≡ true)
      × (k'.is_closed ≡ true)
      × (k'.sent ≡ k.sent)
      × (k'.times ≡ k.times)
      × (k'.errors + waiting cs' ≡ k.errors + waiting cs)
unfolding step
step-Owes k cs (acts i a) over closed = act_at-Owes k over closed i a cs
step-Owes k cs is_over over closed = (refl, closed, refl, refl, refl)
step-Owes k cs closes over closed = (over, refl, refl, refl, refl)

run-Owes :
    (k : Load) (cs : List Loops) (es : List Event)
    → k.is_done ≡ true
    → k.is_closed ≡ true
    → let (k', cs') = run (k, cs) es in
      (k'.is_done ≡ true)
      × (k'.is_closed ≡ true)
      × (k'.sent ≡ k.sent)
      × (k'.times ≡ k.times)
      × (k'.errors + waiting cs' ≡ k.errors + waiting cs)
unfolding run
run-Owes k cs [] over closed = (over, closed, refl, refl, refl)
run-Owes k cs (e ∷ es) over closed =
    let (k', cs') = step (k, cs) e in
    let (over', closed', sent, times, owed) = step-Owes k cs e over closed in
    let (over'', closed'', sent', times', owed') = run-Owes k' cs' es over' closed' in
    (over'', closed'', sent' ∙ sent, times' ∙ times, owed' ∙ owed)

pub waiting-AllEnded : (cs : List Loops) → AllEnded cs → waiting cs ≡ 0
unfolding waiting
waiting-AllEnded [] h = refl
waiting-AllEnded (c ∷ cs) h = ground (arith, h.0, waiting-AllEnded cs h.2)

-- The moves that end a connection's loops.
last_acts : Load → Loops → Load × Loops
unfolding act
last_acts k c =
    let (k₁, c₁) = act k (ticks true 0) c in
    let (k₂, c₂) = act k₁ tests_send c₁ in
    let (k₃, c₃) = act k₂ (reads none) c₂ in act k₃ tests_receive c₃

last_acts-end :
    (k : Load) (c : Loops) (p q : Place)
    → k.is_done ≡ true
    → k.is_closed ≡ true
    → c.sending ≡ p
    → c.receiving ≡ q
    → let (k', c') = last_acts k c in
      (k'.is_done ≡ true) × (k'.is_closed ≡ true) × (c'.sending ≡ at_end) × (c'.receiving ≡ at_end)
unfolding last_acts move count_write after_test read count_read
last_acts-end k c at_test at_test over closed e f = ground (arith, e, f, over, closed)
last_acts-end k c at_test at_work over closed e f = ground (arith, e, f, over, closed)
last_acts-end k c at_test at_end over closed e f = ground (arith, e, f, over, closed)
last_acts-end k c at_work at_test over closed e f = ground (arith, e, f, over, closed)
last_acts-end k c at_work at_work over closed e f = ground (arith, e, f, over, closed)
last_acts-end k c at_work at_end over closed e f = ground (arith, e, f, over, closed)
last_acts-end k c at_end at_test over closed e f = ground (arith, e, f, over, closed)
last_acts-end k c at_end at_work over closed e f = ground (arith, e, f, over, closed)
last_acts-end k c at_end at_end over closed e f = ground (arith, e, f, over, closed)

-- The same event, one connection further.
shift : Event → Event
shift (acts i a) = acts (suc i) a
shift e = e

run-shift :
    (es : List Event) (k : Load) (c : Loops) (cs : List Loops)
    → run (k, c ∷ cs) (map shift es) ≡ ((run (k, cs) es).0, c ∷ (run (k, cs) es).1)
unfolding run step shift act_at
run-shift [] k c cs = refl
run-shift (acts i a ∷ es) k c cs = let (k', cs') = act_at k i a cs in run-shift es k' c cs'
run-shift (is_over ∷ es) k c cs = run-shift es (record k { is_done = true }) c cs
run-shift (closes ∷ es) k c cs = run-shift es (record k { is_closed = true }) c cs

can_end :
    (k : Load) (cs : List Loops)
    → k.is_done ≡ true
    → k.is_closed ≡ true
    → (es : List Event) × AllEnded (run (k, cs) es).1
unfolding run step act_at last_acts
can_end k [] over closed = ([], tt)
can_end k (c ∷ cs) over closed =
    let (k', c') = last_acts k c in
    let (over', closed', sent, received) =
      last_acts-end k c c.sending c.receiving over closed refl refl in
    let (es, ended) = can_end k' cs over' closed' in
    (
      acts 0 (ticks true 0)
          ∷ acts 0 tests_send
          ∷ acts 0 (reads none)
          ∷ acts 0 tests_receive
          ∷ map shift es,
      rw (run-shift es k' c' cs) (sent, received, ended),
    )

pub run_ends :
    (k : Load) (cs : List Loops) (es : List Event)
    → k.is_done ≡ true
    → k.is_closed ≡ true
    → let (k', cs') = run (k, cs) es in
      (k'.sent ≡ k.sent)
      × (k'.times ≡ k.times)
      × (k'.errors + waiting cs' ≡ k.errors + waiting cs)
      × ((last : List Event) × AllEnded (run (k', cs') last).1
          × ((run (k', cs') last).0.errors ≡ k.errors + waiting cs))
run_ends k cs es over closed =
    let (k', cs') = run (k, cs) es in
    let (over', closed', sent, times, owed) = run-Owes k cs es over closed in
    let (last, ended) = can_end k' cs' over' closed' in
    let (_, _, _, _, owed') = run-Owes k' cs' last over' closed' in
    (sent, times, owed, (last, ended, omega (arith, owed, owed', waiting-AllEnded _ ended)))
