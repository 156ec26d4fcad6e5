-- ===== src/Bench/Load.antt =====
-- services/live/bench/main.go, the second phase: the goroutines that send and receive over each
-- connection, the end of the run and its counters. What the sockets answer and when the tickers tick is
-- an argument; a closed socket fails every read and write.
pub mod Ending
pub mod Counting
pub mod Report
use feeds.Prelude.{
  ℕ, zero, suc, ◌+◌, Bool, true, false, not, Option, none, some, List, [], ◌∷◌, ◌==◌, ◌&&◌, ◌||◌,
  if◌then◌else◌,
}
use feeds.Comet.Frame.{Bytes}
use feeds.Bench.{add, percentiles}
use feeds.Bench.Verdict.{Verdict, verdict}

-- Where a loop stands: before its test of `done`, before its tick or its read, or after its end.
pub data Place : Type 0 where
  at_test : Place
  at_work : Place
  at_end : Place

-- The goroutines of a connection.
pub record Loops : Type 0 where
  pub sending : Place
  pub receiving : Place

-- What they share. `replies` counts the answers to heartbeats.
pub record Load : Type 0 where
  pub sent : ℕ
  pub errors : ℕ
  pub replies : ℕ
  pub times : List ℕ
  pub is_done : Bool
  pub is_closed : Bool

-- `tests_send` and `tests_receive` are the loops' tests; a tick comes with whether the write succeeds
-- and how long it takes, a read with the frame, or none for an error.
pub data Act : Type 0 where
  tests_send : Act
  ticks : Bool → ℕ → Act
  tests_receive : Act
  reads : Option Bytes → Act

after_test : Bool → Place
after_test done = if done then at_end else at_work

count_write : Load → Bool → ℕ → Load
count_write k true d = record k { sent = k.sent + 1; times = add k.times d }
count_write k false d = record k { errors = k.errors + 1 }

-- The body of the loop for a frame, which answers a heartbeat.
receive : Load → Bytes → Load
receive k [] = k
receive k (a ∷ []) = k
receive k (a ∷ b ∷ rest) = if a == 0 && b == 1 then record k { replies = k.replies + 1 } else k

count_read : Load → Load
count_read k = if k.is_done then k else record k { errors = k.errors + 1 }

read : Load → Loops → Option Bytes → Load × Loops
unfolding receive count_read
read k c (some raw) = (receive k raw, record c { receiving = at_test })
read k c none = (count_read k, record c { receiving = at_end })

-- A move from where the two loops stand. What a goroutine counts after a write or a read is part of
-- it, since nothing but the progress line reads the counters before every goroutine has ended.
move : Load → Loops → Act → Place → Place → Load × Loops
unfolding after_test count_write read
move k c tests_send at_test receiving = (k, record c { sending = after_test k.is_done })
move k c (ticks succeeds d) at_work receiving =
    (count_write k (succeeds && not k.is_closed) d, record c { sending = at_test })
move k c tests_receive sending at_test = (k, record c { receiving = after_test k.is_done })
move k c (reads answer) sending at_work = read k c (if k.is_closed then none else answer)
move k c a sending receiving = (k, c)

-- One move of a loop of a connection; none unless the loop is at that place.
unfoldable pub act : Load → Act → Loops → Load × Loops
unfolding move
act k a c = move k c a c.sending c.receiving

unfoldable pub act_at : Load → ℕ → Act → List Loops → Load × List Loops
unfolding act
act_at k i a [] = (k, [])
act_at k zero a (c ∷ cs) = let (k', c') = act k a c in (k', c' ∷ cs)
act_at k (suc i) a (c ∷ cs) = let (k', cs') = act_at k i a cs in (k', c ∷ cs')

-- A move of the loops of a connection, `done.Store(true)`, or the loop that closes the connections.
pub data Event : Type 0 where
  acts : ℕ → Act → Event
  is_over : Event
  closes : Event

unfoldable pub step : Load × List Loops → Event → Load × List Loops
unfolding act_at
step (k, cs) (acts i a) = act_at k i a cs
step (k, cs) is_over = (record k { is_done = true }, cs)
step (k, cs) closes = (record k { is_closed = true }, cs)

unfoldable pub run : Load × List Loops → List Event → Load × List Loops
unfolding step
run s [] = s
run s (e ∷ es) = run (step s e) es

fresh : ℕ → List Loops
fresh zero = []
fresh (suc n) = record { sending = at_test; receiving = at_test } ∷ fresh n

-- The start of the phase over as many connections; `none` where the program aborts.
unfoldable pub begin : ℕ → Option (Load × List Loops)
unfolding fresh
begin zero = none
begin (suc n) = some (
  record { sent = 0; errors = 0; replies = 0; times = []; is_done = false; is_closed = false },
  fresh (suc n),
)

-- The report and what the process ends with; `none` for a panic.
unfoldable pub report : (ℕ → ℕ → Bool) → Load → Option Verdict
report over k = elim (percentiles k.times) [
  | none ↦ none
  | some r ↦ some (verdict over k.sent k.errors r)
]
