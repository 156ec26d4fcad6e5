-- ===== src/Tests/Load.antt =====
-- The end of a run of the benchmark.
use feeds.Prelude.{true, none, List, [], ◌∷◌}
use feeds.Bench.Load.{Loops, Load, Event, acts, at_test, at_work, at_end, tests_send, ticks, reads}

-- Two connections have sent a message each; one send loop waits for its tick.
abbrev late : Load
late = record {
  sent = 2;
  errors = 0;
  replies = 0;
  times = 5 ∷ 7 ∷ [];
  is_done = true;
  is_closed = true;
}

abbrev loops : List Loops
loops =
    record { sending = at_work; receiving = at_work }
    ∷ record { sending = at_test; receiving = at_end }
    ∷ []

abbrev first_moves : List Event
first_moves = acts 0 (reads none) ∷ acts 1 tests_send ∷ acts 0 (ticks true 3) ∷ []
