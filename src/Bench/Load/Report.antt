-- ===== src/Bench/Load/Report.antt =====
-- The report of a run whose messages were all sent.
use feeds.Prelude.{ℕ, ◌<◌, ◌≡◌, ◌≢◌, Bool, true, some, List, [], arith}
use feeds.Bench.Ranks.{percentiles_lem}
use feeds.Bench.Verdict.{too_many_errors, verdict}
use feeds.Bench.Load.{Loops, Load, Event, run, report}
use feeds.Bench.Load.Ending.{AllEnded, waiting, waiting-AllEnded, run_ends}

-- A run that had no error until its time was over, with messages sent, fails when the send loops that
-- then wait for their tick are too many for the messages, however it ends.
pub clean_run_fails :
    (over : ℕ → ℕ → Bool) (k : Load) (cs : List Loops) (es : List Event)
    → k.is_done ≡ true
    → k.is_closed ≡ true
    → AllEnded (run (k, cs) es).1
    → k.errors ≡ 0
    → k.times ≢ []
    → 0 < waiting cs
    → over k.sent (waiting cs) ≡ true
    → report over (run (k, cs) es).0 ≡ some too_many_errors
unfolding report verdict
clean_run_fails over k cs es done closed ended clean some_times late too_many =
    let (sent, times, owed, _) = run_ends k cs es done closed in
    let (r, e, _, _, _, _, _, _, _) = percentiles_lem k.times some_times in
    ground (arith, sent, times, owed, waiting-AllEnded _ ended, clean, late, too_many, e)
