-- ===== src/Tests/Deployment.antt =====
-- Runs of the events, of the configuration and of the latencies.
use feeds.Prelude.{ℕ, ◌≡◌, ◌≤◌, refl, String, List, [], ◌∷◌, none, some, length}
use feeds.Feed.Service.{Event}
use feeds.Events.{Kafka}
use feeds.Bench.{Percentiles, percentiles}
use feeds.Prelude.{◌<◌, ◌+◌}
use feeds.Bench.Ramp.{
  Event as RampEvent, launches, ends, counts, keeps, releases, dones, dial_failed, replied,
  at_start, step, run,
}
use feeds.Bench.Ramp.Tally.{IsOver, ramp_adds_up}
use feeds.Bench.Ranks.{count_le, Ranked, percentiles_lem}

-- A Kafka that keeps the topics and the keys that it took.
abbrev kafka : Kafka
kafka = record {
  Store = List (String × String);
  dial = λ store broker. (store, none);
  write_messages = λ store w m. ((w.topic, m.key) ∷ store, none);
  close = λ store w. (store, none);
}

abbrev brokers : List String
brokers = "localhost:9092" ∷ []

abbrev events : List Event
events =
    record { topic = "feed.liked"; key = "p1"; body = "" }
    ∷ record { topic = "feed.unliked"; key = "p1"; body = "" }
    ∷ record { topic = "feed.liked"; key = "p2"; body = "" }
    ∷ []

abbrev no_headers : Event → List (String × String)
no_headers e = []

percentiles_lem_example :
    let times : List ℕ = 30 ∷ 10 ∷ 20 ∷ [] in
    (r : Percentiles) × (percentiles times ≡ some r)
    × (r.p50 ≤ r.p95)
    × (r.p95 ≤ r.p99)
    × (r.p99 ≤ r.max)
    × (count_le r.max times ≡ length times)
    × Ranked 50 r.p50 times
    × Ranked 95 r.p95 times
    × Ranked 99 r.p99 times
percentiles_lem_example = percentiles_lem (30 ∷ 10 ∷ 20 ∷ []) (λ h. cc h)

-- Two attempts over one slot: a failure, then a success.
abbrev attempts : List RampEvent
attempts =
    launches
    ∷ launches
    ∷ ends dial_failed 5
    ∷ releases
    ∷ launches
    ∷ dones
    ∷ ends (replied (0 ∷ 1 ∷ [])) 7
    ∷ counts
    ∷ keeps
    ∷ releases
    ∷ dones
    ∷ []

ramp_adds_up_example :
    let s = run 2 1 at_start attempts in
    (s.dialing ≤ 1)
    × (IsOver 2 s
        → (s.conn_ok + s.conn_fail ≡ 2)
          × (s.conns ≡ s.conn_ok)
          × (length s.auth_latency ≡ s.conn_ok)
          × (s.sem ≡ 0))
    × (◌<◌ 0 1 → (more : List RampEvent) × IsOver 2 (run 2 1 s more))
ramp_adds_up_example = ramp_adds_up 2 1 attempts

attempts-IsOver : IsOver 2 (run 2 1 at_start attempts)
unfolding run step at_start
attempts-IsOver = (refl, refl)
