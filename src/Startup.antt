-- ===== src/Startup.antt =====
-- services/*/main.go: how a service starts. `log.Fatalf` ends the process; what each step answers is an
-- argument. The gRPC server and its shutdown are not modelled.
use feeds.Prelude.{
  ◌≡◌, refl, List, [], ◌∷◌, ◌++◌, map, String, Option, none, some, Error, wrapped, Result, ok, err,
  ◌>>=◌, Result-cases, inl, inr, arith,
}
use feeds.Events.{KafkaDispatcher, Dispatcher, dispatcher_of}
use feeds.Storage.{Up, new_postgres_pool, new_redis_client, run_migrations_fs}

-- What the steps answer.
pub record Boot : Type 0 where
  pub telemetry : Option Error
  pub opened : Option Error
  pub pinged : Option Error
  pub files : Option Error
  pub created : Option Error
  pub up : Up
  pub redis : Option Error
  pub kafka : Result KafkaDispatcher
  pub live : Option Error
  pub listen : Option Error

-- `log.Fatalf` with its prefix.
abbrev fatal : String → Option Error → Result (Unit {0})
fatal prefix none = ok tt
fatal prefix (some e) = err (wrapped prefix e)

abbrev fatal_of {ℓ} : {A : Type ℓ} → String → Result A → Result (Unit {0})
fatal_of prefix (ok a) = ok tt
fatal_of prefix (err e) = err (wrapped prefix e)

-- The database, which every service opens first, and its migrations.
abbrev start_db : Boot → Result (Unit {0})
start_db b = do
  _ ← fatal "telemetry: " b.telemetry
  _ ← fatal_of "db: " (new_postgres_pool b.opened b.pinged 20 0).1
  fatal_of "migrations: " (run_migrations_fs b.files b.created b.up)

-- services/feed and services/interaction: with Redis and a dispatcher, which is a no-op without Kafka.
abbrev start_with_events : Boot → Result Dispatcher
start_with_events b = do
  _ ← start_db b
  _ ← fatal_of "redis: " (new_redis_client b.redis 0).1
  _ ← fatal "listen: " b.listen
  ok (dispatcher_of b.kafka)

unfoldable pub start_feed : Boot → Result Dispatcher
unfolding dispatcher_of
start_feed = start_with_events

unfoldable pub start_interaction : Boot → Result Dispatcher
unfolding dispatcher_of
start_interaction = start_with_events

unfoldable pub start_user : Boot → Result (Unit {0})
start_user b = do _ ← start_db b; fatal "listen: " b.listen

unfoldable pub start_notify : Boot → Result (Unit {0})
start_notify b = do _ ← start_db b; _ ← fatal "live gRPC dial: " b.live; fatal "listen: " b.listen

-- services/live: no database, and the WebSocket server beside the gRPC server.
unfoldable pub start_live : Boot → Result (Unit {0})
start_live b = do _ ← fatal "telemetry: " b.telemetry; fatal "grpc listen: " b.listen

-- What the goroutines of the live service meet once it has started.
pub data Happening : Type 0 where
  ws_ends : Option Error → Happening
  grpc_ends : Option Error → Happening
  pprof_ends : Option Error → Happening
  interrupted : Happening

-- `none` while it runs; then how the process ends.
unfoldable pub serve_live : List Happening → Option (Result (Unit {0}))
serve_live [] = none
serve_live (ws_ends none ∷ rest) = serve_live rest
serve_live (ws_ends (some e) ∷ rest) = some (err (wrapped "ws serve: " e))
serve_live (grpc_ends none ∷ rest) = serve_live rest
serve_live (grpc_ends (some e) ∷ rest) = some (err (wrapped "grpc serve: " e))
serve_live (pprof_ends answer ∷ rest) = serve_live rest
serve_live (interrupted ∷ rest) = some (ok tt)

-- Kafka never keeps the feed service from starting: if it starts with one answer of Kafka, it starts with
-- every other, and then dispatches to Kafka if it was reached, and nowhere if not.
kafka_is_optional :
    (b : Boot) (k : Result KafkaDispatcher) (d : Dispatcher)
    → start_feed b ≡ ok d
    → start_feed (record b { kafka = k }) ≡ ok (dispatcher_of k)
unfolding start_feed
kafka_is_optional b k d h = elim (Result-cases (start_db b)) [
  | inl (u, e) ↦ ground (arith, e, h)
  | inr (x, e) ↦ ground (arith, e, h)
]

-- A failing profiler never ends the live service, and it runs on for as long as both of its servers do.
serve_live-pprof :
    (answers : List (Option Error)) (rest : List Happening)
    → serve_live (map pprof_ends answers ++ rest) ≡ serve_live rest
unfolding serve_live
serve_live-pprof [] rest = refl
serve_live-pprof (answer ∷ answers) rest = serve_live-pprof answers rest
