-- ===== src/Lib.antt =====
-- feeds: a model of the services of the repository, in Go, and what holds of them.
--
-- The program is a set of services over PostgreSQL, Redis, Kafka and WebSockets. Clients keep one
-- WebSocket to the live service, which runs the comet core: it authenticates a connection by a token
-- and binds it to its user's room. The feed service stores posts, caches their contents in Redis and
-- merges timelines; the interaction service counts likes in Redis over a table; the notify service
-- stores notifications and pushes them through the live service; the user service keeps accounts and
-- follows, and signs the tokens that pkg/auth validates. The gateway takes the HTTP requests, lets
-- the middleware of pkg/auth name their user, and calls the services over gRPC.
--
-- The files, and the code that each is about:
--
--   Prelude        shared tests, lists, texts, maps, pair tables and integers; Go errors as values;
--                  what becomes of a database statement
--   Comet          pkg/comet: Frame is protocol.go, ConnManager is conn_manager.go, Core is
--                  server.go (Dispatch, handleAuth, handleMessage, Push), Ws is ws/conn.go and
--                  ws/server.go, Client is client/conn.go; Delivery puts them together; Server is
--                  the server of ws/server.go with all its connections, interleaved, and its Start
--   Feed           services/feed: Model and Jsonb are model.go and the conversions of service.go,
--                  Repo is repo.go, Service is PostFeed, GetFeed, ListFeeds and DeleteFeed,
--                  Interleave and Timeline are interleave and GetTimeline; Cache states what is used
--                  of Redis and encoding/json
--   Interaction    services/interaction: Uuid and LikeRepo are the likes of repo.go, LikeStorage is
--                  storage.go, with BatchCount in LikeStorage/Batch and the interleavings of
--                  concurrent requests in LikeStorage/Races; Comments is the comments and the
--                  bookmarks of repo.go, Service is service.go; Redis states the commands that are
--                  used
--   Live           the business layer and the gRPC methods of services/live/main.go
--   Notify         services/notify: Store is store.go, Service is service.go; Reaching puts the live
--                  service and its WebSocket server behind it
--   User           services/user: Repo and Follows are repo.go, Service is service.go
--   Auth           pkg/auth/auth.go
--   Gateway        services/gateway: Query, Http, Feeds, Users, Interactions and Upload are
--                  srv/*.go, Routes is every RegisterMux, against the interface in Routes/Interface,
--                  Mux is what net/http's ServeMux does with the patterns, Server is main.go;
--                  Server/Backend puts the models of the services behind the clients,
--                  Server/Admission follows a request to its handler, Server/Effects says what each
--                  handler does to the services; Starting is what main.go builds before it listens
--   Events         pkg/events: dispatcher.go and kafka.go
--   Config         pkg/config/config.go, with Atoi and Itoa
--   Storage        pkg/storage: opening the pools, migrations
--   Telemetry      pkg/telemetry/telemetry.go: Init and the shutdown
--   Startup        the steps of a start in services/*/main.go, and the end of the live service
--   Bench          services/live/bench/main.go: the latency tracker; Ramp and Load are the two
--                  phases, Verdict is the end of the report
--   Tests          runs at concrete inputs
--
-- State is passed explicitly: a table is a list of rows, a Go map is an association list, and a
-- method is a function from the state before to the state after and the answer. A method that holds
-- a mutex for its whole body is one step. Goroutines are interleaved: Comet/Server, Bench/Ramp and
-- Bench/Load run over an explicit sequence of events, each of which is what one goroutine does at
-- once, and Interaction/LikeStorage/Races is a step relation, in which a pipeline is one step and
-- each statement has an outcome of its own. Loops are structural. Three have a bound: the rebuild of
-- a set of likers runs for at most as many rounds as there are likers, and an int is printed in at
-- most 20 rounds, since it has at most 19 digits; and a request that no other comes between has at
-- most four phases. Queues keep their capacity of 256 frames. The order in which a Go map is walked
-- is that of the list.
--
-- What the code does not decide is an argument: the identifiers and times that the database gives,
-- the order of a query without a total order, and what becomes of a statement, which is answered,
-- refused without effect, or done with its answer lost. Redis, encoding/json, bcrypt, the JWT
-- package, Kafka, net/url and gRPC are parameters, with what their documentation says as named laws.
-- A time is a number of microseconds. A page number or size is an integer as the code reads it; the
-- machine words that matter, int32 and int64, wrap around.
--
-- Not modelled: logs, spans and metrics; the sockets that the processes listen on, and their
-- deadlines; the health checks, which only pass on a ping; paths with escapes or not in clean form,
-- which net/http redirects; the tokens of the benchmark, its progress lines and the text of its
-- report; the end-to-end program; generated code and the Python workers. Numbers that count rows or
-- connections are not bounded by a word.
pub mod Auth
pub mod Bench
pub mod Comet
pub mod Config
pub mod Events
pub mod Feed
pub mod Gateway
pub mod Interaction
pub mod Live
pub mod Notify
pub mod Prelude
pub mod Startup
pub mod Storage
pub mod Telemetry
pub mod Tests
pub mod User
