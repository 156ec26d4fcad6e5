-- ===== src/Storage.antt =====
-- pkg/storage: opening the databases and running their migrations. What a driver, Redis and
-- golang-migrate answer is an argument; a connection pool is counted from its opening to its closing.
use Prim.Native.String.{◌++◌ as append}
use feeds.Prelude.{
  ℕ, suc, ◌-◌, ◌/◌, ◌≡◌, refl, String, Option, none, some, Error, wrapped, Result, ok, err, arith,
}

pub record Pool : Type 0 where
  pub driver : String
  pub max_open_conns : ℕ
  pub max_idle_conns : ℕ

-- Both pools, with the text that their errors name them by.
abbrev new_pool : String → String → Option Error → Option Error → ℕ → ℕ → ℕ × Result Pool
new_pool driver name (some e) pinged max_conns open_pools =
    (open_pools, err (wrapped (append "storage: open " (append name ": ")) e))
new_pool driver name none (some e) max_conns open_pools =
    (suc open_pools - 1, err (wrapped (append "storage: ping " (append name ": ")) e))
new_pool driver name none none max_conns open_pools = (
  suc open_pools,
  ok (record { driver = driver; max_open_conns = max_conns; max_idle_conns = max_conns / 2 }),
)

-- `NewPostgresPool`: the errors of opening and of the ping, and the pools that are open.
abbrev pub new_postgres_pool : Option Error → Option Error → ℕ → ℕ → ℕ × Result Pool
new_postgres_pool = new_pool "pgx" "postgres"

-- `NewMySQLPool`
abbrev pub new_my_sql_pool : Option Error → Option Error → ℕ → ℕ → ℕ × Result Pool
new_my_sql_pool = new_pool "mysql" "mysql"

-- `NewRedisClient`: the error of the ping.
abbrev pub new_redis_client : Option Error → ℕ → ℕ × Result (Unit {0})
new_redis_client (some e) open_clients =
    (suc open_clients - 1, err (wrapped "storage: connect redis: " e))
new_redis_client none open_clients = (suc open_clients, ok tt)

-- What `Up` answers: `migrate.ErrNoChange` is an answer of its own.
pub data Up : Type 0 where
  migrated : Up
  no_change : Up
  up_failed : Error → Up

abbrev after_up : Up → Result (Unit {0})
after_up migrated = ok tt
after_up no_change = ok tt
after_up (up_failed e) = err (wrapped "storage: run migrations: " e)

-- `RunMigrations`
abbrev pub run_migrations : Option Error → Up → Result (Unit {0})
run_migrations (some e) up = err (wrapped "storage: init migrate: " e)
run_migrations none up = after_up up

-- `RunMigrationsFS`, with the error of reading the embedded files.
abbrev pub run_migrations_fs : Option Error → Option Error → Up → Result (Unit {0})
run_migrations_fs (some e) created up = err (wrapped "storage: init iofs: " e)
run_migrations_fs none created up = run_migrations created up

-- A pool that cannot be used is closed again: as many pools are open as were handed out.
new_pool-balanced :
    (driver name : String) (opened pinged : Option Error) (max_conns open_pools : ℕ)
    → (new_pool driver name opened pinged max_conns open_pools).0
      ≡ elim (new_pool driver name opened pinged max_conns open_pools).1 [
        | ok pool ↦ suc open_pools
        | err e ↦ open_pools
      ]
new_pool-balanced driver name (some e) pinged max_conns open_pools = refl
new_pool-balanced driver name none (some e) max_conns open_pools = omega arith
new_pool-balanced driver name none none max_conns open_pools = refl
