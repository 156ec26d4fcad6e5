-- ===== src/Config.antt =====
-- pkg/config: the configuration that a service reads from its environment, with the two numbers'
-- conversions of strconv that it uses. A Go int has 64 bits.
pub mod Numbers
use Prim.Native.String.{◌++◌ as append}
use Prim.Native.Char.{Char, char, code}
use Prim.Native.String
use feeds.Prelude.{
  ℕ, zero, suc, ◌+◌, ◌-◌, ◌*◌, ◌/◌, ◌%◌, ◌^◌, ◌≤◌, ◌<◌, String, ite, Option, none, some, List, [],
  ◌∷◌, text_dec, ltb, leb, ◌==◌, ◌||◌, if◌then◌else◌,
}
use feeds.Prelude.Int.{ℤ, pos, negsuc}
use feeds.Auth.{Env}
use feeds.Interaction.Uuid.{codes}

pub record PostgresConfig : Type 0 where
  pub host : String
  pub port : ℤ
  pub user : String
  pub password : String
  pub db_name : String
  pub schema : String

pub record MySqlConfig : Type 0 where
  pub host : String
  pub port : ℤ
  pub user : String
  pub password : String
  pub db_name : String

pub record RedisConfig : Type 0 where
  pub addr : String
  pub password : String
  pub db : ℤ

pub record CosConfig : Type 0 where
  pub bucket_url : String
  pub secret_id : String
  pub secret_key : String

-- `KafkaConfig` is its brokers.
pub record Config : Type 0 where
  pub postgres : PostgresConfig
  pub my_sql : MySqlConfig
  pub redis : RedisConfig
  pub kafka : List String
  pub cos : CosConfig

unfoldable pub get_env : Env → String → String → String
get_env env key fallback = ite (text_dec (env key) "") fallback (env key)

-- `strconv.Atoi` on the codes of a text: an optional sign, then digits, in the range of an int. Its
-- errors are told apart by nobody.
unfoldable pub scan : ℕ → List ℕ → Option ℕ
scan n [] = some n
scan n (c ∷ s) =
    let rest = scan (n * 10 + (c - b'0')) s in if ltb c b'0' || ltb b'9' c then none else rest

unfoldable pub unsigned : List ℕ → Option ℕ
unfolding scan
unsigned [] = none
unsigned (c ∷ s) = scan 0 (c ∷ s)

unfoldable pub minus : ℕ → ℤ
minus zero = pos 0
minus (suc n) = negsuc n

abbrev pub positive : Option ℕ → Option ℤ
positive none = none
positive (some n) = if ltb n (2 ^ 63) then some (pos n) else none

abbrev pub negative : Option ℕ → Option ℤ
negative none = none
negative (some n) = if leb n (2 ^ 63) then some (minus n) else none

unfoldable pub signed : List ℕ → Option ℤ
unfolding unsigned minus
signed [] = none
signed (c ∷ s) =
    if c == b'-'
    then negative (unsigned s)
    else if c == b'+'
    then positive (unsigned s)
    else positive (unsigned (c ∷ s))

unfoldable pub atoi : String → Option ℤ
unfolding signed
atoi s = signed (codes s)

unfoldable pub digit : ℕ → Char
digit n = String.char_at "0123456789" n

-- The digits of a number in front of a text; an int has at most 19 digits.
unfoldable pub digits : ℕ → ℕ → String → String
unfolding digit
digits zero n out = out
digits (suc rounds) n out =
    let rest = digits rounds (n / 10) (String.◌∷◌ (digit (n % 10)) out) in
    if n == 0 then out else rest

-- `strconv.Itoa`
unfoldable pub itoa : ℤ → String
unfolding digits
itoa (pos n) = if n == 0 then "0" else digits 20 n ""
itoa (negsuc n) = String.◌∷◌ (char 45 tt) (digits 20 (n + 1) "")

abbrev or_fallback : Option ℤ → ℤ → ℤ
or_fallback none fallback = fallback
or_fallback (some n) fallback = n

unfoldable pub get_env_int : Env → String → ℤ → ℤ
unfolding atoi
get_env_int env key fallback =
    ite (text_dec (env key) "") fallback (or_fallback (atoi (env key)) fallback)

-- `Load`: the schema is the service's, if it has a name.
unfoldable pub load : Env → String → Config
unfolding get_env get_env_int
load env service = record {
  postgres = record {
    host = get_env env "POSTGRES_HOST" "localhost";
    port = get_env_int env "POSTGRES_PORT" (pos 5432);
    user = get_env env "POSTGRES_USER" "feeds";
    password = get_env env "POSTGRES_PASSWORD" "feeds_dev";
    db_name = get_env env "POSTGRES_DB" "feeds";
    schema = ite (text_dec service "") (get_env env "POSTGRES_SCHEMA" "public") service;
  };
  my_sql = record {
    host = get_env env "MYSQL_HOST" "localhost";
    port = get_env_int env "MYSQL_PORT" (pos 3306);
    user = get_env env "MYSQL_USER" "feeds";
    password = get_env env "MYSQL_PASSWORD" "feeds_dev";
    db_name = get_env env "MYSQL_DB" "feeds";
  };
  redis = record {
    addr = get_env env "REDIS_ADDR" "localhost:6379";
    password = get_env env "REDIS_PASSWORD" "";
    db = get_env_int env "REDIS_DB" (pos 0);
  };
  kafka = get_env env "KAFKA_BROKERS" "localhost:9092" ∷ [];
  cos = record {
    bucket_url = get_env env "COS_BUCKET_URL" "";
    secret_id = get_env env "COS_SECRET_ID" "";
    secret_key = get_env env "COS_SECRET_KEY" "";
  };
}

abbrev concat : List String → String
concat [] = ""
concat (s ∷ texts) = append s (concat texts)

-- `PostgresConfig.DSN`
unfoldable pub postgres_dsn : PostgresConfig → String
unfolding itoa
postgres_dsn c = concat (
    "host="
    ∷ c.host
    ∷ " port="
    ∷ itoa c.port
    ∷ " user="
    ∷ c.user
    ∷ " password="
    ∷ c.password
    ∷ " dbname="
    ∷ c.db_name
    ∷ " sslmode=disable"
    ∷ " search_path="
    ∷ c.schema
    ∷ [])

-- `MySQLConfig.DSN`
unfoldable pub my_sql_dsn : MySqlConfig → String
unfolding itoa
my_sql_dsn c = concat (
    c.user
    ∷ ":"
    ∷ c.password
    ∷ "@tcp("
    ∷ c.host
    ∷ ":"
    ∷ itoa c.port
    ∷ ")/"
    ∷ c.db_name
    ∷ "?parseTime=true&charset=utf8mb4"
    ∷ [])

-- `url.URL` as `MigrateURL` fills it in. net/url encodes it.
pub record Url : Type 0 where
  pub scheme : String
  pub user : String
  pub password : String
  pub host : String
  pub path : String
  pub query : List (String × String)

-- `PostgresConfig.MigrateURL`: every schema has a migration table of its own.
unfoldable pub migrate_url : (Url → String) → PostgresConfig → String
unfolding itoa
migrate_url encode c = encode (record {
  scheme = "postgres";
  user = c.user;
  password = c.password;
  host = concat (c.host ∷ ":" ∷ itoa c.port ∷ []);
  path = append "/" c.db_name;
  query =
      ("sslmode", "disable") ∷ ("x-migrations-table", append c.schema "_schema_migrations") ∷ [];
})
