-- ===== src/Config.antt =====
-- The configuration of the four processes: internal/api/config.go, internal/hub/config.go,
-- internal/worker/config.go and internal/reconciler/config.go.
pub mod Required
pub mod Shards
use matchmaking.Shared.{
  String, ◌⧺◌, Bool, true, false, Option, none, some, List, [], ◌∷◌, ◌++◌, str_eq, if◌then◌else◌,
}
use matchmaking.Shared.Texts
use matchmaking.Model.{Shard}
use Shards.{parse_shards}

-- os.Getenv: the empty text for a variable that is not set.
abbrev pub Env : Type 0
Env = String → String

-- A configuration, or the text of the error.
pub data Config {ℓ} (A : Type ℓ) : Type ℓ where
  loaded : A → Config A
  invalid : String → Config A

-- envOr
unfoldable pub env_or : Env → String → String → String
env_or env key fallback = if str_eq (env key) "" then fallback else env key

-- Reading variables, with the list of those that are missing.
abbrev pub Reader : Type 0 → Type 0
Reader A = List String → A × List String

infixl 5 ◌>>=◌
abbrev pub ◌>>=◌ : {A B : Type 0} → Reader A → (A → Reader B) → Reader B
◌>>=◌ m f missing = let (a, more) = m missing in f a more

abbrev pub done : {A : Type 0} → A → Reader A
done a missing = (a, missing)

-- The closure `required` of LoadConfig.
unfoldable pub required : Env → String → Reader String
required env key missing = (env key, if str_eq (env key) "" then missing ++ key ∷ [] else missing)

-- if len(missing) > 0
unfoldable pub unless_missing {ℓ} : {A : Type ℓ} → A × List String → Config A
unless_missing (config, []) = loaded config
unless_missing (config, key ∷ keys) =
    invalid ("missing required env vars: " ⧺ Texts.join (key ∷ keys) ", ")

pub record WorkerConfig : Type 0 where
  pub redis_addr : String
  pub db_conn_str : String
  pub shard_region : String
  pub shard_mode : String
  pub shard_rating_band : String

pub record ApiConfig : Type 0 where
  pub redis_addr : String
  pub db_conn_str : String
  pub http_addr : String

pub record HubConfig : Type 0 where
  pub redis_addr : String
  pub http_addr : String

pub record ReconcilerConfig : Type 0 where
  pub redis_addr : String
  pub shards : List Shard

abbrev pub conn_str : String → String → String → String → String → String
conn_str user password host port name =
    "postgres://" ⧺ user ⧺ ":" ⧺ password ⧺ "@" ⧺ host ⧺ ":" ⧺ port ⧺ "/" ⧺ name

module _ (env : Env) where
  unfoldable pub read_worker : Reader WorkerConfig
  read_worker = do
    db_host ← required env "DB_HOST"
    db_user ← required env "DB_USER"
    db_password ← required env "DB_PASSWORD"
    db_name ← required env "DB_NAME"
    let db_port = env_or env "DB_PORT" "5432"
    region ← required env "SHARD_REGION"
    mode ← required env "SHARD_MODE"
    rating_band ← required env "SHARD_RATINGBAND"
    done (record {
      redis_addr = env_or env "REDIS_ADDR" "localhost:6379";
      db_conn_str = conn_str db_user db_password db_host db_port db_name;
      shard_region = region;
      shard_mode = mode;
      shard_rating_band = rating_band;
    })

  -- LoadConfig of the worker.
  unfoldable pub load_worker : Config WorkerConfig
  unfolding read_worker unless_missing
  load_worker = unless_missing (read_worker [])

  unfoldable pub read_api : Reader ApiConfig
  read_api = do
    db_host ← required env "DB_HOST"
    db_user ← required env "DB_USER"
    db_password ← required env "DB_PASSWORD"
    db_name ← required env "DB_NAME"
    let db_port = env_or env "DB_PORT" "5432"
    let db_pool_max = env_or env "DB_POOL_MAX_CONNS" "50"
    done (record {
      redis_addr = env_or env "REDIS_ADDR" "localhost:6379";
      db_conn_str =
          conn_str db_user db_password db_host db_port db_name ⧺ "?pool_max_conns=" ⧺ db_pool_max;
      http_addr = env_or env "HTTP_ADDR" ":8080";
    })

  -- LoadConfig of the API.
  unfoldable pub load_api : Config ApiConfig
  unfolding read_api unless_missing
  load_api = unless_missing (read_api [])

  -- LoadConfig of the hub, which reports no error.
  unfoldable pub load_hub : Config HubConfig
  unfolding env_or
  load_hub = loaded (record {
    redis_addr = env_or env "REDIS_ADDR" "localhost:6379";
    http_addr = env_or env "HTTP_ADDR" ":8081";
  })

  unfoldable pub read_reconciler : Reader ReconcilerConfig
  read_reconciler = do
    shard_list ← required env "SHARD_LIST"
    done (record {
      redis_addr = env_or env "REDIS_ADDR" "localhost:6379";
      shards = parse_shards shard_list;
    })

  -- LoadConfig of the reconciler. The list is parsed only when it is there, and parsing has no
  -- effect but the warnings that it logs.
  unfoldable pub load_reconciler : Config ReconcilerConfig
  unfolding read_reconciler unless_missing
  load_reconciler = unless_missing (read_reconciler [])
